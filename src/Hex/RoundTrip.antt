-- ===== src/Hex/RoundTrip.antt =====
-- libdevcore/CommonData.h and CommonData.cpp: bytes as text and back.
use mathlib.Core.List.{append_assoc, append-nil}
use firominer.Base.{
  arith, Bool, true, false, some, All, drop, ◌==◌, ℕ, ◌+◌, ◌*◌, ◌/◌, ◌%◌, ◌<◌, ◌≡◌,
}
use firominer.Base.{refl, ap, ◌∙◌, sym, List, [], ◌∷◌, ◌++◌, length}
use firominer.Hex.{hex_char, hex_digits, pad_left, bytes, hex_prefix, from_hex_char, from_hex_pairs}
use firominer.Hex.{from_hex, push_pair, hex_of_bytes, bytes_to_hex}
use firominer.Hex.Digits.{hex_fixed, hex_digits_pad}

from_hex_char-hex_char : (d : ℕ) → d < 16 → from_hex_char (hex_char d) ≡ some d
unfolding from_hex_char
from_hex_char-hex_char d h = ground arith

-- The two digits of a byte.
abbrev high : ℕ → ℕ
high b = hex_char (b / 16 % 16)

abbrev low : ℕ → ℕ
low b = hex_char (b % 16)

byte_digits : (b : ℕ) → b < 256 → pad_left (hex_digits b b) 2 b'0' ≡ high b ∷ low b ∷ []
byte_digits b h =
    hex_digits_pad b b 2 (omega arith) (omega arith) (omega arith) ∙ (unfold hex_fixed in refl)

hex_of_bytes_cons :
    (b : ℕ) (bs : List ℕ) → b < 256 → hex_of_bytes 2 (b ∷ bs) ≡ high b ∷ low b ∷ hex_of_bytes 2 bs
unfolding hex_of_bytes
hex_of_bytes_cons b bs h = ap (λ xs. xs ++ hex_of_bytes 2 bs) (byte_digits b h)

push_byte :
    (b : ℕ) (ret : List ℕ)
    → b < 256
    → push_pair (from_hex_char (high b)) (from_hex_char (low b)) ret ≡ some (ret ++ b ∷ [])
push_byte b ret h =
    let e : (b / 16 % 16 * 16 + b % 16) % 256 ≡ b = omega arith in
    rw
      (
        from_hex_char-hex_char (b / 16 % 16) (omega arith),
        from_hex_char-hex_char (b % 16) (omega arith),
        e,
      )
      refl

pub from_hex_pairs-push :
    (h l : ℕ) (rest ret ret' : List ℕ)
    → push_pair (from_hex_char h) (from_hex_char l) ret ≡ some ret'
    → from_hex_pairs (h ∷ l ∷ rest) ret ≡ from_hex_pairs rest ret'
unfolding from_hex_pairs
from_hex_pairs-push h l rest ret ret' e = rw (from_hex_pairs, e) refl

from_hex_pairs-hex_of_bytes :
    (bs ret : List ℕ)
    → All (λ b. b < 256) bs
    → from_hex_pairs (hex_of_bytes 2 bs) ret ≡ some (ret ++ bs)
from_hex_pairs-hex_of_bytes [] ret h =
    unfold hex_of_bytes from_hex_pairs in ap some (sym (append-nil ret))
from_hex_pairs-hex_of_bytes (b ∷ bs) ret h =
    let rest = from_hex_pairs-hex_of_bytes bs (ret ++ b ∷ []) h.1 in
    ap (λ s. from_hex_pairs s ret) (hex_of_bytes_cons b bs h.0)
    ∙ from_hex_pairs-push (high b) (low b) (hex_of_bytes 2 bs) ret (ret ++ b ∷ [])
        (push_byte b ret h.0)
    ∙ rest
    ∙ ap some (append_assoc ret (b ∷ []) bs)

length-hex_of_bytes :
    (bs : List ℕ) → All (λ b. b < 256) bs → length (hex_of_bytes 2 bs) ≡ 2 * length bs
length-hex_of_bytes [] h = unfold hex_of_bytes in refl
length-hex_of_bytes (b ∷ bs) h =
    omega (arith, ap length (hex_of_bytes_cons b bs h.0), length-hex_of_bytes bs h.1)

-- No text of bytes starts as a prefix does: its second character is a digit.
hex_prefix-hex_of_bytes : (bs : List ℕ) → All (λ b. b < 256) bs → hex_prefix (hex_of_bytes 2 bs) ≡ 0
hex_prefix-hex_of_bytes [] h = unfold hex_of_bytes in refl
hex_prefix-hex_of_bytes (b ∷ bs) h = ap hex_prefix (hex_of_bytes_cons b bs h.0) ∙ no_prefix
  where
    not_x : (d : ℕ) → d < 16 → (hex_char d == b'x') ≡ false
    not_x d h = ground arith

    no_prefix : hex_prefix (high b ∷ low b ∷ hex_of_bytes 2 bs) ≡ 0
    no_prefix = ground (arith, not_x (b % 16) (omega arith))

from_hex-even :
    (s digits ret : List ℕ) (throw : Bool)
    → drop (hex_prefix s) s ≡ digits
    → length s % 2 ≡ 0
    → from_hex_pairs digits [] ≡ some ret
    → from_hex s throw ≡ bytes ret
unfolding from_hex
from_hex-even s digits ret throw d e r = rw (d, e, r) refl

-- Bytes as text and back: `fromHex` of what `toHex` writes for bytes is those bytes, with the
-- prefix and without it, and no exception is thrown.
pub from_hex-bytes_to_hex :
    (bs : List ℕ) (add throw : Bool)
    → All (λ b. b < 256) bs
    → from_hex (bytes_to_hex bs 2 add) throw ≡ bytes bs
unfolding bytes_to_hex
from_hex-bytes_to_hex bs true throw h =
    from_hex-even (b'0' ∷ b'x' ∷ hex_of_bytes 2 bs) (hex_of_bytes 2 bs) bs throw refl
      (omega (arith, length-hex_of_bytes bs h)) (from_hex_pairs-hex_of_bytes bs [] h)
from_hex-bytes_to_hex bs false throw h =
    from_hex-even (hex_of_bytes 2 bs) (hex_of_bytes 2 bs) bs throw
      (ap (λ k. drop k (hex_of_bytes 2 bs)) (hex_prefix-hex_of_bytes bs h))
      (omega (arith, length-hex_of_bytes bs h)) (from_hex_pairs-hex_of_bytes bs [] h)
