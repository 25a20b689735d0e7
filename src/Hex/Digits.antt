-- ===== src/Hex/Digits.antt =====
-- libdevcore/CommonData.h: what the widths of `toHex` come to.
use native.Mathlib.Nat.{pow-suc}
use mathlib.Core.List.{append_assoc, append-nil}
use firominer.Base.{
  ◌++◌, length, length-append, replicate, arith, dec_lt, Bool, ℕ, zero, suc, ◌-◌, ◌/◌,
}
use firominer.Base.{◌%◌, ◌^◌, ◌≤◌, ◌<◌, ◌≡◌, refl, ap, ◌∙◌, sym, List, [], ◌∷◌}
use firominer.Hex.{add_prefix, hex_char, hex_digits, pad_left, to_hex}

-- A number in a fixed count of digits, by its value.
unfoldable pub hex_fixed : ℕ → ℕ → List ℕ
hex_fixed zero n = []
hex_fixed (suc w) n = hex_fixed w (n / 16) ++ hex_char (n % 16) ∷ []

pub length-hex_fixed : (w n : ℕ) → length (hex_fixed w n) ≡ w
unfolding hex_fixed
length-hex_fixed zero n = refl
length-hex_fixed (suc w) n =
    omega (arith, length-append (hex_fixed w (n / 16)), length-hex_fixed w (n / 16))

replicate-append : (k c : ℕ) → replicate k c ++ c ∷ [] ≡ c ∷ replicate k c
replicate-append zero c = refl
replicate-append (suc k) c = ap (λ xs. c ∷ xs) (replicate-append k c)

hex_fixed-zero : (w : ℕ) → hex_fixed w 0 ≡ replicate w b'0'
unfolding hex_fixed
hex_fixed-zero zero = refl
hex_fixed-zero (suc w) = ap (λ xs. xs ++ b'0' ∷ []) (hex_fixed-zero w) ∙ replicate-append w b'0'

pad_left_lt :
    (xs : List ℕ) (w fill : ℕ)
    → length xs < w
    → pad_left xs w fill ≡ replicate (w - length xs) fill ++ xs
unfolding pad_left
pad_left_lt xs w fill h = ground arith

pad_left_ge : (xs : List ℕ) (w fill : ℕ) → w ≤ length xs → pad_left xs w fill ≡ xs
unfolding pad_left
pad_left_ge xs w fill h = ground arith

pad_left-snoc :
    (xs : List ℕ) (d w fill : ℕ)
    → pad_left (xs ++ d ∷ []) (suc w) fill ≡ pad_left xs w fill ++ d ∷ []
pad_left-snoc xs d w fill =
    let longer : length (xs ++ d ∷ []) ≡ suc (length xs) =
      omega (arith, length-append xs (d ∷ [])) in
    let same : suc w - length (xs ++ d ∷ []) ≡ w - length xs = omega (arith, longer) in
    elim (dec_lt (length xs) w) [
      | yes p ↦
          rw
            (
              pad_left_lt (xs ++ d ∷ []) (suc w) fill (omega (arith, longer)),
              pad_left_lt xs w fill p,
              same,
            )
            (sym (append_assoc (replicate (w - length xs) fill) xs (d ∷ [])))
      | no p ↦
          rw
            (
              pad_left_ge (xs ++ d ∷ []) (suc w) fill (omega (arith, longer)),
              pad_left_ge xs w fill (omega arith),
            )
            refl
    ]

hex_digits-small : (f n : ℕ) → n < 16 → hex_digits f n ≡ hex_char n ∷ []
unfolding hex_digits
hex_digits-small zero n h = refl
hex_digits-small (suc f) n h = ground arith

hex_digits-large :
    (f n : ℕ) → 16 ≤ n → hex_digits (suc f) n ≡ hex_digits f (n / 16) ++ hex_char (n % 16) ∷ []
unfolding hex_digits
hex_digits-large f n h = ground arith

pad_left-one :
    (w d : ℕ) → pad_left (hex_char d ∷ []) (suc w) b'0' ≡ hex_fixed w 0 ++ hex_char d ∷ []
pad_left-one w d =
    pad_left-snoc [] (hex_char d) w b'0'
    ∙ ap (λ xs. xs ++ hex_char d ∷ []) (pad_left-nil w ∙ sym (hex_fixed-zero w))
  where
    pad_left-nil : (w : ℕ) → pad_left [] w b'0' ≡ replicate w b'0'
    pad_left-nil zero = pad_left_ge [] 0 b'0' (omega arith)
    pad_left-nil (suc w) =
        let e : suc w - length {A = ℕ} [] ≡ suc w = omega arith in
        pad_left_lt [] (suc w) b'0' (omega arith)
        ∙ append-nil (replicate (suc w - length {A = ℕ} []) b'0')
        ∙ ap (λ k. replicate k b'0') e

hex_fixed-small :
    (f n w : ℕ) → n < 16 → pad_left (hex_digits f n) (suc w) b'0' ≡ hex_fixed (suc w) n
hex_fixed-small f n w small =
    let e : n / 16 ≡ 0 = omega arith in
    let d : n % 16 ≡ n = omega arith in
    unfold hex_fixed in rw (hex_digits-small f n small, e, d) (pad_left-one w n)

some_left : (n w : ℕ) → ¬ n < 16 → n < 16 ^ suc w → 1 ≤ w
some_left n zero large h = absurd (omega arith)
some_left n (suc w) large h = omega arith

pub hex_digits_pad :
    (f n w : ℕ) → n ≤ f → 1 ≤ w → n < 16 ^ w → pad_left (hex_digits f n) w b'0' ≡ hex_fixed w n
unfolding hex_fixed
hex_digits_pad f n zero p q h = absurd (omega arith)
hex_digits_pad zero n (suc w) p q h = hex_fixed-small zero n w (omega arith)
hex_digits_pad (suc f) n (suc w) p q h = elim (dec_lt n 16) [
  | yes small ↦ hex_fixed-small (suc f) n w small
  | no large ↦
      let rest =
        hex_digits_pad f (n / 16) w (omega arith) (some_left n w large h)
          (omega (arith, pow-suc 16 w)) in
      rw (hex_digits-large f n (omega arith)) (
        pad_left-snoc (hex_digits f (n / 16)) (hex_char (n % 16)) w b'0'
        ∙ ap (λ xs. xs ++ hex_char (n % 16) ∷ []) rest)
]

-- `toHex` of a number has the count of digits that it is asked for, each the digit of its place,
-- where the number fits in that count and the count is not 0.
pub to_hex-hex_fixed :
    (n width : ℕ) (add : Bool)
    → 1 ≤ width
    → n < 16 ^ width
    → to_hex n add width ≡ add_prefix add (hex_fixed width n)
unfolding to_hex
to_hex-hex_fixed n width add some_digits fits =
    ap (add_prefix add) (hex_digits_pad n n width (omega arith) some_digits fits)
