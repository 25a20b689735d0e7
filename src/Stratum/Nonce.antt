-- ===== src/Stratum/Nonce.antt =====
-- libpoolprotocols/stratum/EthStratumClient.cpp: the extranonce and the text that is submitted of a
-- nonce make up the nonce.
use native.Mathlib.Nat.{pow-suc, mul_assoc, mul_comm}
use mathlib.Core.List.{append_assoc, append-nil}
use firominer.Base.{
  false, List, [], ◌∷◌, ◌++◌, length, replicate, drop, arith, subst, dec_lt, ℕ, zero,
}
use firominer.Base.{suc, ◌+◌, ◌-◌, ◌*◌, ◌/◌, ◌%◌, ◌^◌, ◌≤◌, ◌<◌, ◌≡◌, refl, ap, ◌∙◌, sym, true}
use firominer.Hex.{hex_char, to_hex, pad_right, from_hex_char}
use firominer.Hex.Digits.{hex_fixed, length-hex_fixed, to_hex-hex_fixed}
use firominer.Stratum.Extranonce.{digit_or_zero, stoull, SessionNonce, process_extranonce, hex_part}
use firominer.Stratum.Extranonce.{is_valid_extranonce, Submission, rest_of_nonce}

scaled : (k n : ℕ) → n * 16 ^ suc k ≡ n * 16 ^ k * 16
scaled k n = rw (pow-suc 16 k) (sym (mul_assoc n (16 ^ k) 16))

scaled_first : (k n : ℕ) → n * 16 * 16 ^ k ≡ n * 16 ^ suc k
scaled_first k n =
    rw (pow-suc 16 k) (mul_assoc n 16 (16 ^ k) ∙ ap (λ x. n * x) (mul_comm 16 (16 ^ k)))

-- A number in two parts, by its digits.
hex_fixed-append :
    (a b e r : ℕ) → r < 16 ^ b → hex_fixed (a + b) (e * 16 ^ b + r) ≡ hex_fixed a e ++ hex_fixed b r
unfolding hex_fixed
hex_fixed-append a zero e r h =
    let left : a + 0 ≡ a = omega arith in
    let value : e * 1 + r ≡ e = omega arith in rw (left, value) (sym (append-nil (hex_fixed a e)))
hex_fixed-append a (suc b) e r h =
    let shifted = scaled b e in
    let size : a + suc b ≡ suc (a + b) = omega arith in
    let high : (e * 16 ^ suc b + r) / 16 ≡ e * 16 ^ b + r / 16 = omega (arith, shifted) in
    let low : (e * 16 ^ suc b + r) % 16 ≡ r % 16 = omega (arith, shifted) in
    let rest = hex_fixed-append a b e (r / 16) (omega (arith, pow-suc 16 b)) in
    rw (size, high, low, rest)
      (append_assoc (hex_fixed a e) (hex_fixed b (r / 16)) (hex_char (r % 16) ∷ []))

two_parts-bound : (a b e r : ℕ) → e < 16 ^ a → r < 16 ^ b → e * 16 ^ b + r < 16 ^ (a + b)
two_parts-bound a zero e r he hr =
    let left : a + 0 ≡ a = omega arith in rw left (omega (arith, he, hr))
two_parts-bound a (suc b) e r he hr =
    let size : a + suc b ≡ suc (a + b) = omega arith in
    let rest = two_parts-bound a b e (r / 16) he (omega (arith, pow-suc 16 b)) in
    rw size (omega (arith, rest, scaled b e, pow-suc 16 (a + b)))

-- The 16 digits of a number in two parts.
to_hex_parts :
    (a b e r : ℕ)
    → a + b ≡ 16
    → e < 16 ^ a
    → r < 16 ^ b
    → to_hex (e * 16 ^ b + r) false 16 ≡ hex_fixed a e ++ hex_fixed b r
to_hex_parts a b e r size he hr =
    let fits = subst (λ w. e * 16 ^ b + r < 16 ^ w) size (two_parts-bound a b e r he hr) in
    to_hex-hex_fixed (e * 16 ^ b + r) 16 false (omega arith) fits
    ∙ ap (λ w. hex_fixed w (e * 16 ^ b + r)) (sym size)
    ∙ hex_fixed-append a b e r hr

drop-append {ℓ} : {A : Type ℓ} (xs ys : List A) → drop (length xs) (xs ++ ys) ≡ ys
drop-append [] ys = refl
drop-append (x ∷ xs) ys = drop-append xs ys

stoull-zeros : (k n : ℕ) → stoull n (replicate k b'0') ≡ n * 16 ^ k
unfolding stoull
stoull-zeros zero n = omega arith
stoull-zeros (suc k) n =
    let e : n * 16 + 0 ≡ n * 16 = omega arith in
    ap (λ m. stoull m (replicate k b'0')) e ∙ stoull-zeros k (n * 16) ∙ scaled_first k n

stoull-append : (xs ys : List ℕ) (n : ℕ) → stoull n (xs ++ ys) ≡ stoull (stoull n xs) ys
unfolding stoull
stoull-append [] ys n = refl
stoull-append (x ∷ xs) ys n = stoull-append xs ys _

pad_right-short :
    (part : List ℕ)
    → length part ≤ 16
    → pad_right part 16 b'0' ≡ part ++ replicate (16 - length part) b'0'
unfolding pad_right
pad_right-short part h = elim (dec_lt (length part) 16) [
  | yes p ↦ ground arith
  | no p ↦
      let full : 16 - length part ≡ 0 = omega arith in rw full (ground (arith, append-nil part))
]

-- What a valid extranonce gives to the session.
process_extranonce_lem :
    (enonce : List ℕ) (session : SessionNonce)
    → is_valid_extranonce (hex_part enonce) ≡ true
    → let part = hex_part enonce in
      let s = (process_extranonce enonce session).1 in
      (s.extra_nonce_size_bytes ≡ length part)
      × (s.extra_nonce ≡ stoull 0 part * 16 ^ (16 - length part))
unfolding process_extranonce
process_extranonce_lem enonce session valid =
    let part = hex_part enonce in
    let short : length part ≤ 16 = ground (arith, valid) in
    rw valid (
      refl,
      ap (stoull 0) (pad_right-short part short)
          ∙ stoull-append part (replicate (16 - length part) b'0') 0
          ∙ stoull-zeros (16 - length part) (stoull 0 part),
    )

digit-bound : (c : ℕ) → digit_or_zero (from_hex_char c) < 16
unfolding from_hex_char
digit-bound c = ground arith

stoull-bound : (part : List ℕ) (n m : ℕ) → n < m → stoull n part < m * 16 ^ length part
unfolding stoull
stoull-bound [] n m h = omega arith
stoull-bound (c ∷ part) n m h = rw (sym (scaled_first (length part) m)) (
    stoull-bound part (n * 16 + digit_or_zero (from_hex_char c)) (m * 16)
      (omega (arith, digit-bound c)))

-- A nonce of the range that a valid extranonce of at most 8 digits leaves to the miner is, as text,
-- the digits of the extranonce followed by what is submitted to a pool of EthereumStratum; what is
-- submitted are the digits of the place in the range.
pub process_extranonce-rest_of_nonce :
    (enonce : List ℕ) (session : SessionNonce) (x : Submission) (r : ℕ)
    → is_valid_extranonce (hex_part enonce) ≡ true
    → let part = hex_part enonce in
      let s = (process_extranonce enonce session).1 in
      x.ex_size_bytes ≡ s.extra_nonce_size_bytes
      → r < 16 ^ (16 - length part)
      → x.nonce ≡ s.extra_nonce + r
      → (to_hex x.nonce false 16 ≡ hex_fixed (length part) (stoull 0 part) ++ rest_of_nonce x)
        × (rest_of_nonce x ≡ hex_fixed (16 - length part) r)
process_extranonce-rest_of_nonce enonce session x r valid size within at =
    let part = hex_part enonce in
    let e = stoull 0 part in
    let k = 16 - length part in
    let s = process_extranonce_lem enonce session valid in
    let short : length part ≤ 16 = ground (arith, valid) in
    let value : x.nonce ≡ e * 16 ^ k + r = at ∙ ap (λ n. n + r) s.1 in
    let one_times : 1 * 16 ^ length part ≡ 16 ^ length part = omega arith in
    let text : to_hex x.nonce false 16 ≡ hex_fixed (length part) e ++ hex_fixed k r =
      ap (λ n. to_hex n false 16) value
      ∙ to_hex_parts (length part) k e r (omega arith)
          (subst (λ n. e < n) one_times (stoull-bound part 0 1 (omega arith))) within in
    let rest : rest_of_nonce x ≡ hex_fixed k r =
      ap (λ w. drop w (to_hex x.nonce false 16))
        (size ∙ s.0 ∙ sym (length-hex_fixed (length part) e))
      ∙ ap (drop (length (hex_fixed (length part) e))) text
      ∙ drop-append (hex_fixed (length part) e) (hex_fixed k r) in
    (text ∙ ap (λ l. hex_fixed (length part) e ++ l) (sym rest), rest)
