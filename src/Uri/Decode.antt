-- ===== src/Uri/Decode.antt =====
-- libpoolprotocols/PoolURI.cpp: `url_decode`. The number that a stream extracts of two characters in
-- base 16 is a parameter.
use firominer.Base.{ℕ, ◌<◌, ◌%◌, ◌/◌, List, [], ◌∷◌, Option, none, some, ◌≡◌, refl, arith, ◌==◌}
use firominer.Base.{if◌then◌else◌, All}
use firominer.Hex.{hex_char}

module _ (extract : ℕ → ℕ → Option ℕ) where
  -- A character of a `char`, before the rest.
  abbrev pub char_before : ℕ → Option (List ℕ) → Option (List ℕ)
  char_before c none = none
  char_before c (some cs) = some (c % 256 ∷ cs)

  abbrev pub extracted_before : Option ℕ → Option (List ℕ) → Option (List ℕ)
  extracted_before none rest = none
  extracted_before (some value) rest = char_before value rest

  -- `url_decode`; `none` is that it fails.
  unfoldable pub url_decode : List ℕ → Option (List ℕ)
  url_decode [] = some []
  url_decode (c ∷ []) =
      if c == b'%' then none else if c == b'+' then some (b' ' ∷ []) else some (c ∷ [])
  url_decode (c ∷ d ∷ []) =
      let rest = url_decode (d ∷ []) in
      if c == b'%' then none else char_before (if c == b'+' then b' ' else c) rest
  url_decode (c ∷ d ∷ e ∷ cs) =
      let coded = extracted_before (extract d e) (url_decode cs) in
      let plain = char_before (if c == b'+' then b' ' else c) (url_decode (d ∷ e ∷ cs)) in
      if c == b'%' then coded else plain

  -- Each character as `%` and its two hexadecimal digits.
  abbrev pub url_encode : List ℕ → List ℕ
  url_encode [] = []
  url_encode (c ∷ cs) = b'%' ∷ hex_char (c / 16) ∷ hex_char (c % 16) ∷ url_encode cs

  -- Text that is written as `%` and two digits for each of its characters is decoded to itself,
  -- where a stream extracts of two such digits the number that they stand for.
  pub url_decode-url_encode :
      (cs : List ℕ)
      → ((c : ℕ) → c < 256 → extract (hex_char (c / 16)) (hex_char (c % 16)) ≡ some c)
      → All (λ c. c < 256) cs
      → url_decode (url_encode cs) ≡ some cs
  unfolding url_decode
  url_decode-url_encode [] digits small = refl
  url_decode-url_encode (c ∷ cs) digits (low, small) =
      let byte : c % 256 ≡ c = omega (arith, low) in
      rw (digits c low, url_decode-url_encode cs digits small, byte) refl
