-- ===== src/Hex/BadText.antt =====
-- libdevcore/CommonData.h and CommonData.cpp: text that is not hexadecimal.
use firominer.Base.{
  ℕ, ◌%◌, ◌≡◌, refl, ap, ◌∙◌, List, [], ◌∷◌, ◌++◌, length, drop, Bool, Option, none,
}
use firominer.Base.{some, ◌==◌, Option-cases, Bool-cases, inl, inr}
use firominer.Hex.RoundTrip.{from_hex_pairs-push}
use firominer.Hex.{
  from_hex_char, from_hex_pairs, from_hex, from_hex_odd, push_pair, bad_hex, hex_prefix,
}

push_pair-bad_high : (o : Option ℕ) (ret : List ℕ) → push_pair none o ret ≡ none
push_pair-bad_high none ret = refl
push_pair-bad_high (some d) ret = refl

push_pair-bad_low : (o : Option ℕ) (ret : List ℕ) → push_pair o none ret ≡ none
push_pair-bad_low none ret = refl
push_pair-bad_low (some d) ret = refl

from_hex_pairs-stop :
    (h l : ℕ) (rest ret : List ℕ)
    → push_pair (from_hex_char h) (from_hex_char l) ret ≡ none
    → from_hex_pairs (h ∷ l ∷ rest) ret ≡ none
unfolding from_hex_pairs
from_hex_pairs-stop h l rest ret e = rw (from_hex_pairs, e) refl

from_hex_pairs-bad :
    (before after : List ℕ) (c : ℕ) (ret : List ℕ)
    → from_hex_char c ≡ none
    → from_hex_pairs (before ++ c ∷ after) ret ≡ none
from_hex_pairs-bad [] [] c ret bad = unfold from_hex_pairs in refl
from_hex_pairs-bad [] (l ∷ after) c ret bad =
    from_hex_pairs-stop c l after ret
      (ap (λ o. push_pair o (from_hex_char l) ret) bad ∙ push_pair-bad_high (from_hex_char l) ret)
from_hex_pairs-bad (h ∷ []) after c ret bad =
    from_hex_pairs-stop h c after ret
      (ap (λ o. push_pair (from_hex_char h) o ret) bad ∙ push_pair-bad_low (from_hex_char h) ret)
from_hex_pairs-bad (h ∷ l ∷ before) after c ret bad =
    elim (Option-cases (push_pair (from_hex_char h) (from_hex_char l) ret)) [
      | inl e ↦ from_hex_pairs-stop h l (before ++ c ∷ after) ret e
      | inr (ret', e) ↦
          from_hex_pairs-push h l (before ++ c ∷ after) ret ret' e
          ∙ from_hex_pairs-bad before after c ret' bad
    ]

from_hex_odd-bad :
    (before after : List ℕ) (c : ℕ)
    → from_hex_char c ≡ none
    → from_hex_odd (before ++ c ∷ after) ≡ none
from_hex_odd-bad [] after c bad = rw (from_hex_odd, bad) refl
from_hex_odd-bad (h ∷ before) after c bad = elim (Option-cases (from_hex_char h)) [
  | inl e ↦ rw (from_hex_odd, e) refl
  | inr (d, e) ↦ rw (from_hex_odd, e) (from_hex_pairs-bad before after c (d ∷ []) bad)
]

-- Text with a character that is not a hexadecimal digit, anywhere after the prefix, gives no bytes
-- at all: the function throws, or returns the empty vector.
from_hex_bad :
    (s before after : List ℕ) (c : ℕ) (throw : Bool)
    → drop (hex_prefix s) s ≡ before ++ c ∷ after
    → from_hex_char c ≡ none
    → from_hex s throw ≡ bad_hex throw
unfolding from_hex
from_hex_bad s before after c throw split bad = elim (Bool-cases (length s % 2 == 1)) [
  | inl e ↦ rw (split, e, from_hex_odd-bad before after c bad) refl
  | inr e ↦ rw (split, e, from_hex_pairs-bad before after c [] bad) refl
]
