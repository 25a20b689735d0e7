-- ===== src/Api/Authorize.antt =====
-- libapicore/ApiServer.cpp: the comparison of passwords in `processRequest`, over copies of a fixed
-- length. A `char` is signed, and is promoted to an `int` of 32 bits.
pub mod Compare
use firominer.Base.{
  ℕ, zero, suc, ◌+◌, ◌<◌, ◌≡◌, ◌↔◌, refl, ap, Bool, true, false, List, [], ◌∷◌, arith,
}
use firominer.Base.{length, All, bit_or, bit_xor, ltb, ◌==◌, ==_iff, if◌then◌else◌, String}
use firominer.Api.{Library}

abbrev pub max_length : ℕ
max_length = 500

-- `copy` into an array of zeros.
unfoldable pub copy_of : ℕ → List ℕ → List ℕ
copy_of zero cs = []
copy_of (suc n) [] = 0 ∷ copy_of n []
copy_of (suc n) (c ∷ cs) = c ∷ copy_of n cs

abbrev pub promote : ℕ → ℕ
promote c = if ltb c 128 then c else c + 4294967040

-- `result |= input_copy[i] ^ password_copy[i]`.
unfoldable pub differences : ℕ → List ℕ → List ℕ → ℕ
differences result [] bs = result
differences result (a ∷ as') [] = result
differences result (a ∷ as') (b ∷ bs) =
    differences (bit_or result (bit_xor (promote a) (promote b))) as' bs

unfoldable pub passwords_match : Library → String → String → Bool
unfolding copy_of differences
passwords_match lib psw password =
    differences 0 (copy_of max_length (lib.bytes psw)) (copy_of max_length (lib.bytes password))
    == 0
