-- ===== src/Api/Authorize/Compare.antt =====
-- libapicore/ApiServer.cpp: when the comparison of passwords succeeds.
use Prim.Native.Nat.{digits, differ, bit_or-bitwise, bit_xor-bitwise}
use firominer.Base.{
  ℕ, zero, suc, ◌/◌, ◌%◌, ◌≤◌, ◌≡◌, ◌↔◌, refl, ap, ◌∙◌, sym, max, arith, List, [], ◌∷◌,
}
use firominer.Base.{length, All, ◌<◌, bit_or, bit_xor, String, true, ==_iff}
use firominer.Api.{Library}
use firominer.Api.Authorize.{copy_of, promote, differences, passwords_match, max_length}

differ-zero : (x y : ℕ) → differ x y ≡ 0 → x ≡ y
differ-zero zero y e = sym e
differ-zero (suc x) zero e = absurd (omega arith)
differ-zero (suc x) (suc y) e = ap suc (differ-zero x y e)

differ_self : (x : ℕ) → differ x x ≡ 0
differ_self zero = refl
differ_self (suc x) = differ_self x

digits_or-zero : (n a b : ℕ) → a ≤ n → digits (λ b. b) max n a b ≡ 0 → (a ≡ 0) × (b ≡ 0)
digits_or-zero zero zero b h e = (refl, e)
digits_or-zero zero (suc a) b h e = absurd (omega arith)
digits_or-zero (suc n) zero b h e = (refl, e)
digits_or-zero (suc n) (suc a) b h e = absurd (
    let ih = digits_or-zero n (suc a / 2) (b / 2) (omega arith) (omega arith) in
    omega (arith, ih.0))

digits_xor-zero : (n a b : ℕ) → a ≤ n → digits (λ b. b) differ n a b ≡ 0 → a ≡ b
digits_xor-zero zero zero b h e = sym e
digits_xor-zero zero (suc a) b h e = absurd (omega arith)
digits_xor-zero (suc n) zero b h e = sym e
digits_xor-zero (suc n) (suc a) b h e =
    let low = differ-zero (suc a % 2) (b % 2) (omega arith) in
    let high = digits_xor-zero n (suc a / 2) (b / 2) (omega arith) (omega arith) in omega arith

digits_xor_self : (n a : ℕ) → a ≤ n → digits (λ b. b) differ n a a ≡ 0
digits_xor_self zero zero h = refl
digits_xor_self zero (suc a) h = absurd (omega arith)
digits_xor_self (suc n) zero h = refl
digits_xor_self (suc n) (suc a) h =
    omega (arith, digits_xor_self n (suc a / 2) (omega arith), differ_self (suc a % 2))

bit_or-zero : (a b : ℕ) → bit_or a b ≡ 0 → (a ≡ 0) × (b ≡ 0)
bit_or-zero a b e = digits_or-zero a a b (omega arith) (sym (bit_or-bitwise a b) ∙ e)

bit_xor-zero : (a b : ℕ) → bit_xor a b ≡ 0 → a ≡ b
bit_xor-zero a b e = digits_xor-zero a a b (omega arith) (sym (bit_xor-bitwise a b) ∙ e)

bit_xor_self : (a : ℕ) → bit_xor a a ≡ 0
bit_xor_self a = bit_xor-bitwise a a ∙ digits_xor_self a a (omega arith)

promote-injective : (a b : ℕ) → promote a ≡ promote b → a ≡ b
promote-injective a b e = ground arith

-- The loop leaves 0 exactly if it starts with 0, and meets the same characters.
differences-zero :
    (result : ℕ) (as' bs : List ℕ)
    → length as' ≡ length bs
    → differences result as' bs ≡ 0
    → (result ≡ 0) × (as' ≡ bs)
unfolding differences
differences-zero result [] [] l e = (e, refl)
differences-zero result [] (b ∷ bs) l e = absurd (omega arith)
differences-zero result (a ∷ as') [] l e = absurd (omega arith)
differences-zero result (a ∷ as') (b ∷ bs) l e =
    let (now, rest) =
      differences-zero (bit_or result (bit_xor (promote a) (promote b))) as' bs (omega arith) e in
    let (before, same) = bit_or-zero result (bit_xor (promote a) (promote b)) now in
    let head = promote-injective a b (bit_xor-zero _ _ same) in (before, ground (arith, head, rest))

differences_self : (as' : List ℕ) → differences 0 as' as' ≡ 0
unfolding differences
differences_self [] = refl
differences_self (a ∷ as') = rw (bit_xor_self (promote a)) (differences_self as')

length-copy_of : (n : ℕ) (cs : List ℕ) → length (copy_of n cs) ≡ n
unfolding copy_of
length-copy_of zero cs = refl
length-copy_of (suc n) [] = ap suc (length-copy_of n [])
length-copy_of (suc n) (c ∷ cs) = ap suc (length-copy_of n cs)

pub passwords_match_iff :
    (lib : Library) (psw password : String)
    → (passwords_match lib psw password ≡ true)
      ↔ (copy_of max_length (lib.bytes psw) ≡ copy_of max_length (lib.bytes password))
unfolding passwords_match
passwords_match_iff lib psw password = (
  λ h.
      (differences-zero 0 (copy_of max_length (lib.bytes psw))
        (copy_of max_length (lib.bytes password))
        (length-copy_of max_length (lib.bytes psw)
          ∙ sym (length-copy_of max_length (lib.bytes password)))
        ((==_iff _ 0).0 h)).1,
  λ e. (==_iff _ 0).1 (rw e (differences_self (copy_of max_length (lib.bytes password)))),
)

copy_of-zeros :
    (n : ℕ) (cs : List ℕ)
    → All (λ c. 0 < c) cs
    → length cs ≤ n
    → copy_of n cs ≡ copy_of n []
    → cs ≡ []
unfolding copy_of
copy_of-zeros n [] z l e = refl
copy_of-zeros zero (c ∷ cs) z l e = absurd (omega arith)
copy_of-zeros (suc n) (c ∷ cs) z l e = absurd (ground (arith, z.0))

copy_of-injective :
    (n : ℕ) (cs ds : List ℕ)
    → All (λ c. 0 < c) cs
    → All (λ c. 0 < c) ds
    → length cs ≤ n
    → length ds ≤ n
    → copy_of n cs ≡ copy_of n ds
    → cs ≡ ds
unfolding copy_of
copy_of-injective n cs [] z z' l l' e = copy_of-zeros n cs z l e
copy_of-injective n [] (d ∷ ds) z z' l l' e = sym (copy_of-zeros n (d ∷ ds) z' l' (sym e))
copy_of-injective zero (c ∷ cs) (d ∷ ds) z z' l l' e = absurd (omega arith)
copy_of-injective (suc n) (c ∷ cs) (d ∷ ds) z z' l l' e =
    ground (arith, copy_of-injective n cs ds z.1 z'.1 (omega arith) (omega arith))

-- Of passwords with no zero byte and at most 500 bytes, exactly the configured one matches.
pub passwords_match-same :
    (lib : Library) (psw password : String)
    → All (λ c. 0 < c) (lib.bytes psw)
    → All (λ c. 0 < c) (lib.bytes password)
    → length (lib.bytes psw) ≤ max_length
    → length (lib.bytes password) ≤ max_length
    → (passwords_match lib psw password ≡ true) ↔ (lib.bytes psw ≡ lib.bytes password)
passwords_match-same lib psw password z z' l l' = (
  λ h. copy_of-injective max_length _ _ z z' l l' ((passwords_match_iff lib psw password).0 h),
  λ e. (passwords_match_iff lib psw password).1 (ap (copy_of max_length) e),
)
