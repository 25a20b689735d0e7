-- ===== src/Api/Effects/Scrambler.antt =====
-- libapicore/ApiServer.cpp: the scrambler and the width of a segment that `miner_setscramblerinfo`
-- sets.
use firominer.Base.{ℕ, ◌≤◌, ◌≡◌, ◌⊎◌, inl, inr, refl, arith, Bool, true, false, Option, none, some}
use firominer.Base.{String, [], ◌∷◌, if◌then◌else◌, ◌==◌}
use firominer.Getwork.Read.{starts_with}
use firominer.Farm.{Farm}
use firominer.Farm.Scrambler.{set_nonce_scrambler, set_nonce_segment_width}
use firominer.Api.{JsonCpp, Library, Api, Response}
use firominer.Api.Methods.{clamp_width, with_farm, with_width, parsed_nonce, given_nonce}
use firominer.Api.Methods.{miner_setscramblerinfo}
use firominer.Api.Kept.{Kept, with_fetched-Kept, on_member-Kept, with_access-Kept, if-Kept}

-- The farm that a call leaves: its width is as before, or from 10 to 50; while the pool assigns a
-- part of the nonce space, it is as before; and apart from the width and the scrambler the farm is
-- the same.
pub record Rescrambled (f f' : Farm) : Type 0 where
  pub width :
      (f'.nonce_segment_width ≡ f.nonce_segment_width)
      ⊎ ((10 ≤ f'.nonce_segment_width)
          × (f'.nonce_segment_width ≤ 50)
          × (f.current_wp.ex_size_bytes ≡ 0))
  pub others : f' ≡ record f {
    nonce_scrambler = f'.nonce_scrambler;
    nonce_segment_width = f'.nonce_segment_width;
  }

set_scrambler-Rescrambled :
    (f : Farm) (nonce exp : ℕ)
    → Rescrambled f (set_nonce_segment_width (set_nonce_scrambler f nonce) (clamp_width exp))
unfolding set_nonce_segment_width set_nonce_scrambler
set_scrambler-Rescrambled f nonce exp = by_part (f.current_wp.ex_size_bytes == 0) refl
  where
    f1 : Farm
    f1 = record f { nonce_scrambler = nonce }

    by_part :
        (b : Bool)
        → (f.current_wp.ex_size_bytes == 0) ≡ b
        → Rescrambled f (if b then record f1 { nonce_segment_width = clamp_width exp } else f1)
    by_part true e = record {
      width = inr (
        unfold clamp_width in ground arith,
        unfold clamp_width in ground arith,
        ground (arith, e),
      );
      others = refl;
    }
    by_part false e = record { width = inl refl; others = refl }

module _ (j : JsonCpp) (lib : Library) (s : Api) where
  open j use {Value}

  -- The state is the same apart from the farm, which is rescrambled.
  abbrev pub Scrambles : Api → Type 0
  Scrambles s' = (s' ≡ with_farm s s'.manager.farm) × Rescrambled s.manager.farm s'.manager.farm

  same-Scrambles : Scrambles s
  same-Scrambles = (refl, record { width = inl refl; others = refl })

  with_width-Scrambles :
      (params : Value) (b : Bool) (nonce : ℕ) (r : Response)
      → Kept Scrambles (with_width j lib params s b nonce r)
  with_width-Scrambles params b nonce r =
      on_member-Kept Scrambles s same-Scrambles (j.is_member params "segmentwidth") _ _
        (with_fetched-Kept Scrambles s same-Scrambles _ _
          λ exp r1. (refl, set_scrambler-Rescrambled s.manager.farm nonce exp))
        (if-Kept Scrambles s same-Scrambles b _ _
          (refl, set_scrambler-Rescrambled s.manager.farm nonce s.manager.farm.nonce_segment_width)
          same-Scrambles)

  parsed_nonce-Scrambles :
      (o : Option ℕ) (params : Value) (r : Response)
      → Kept Scrambles (parsed_nonce j lib o r s (with_width j lib params s))
  parsed_nonce-Scrambles none params r = same-Scrambles
  parsed_nonce-Scrambles (some n) params r = with_width-Scrambles params true n r

  given_nonce-Scrambles :
      (o : Option String) (old : ℕ) (params : Value) (r : Response)
      → Kept Scrambles (given_nonce j lib o old params r s (with_width j lib params s))
  given_nonce-Scrambles none old params r = same-Scrambles
  given_nonce-Scrambles (some text) old params r =
      if-Kept Scrambles s same-Scrambles (starts_with (b'0' ∷ b'x' ∷ []) (lib.bytes text)) _ _
        (parsed_nonce-Scrambles (lib.stoul text) params r)
        (with_fetched-Kept Scrambles s same-Scrambles _ _
          λ n r1. with_width-Scrambles params true n r1)

  -- Whatever its parameters, a call of `miner_setscramblerinfo` that returns or throws leaves the
  -- width of a segment as it was or sets it to a value from 10 to 50, and leaves it while the pool
  -- assigns a part of the nonce space; it changes nothing else but the farm's scrambler.
  pub miner_setscramblerinfo-Scrambles :
      (request : Value) (r : Response) → Kept Scrambles (miner_setscramblerinfo j lib request r s)
  unfolding miner_setscramblerinfo
  miner_setscramblerinfo-Scrambles request r = with_access-Kept Scrambles s same-Scrambles r _ λ w.
      with_fetched-Kept Scrambles s same-Scrambles _ _ λ params r2.
        on_member-Kept Scrambles s same-Scrambles (j.is_member params "noncescrambler") _ _
          (given_nonce-Scrambles (j.as_string (j.member params "noncescrambler")) _ params r2)
          (with_width-Scrambles params false _ r2)
