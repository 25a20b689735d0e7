-- ===== src/Uri/Modes.antt =====
-- libpoolprotocols/PoolURI.cpp and stratum/EthStratumClient.cpp: the versions of the schemes are
-- modes of stratum, or autodetection.
use firominer.Base.{
  ℕ, ◌<◌, Bool, true, false, List, [], ◌∷◌, some, String, str_eq, if◌then◌else◌, ◌≡◌,
}
use firominer.Base.{arith, ◌⊎◌, All, subst}
use mathlib.Core.Option.{some-injective}
use firominer.Uri.{SchemeAttributes, schemes, find_scheme}
use firominer.Stratum.{StratumUri}
use firominer.Stratum.Connect.{choose_mode}
use firominer.Stratum.Response.{protocol, is_some}

find_scheme-All :
    (P : SchemeAttributes → Type 0) (table : List (String × SchemeAttributes)) (scheme : String)
    (a : SchemeAttributes)
    → All (λ entry. P entry.1) table
    → find_scheme table scheme ≡ some a
    → P a
unfolding find_scheme
find_scheme-All P [] scheme a h e = absurd (ground (arith, e))
find_scheme-All P ((name, b) ∷ rest) scheme a (p, ps) e =
    by_name (str_eq name scheme) e (find_scheme-All P rest scheme a ps)
  where
    by_name :
        (same : Bool)
        → (if same then some b else find_scheme rest scheme) ≡ some a
        → (find_scheme rest scheme ≡ some a → P a)
        → P a
    by_name true e later = subst P (some-injective b a e) p
    by_name false e later = later e

-- A version is a mode of stratum, or stands for autodetection.
abbrev IsVersion : ℕ → Type 0
IsVersion version = (version < 4) ⊎ (version ≡ 999)

schemes-IsVersion : All (λ entry. IsVersion entry.1.version) schemes
schemes-IsVersion = ground arith

mode-protocol : (mode : ℕ) → mode < 4 → is_some (protocol mode) ≡ true
mode-protocol mode h = ground (arith, h)

-- On a connection with a scheme that is known, whose mode is a stratum mode or has not been tested
-- yet, the mode of the first request is one of the four protocols.
pub choose_mode-protocol :
    (scheme : String) (a : SchemeAttributes) (c : StratumUri)
    → find_scheme schemes scheme ≡ some a
    → c.version ≡ a.version
    → (c.stratum_mode < 4) ⊎ ((c.stratum_mode ≡ 999) × (c.stratum_mode_confirmed ≡ false))
    → is_some (protocol (choose_mode c).stratum_mode) ≡ true
unfolding choose_mode
choose_mode-protocol scheme a c found version tested =
    mode-protocol (choose_mode c).stratum_mode
      (chosen (find_scheme-All (λ a. IsVersion a.version) schemes scheme a schemes-IsVersion found))
  where
    chosen : IsVersion a.version → (choose_mode c).stratum_mode < 4
    chosen known = ground (arith, known, version, tested)
