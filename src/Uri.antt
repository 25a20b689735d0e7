-- ===== src/Uri.antt =====
-- libpoolprotocols/PoolURI.h and PoolURI.cpp: the schemes of a connection and the decoding of its
-- parts. The regular expressions that split the text, and Boost's address parser, are not modelled.
-- Decoded text is the list of its character codes.
pub mod Decode
pub mod Modes
use firominer.Base.{
  ℕ, Bool, true, false, ◌&&◌, not, List, [], ◌∷◌, ◌++◌, Option, none, some, String,
}
use firominer.Base.{str_eq, ◌==◌, if◌then◌else◌}

pub data SecureLevel : Type 0 where
  no_security tls12 tls : SecureLevel

pub data ProtocolFamily : Type 0 where
  getwork_family stratum_family simulation_family : ProtocolFamily

pub record SchemeAttributes : Type 0 where
  pub family : ProtocolFamily
  pub secure : SecureLevel
  pub version : ℕ

abbrev attributes : ProtocolFamily → SecureLevel → ℕ → SchemeAttributes
attributes family secure version = record { family = family; secure = secure; version = version }

-- `s_schemes`.
abbrev pub schemes : List (String × SchemeAttributes)
schemes =
    ("stratum+tcp", attributes stratum_family no_security 0)
    ∷ ("stratum1+tcp", attributes stratum_family no_security 1)
    ∷ ("stratum2+tcp", attributes stratum_family no_security 2)
    ∷ ("stratum3+tcp", attributes stratum_family no_security 3)
    ∷ ("stratum+tls", attributes stratum_family tls 0)
    ∷ ("stratum1+tls", attributes stratum_family tls 1)
    ∷ ("stratum2+tls", attributes stratum_family tls 2)
    ∷ ("stratum3+tls", attributes stratum_family tls 3)
    ∷ ("stratum+tls12", attributes stratum_family tls12 0)
    ∷ ("stratum1+tls12", attributes stratum_family tls12 1)
    ∷ ("stratum2+tls12", attributes stratum_family tls12 2)
    ∷ ("stratum3+tls12", attributes stratum_family tls12 3)
    ∷ ("stratum+ssl", attributes stratum_family tls12 0)
    ∷ ("stratum1+ssl", attributes stratum_family tls12 1)
    ∷ ("stratum2+ssl", attributes stratum_family tls12 2)
    ∷ ("stratum3+ssl", attributes stratum_family tls12 3)
    ∷ ("http", attributes getwork_family no_security 0)
    ∷ ("getwork", attributes getwork_family no_security 0)
    ∷ ("stratum", attributes stratum_family no_security 999)
    ∷ ("stratums", attributes stratum_family tls 999)
    ∷ ("stratumss", attributes stratum_family tls12 999)
    ∷ ("simulation", attributes simulation_family no_security 999)
    ∷ []

-- `s_schemes.find`.
unfoldable pub find_scheme : List (String × SchemeAttributes) → String → Option SchemeAttributes
find_scheme [] scheme = none
find_scheme ((name, a) ∷ rest) scheme =
    let later = find_scheme rest scheme in if str_eq name scheme then some a else later

-- The checks of the constructor on the scheme; `none` is that it throws.
unfoldable pub check_scheme : Bool → String → Option SchemeAttributes
unfolding find_scheme
check_scheme sim scheme =
    if not sim && str_eq scheme "simulation" then none else find_scheme schemes scheme

-- `UserDotWorker`.
unfoldable pub user_dot_worker : List ℕ → List ℕ → List ℕ
user_dot_worker user [] = user
user_dot_worker user (c ∷ worker) = user ++ b'.' ∷ c ∷ worker
