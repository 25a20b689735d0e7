-- ===== src/Stratum/Detection.antt =====
-- libpoolprotocols/stratum/EthStratumClient.cpp: the attempts of an autodetection.
use firominer.Base.{ℕ, zero, suc, ◌+◌, ◌<◌, ◌≡◌, ap, ◌∙◌, true, false, List, [], ◌∷◌, length, arith}
use firominer.Base.{Option, none, some}
use firominer.Stratum.{Stratum}
use firominer.Stratum.Disconnect.{disconnect_finalize, release_connection}
use firominer.Stratum.Autodetect.{Detecting, finalize-suc, finalize-zero}
use firominer.Stratum.Established.{attempt, attempt_lem, attempt_kept}

-- A client that is ready to try a pool with a mode, by a scheme that leaves the mode open.
pub record Ready (mode : ℕ) (s : Stratum) : Type 0 where
  pub idle : s.connecting ≡ false
  pub still : s.disconnecting ≡ false
  pub first : ℕ
  pub others : List ℕ
  pub has_endpoint : s.endpoints ≡ first ∷ others
  pub open_mode : s.conn.version ≡ 999
  pub at_mode : s.conn.stratum_mode ≡ mode
  pub unconfirmed : s.conn.stratum_mode_confirmed ≡ false
  pub recoverable : s.conn.unrecoverable ≡ false

-- An attempt whose connection is established and then ends.
abbrev pub ended : ℕ → ℕ → Option Stratum → Option Stratum
ended minute now none = none
ended minute now (some s) = some (disconnect_finalize minute now s)

-- Such attempts, one after another, with the times of each.
unfoldable pub attempts_end : List (ℕ × ℕ) → Stratum → Option Stratum
unfolding attempt disconnect_finalize
attempts_end [] s = some s
attempts_end ((minute, now) ∷ ts) s = elim (ended minute now (attempt minute now s)) [
  | none ↦ none
  | some s' ↦ attempts_end ts s'
]

-- The established connection of an attempt.
record Established (mode minute now : ℕ) (s : Stratum) : Type 0 where
  client : Stratum
  tried : attempt minute now s ≡ some client
  detecting : Detecting mode client
  idle : client.connecting ≡ false
  first : ℕ
  others : List ℕ
  has_endpoint : client.endpoints ≡ first ∷ others
  open_mode : client.conn.version ≡ 999
  unreported : client.disconnections ≡ s.disconnections

Ready-Established :
    (mode minute now : ℕ) (s : Stratum) → mode < 999 → Ready mode s → Established mode minute now s
Ready-Established mode minute now s small r =
    let (s', e, _, kept, _, _, answers, confirmed, at) =
      attempt_lem minute now r.first r.others s r.idle r.still r.has_endpoint r.unconfirmed in
    let (idle, same_fate, same_version, same_count) =
      attempt_kept minute now r.first r.others s s' r.idle r.has_endpoint e in
    record {
      client = s';
      tried = e;
      detecting = record {
        at_mode = at ∙ ground (arith, r.open_mode, r.at_mode);
        unconfirmed = confirmed ∙ ground (arith, r.open_mode);
        recoverable = same_fate ∙ r.recoverable;
        answers = answers;
      };
      idle = idle;
      first = r.first;
      others = r.others;
      has_endpoint = kept;
      open_mode = same_version ∙ r.open_mode;
      unreported = same_count;
    }

finalize_kept :
    (minute now mode : ℕ) (s : Stratum)
    → Detecting (suc mode) s
    → let s' = disconnect_finalize minute now s in
      (s'.connecting ≡ s.connecting)
      × (s'.disconnecting ≡ false)
      × (s'.endpoints ≡ s.endpoints)
      × (s'.conn.version ≡ s.conn.version)
unfolding disconnect_finalize release_connection
finalize_kept minute now mode s d =
    ground (arith, d.at_mode, d.unconfirmed, d.recoverable, d.answers)

attempts_end-tried :
    (minute now : ℕ) (ts : List (ℕ × ℕ)) (s client : Stratum)
    → attempt minute now s ≡ some client
    → attempts_end ((minute, now) ∷ ts) s ≡ attempts_end ts (disconnect_finalize minute now client)
unfolding attempts_end
attempts_end-tried minute now ts s client e = ap (λ o. rest (ended minute now o)) e
  where
    rest : Option Stratum → Option Stratum
    rest none = none
    rest (some s') = attempts_end ts s'

-- Autodetection comes to an end: on a pool that takes every connection and never confirms a mode,
-- attempts from mode `mode` on, one for each mode down to 0, leave the connection unrecoverable,
-- and `m_onDisconnected` has been called once in all of them.
pub attempts_end_lem :
    (mode : ℕ) (ts : List (ℕ × ℕ)) (s : Stratum)
    → mode < 999
    → Ready mode s
    → length ts ≡ suc mode
    → (s' : Stratum) × (attempts_end ts s ≡ some s')
      × (s'.conn.unrecoverable ≡ true)
      × (s'.disconnections ≡ s.disconnections + 1)
unfolding attempts_end
attempts_end_lem mode [] s small r n = absurd (omega arith)
attempts_end_lem zero ((minute, now) ∷ []) s small r n =
    let est = Ready-Established 0 minute now s small r in
    let z = finalize-zero minute now est.client est.detecting in
    (
      disconnect_finalize minute now est.client,
      attempts_end-tried minute now [] s est.client est.tried,
      z.0,
      z.1 ∙ ap (λ k. k + 1) est.unreported,
    )
attempts_end_lem zero (t ∷ t' ∷ ts) s small r n = absurd (omega arith)
attempts_end_lem (suc mode) ((minute, now) ∷ ts) s small r n =
    let est = Ready-Established (suc mode) minute now s small r in
    let (d, same_count, _) = finalize-suc minute now mode est.client est.detecting in
    let (same_idle, still, same_endpoints, same_version) =
      finalize_kept minute now mode est.client est.detecting in
    let (s', e, over, count) =
      attempts_end_lem mode ts (disconnect_finalize minute now est.client) (omega arith)
        (record {
          idle = same_idle ∙ est.idle;
          still = still;
          first = est.first;
          others = est.others;
          has_endpoint = same_endpoints ∙ est.has_endpoint;
          open_mode = same_version ∙ est.open_mode;
          at_mode = d.at_mode;
          unconfirmed = d.unconfirmed;
          recoverable = d.recoverable;
        })
        (omega (arith, n)) in
    (
      s',
      attempts_end-tried minute now ts s est.client est.tried ∙ e,
      over,
      count ∙ ap (λ k. k + 1) (same_count ∙ est.unreported),
    )
