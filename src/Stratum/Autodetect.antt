-- ===== src/Stratum/Autodetect.antt =====
-- libpoolprotocols/stratum/EthStratumClient.cpp: the autodetection of the stratum mode.
use mathlib.Core.List.{append_assoc, append-nil}
use firominer.Stratum.Disconnect.{go_to_sleep, is_detecting, with_mode, mark_unrecoverable}
use firominer.Stratum.Disconnect.{disconnect_finalize, release_connection}
use firominer.Base.{ap, ◌∙◌, replicate, length, sym, ℕ, zero, suc, ◌+◌, ◌-◌, ◌≡◌, refl, true, false}
use firominer.Base.{List, [], ◌∷◌, ◌++◌, arith, ltb}
use firominer.Stratum.{Stratum, Task, start_connects, post}

-- Connections that end, one after another, with the times of each.
unfoldable pub connections_end : List (ℕ × ℕ) → Stratum → Stratum
unfolding disconnect_finalize
connections_end [] s = s
connections_end ((minute, now) ∷ ts) s = connections_end ts (disconnect_finalize minute now s)

-- A connection that responds and whose mode is still to be found, where `mode` is the next.
pub record Detecting (mode : ℕ) (s : Stratum) : Type 0 where
  pub at_mode : s.conn.stratum_mode ≡ mode
  pub unconfirmed : s.conn.stratum_mode_confirmed ≡ false
  pub recoverable : s.conn.unrecoverable ≡ false
  pub answers : s.conn.responds ≡ true

Detecting-is_detecting : (mode : ℕ) (s : Stratum) → Detecting mode s → is_detecting s.conn ≡ true
Detecting-is_detecting mode s d = rw (d.recoverable, d.unconfirmed, d.answers) refl

finalize_more :
    (minute now : ℕ) (s : Stratum)
    → is_detecting s.conn ≡ true
    → ltb 0 s.conn.stratum_mode ≡ true
    → let s1 = release_connection minute s in
      disconnect_finalize minute now s
      ≡ post start_connects (with_mode (s1.conn.stratum_mode - 1) s1)
unfolding disconnect_finalize release_connection
finalize_more minute now s e more = rw (e, more) refl

finalize_last :
    (minute now : ℕ) (s : Stratum)
    → is_detecting s.conn ≡ true
    → ltb 0 s.conn.stratum_mode ≡ false
    → disconnect_finalize minute now s
      ≡ go_to_sleep now (mark_unrecoverable (release_connection minute s))
unfolding disconnect_finalize release_connection
finalize_last minute now s e last = rw (e, last) refl

-- A mode that is not the last: the next one is tried, and no handler is called.
pub finalize-suc :
    (minute now mode : ℕ) (s : Stratum)
    → Detecting (suc mode) s
    → let s' = disconnect_finalize minute now s in
      Detecting mode s'
      × (s'.disconnections ≡ s.disconnections)
      × (s'.tasks ≡ s.tasks ++ start_connects ∷ [])
finalize-suc minute now mode s d =
    let more : ltb 0 s.conn.stratum_mode ≡ true = ground (arith, d.at_mode) in
    rw (finalize_more minute now s (Detecting-is_detecting (suc mode) s d) more) (
      unfold release_connection in
      (
        record {
          at_mode = omega (arith, d.at_mode);
          unconfirmed = d.unconfirmed;
          recoverable = d.recoverable;
          answers = d.answers;
        },
        refl,
        refl,
      ))

-- The last mode: the connection is given up, and the handler is called once.
pub finalize-zero :
    (minute now : ℕ) (s : Stratum)
    → Detecting 0 s
    → let s' = disconnect_finalize minute now s in
      (s'.conn.unrecoverable ≡ true)
      × (s'.disconnections ≡ s.disconnections + 1)
      × (s'.tasks ≡ s.tasks)
finalize-zero minute now s d =
    let last : ltb 0 s.conn.stratum_mode ≡ false = ground (arith, d.at_mode) in
    rw (finalize_last minute now s (Detecting-is_detecting 0 s d) last)
      (unfold release_connection go_to_sleep in (refl, refl, refl))

-- The posted connection attempts of `n` modes.
abbrev pub attempts : ℕ → List Task
attempts n = replicate n start_connects

-- Autodetection ends: where a connection responds and its mode stays unconfirmed, from mode `mode`
-- on, the first `mode` ends of a connection each post one new attempt and call no handler; the
-- next end marks the connection unrecoverable, posts no attempt, and calls `m_onDisconnected`, once
-- in all.
connections_end_lem :
    (mode : ℕ) (ts : List (ℕ × ℕ)) (minute now : ℕ) (s : Stratum)
    → Detecting mode s
    → length ts ≡ mode
    → let tried = connections_end ts s in
      let s' = disconnect_finalize minute now tried in
      (tried.disconnections ≡ s.disconnections)
      × (tried.conn.unrecoverable ≡ false)
      × (tried.tasks ≡ s.tasks ++ attempts mode)
      × (s'.disconnections ≡ s.disconnections + 1)
      × (s'.conn.unrecoverable ≡ true)
      × (s'.tasks ≡ s.tasks ++ attempts mode)
unfolding connections_end
connections_end_lem zero [] minute now s d n =
    let z = finalize-zero minute now s d in
    (refl, d.recoverable, sym (append-nil _), z.1, z.0, z.2 ∙ sym (append-nil _))
connections_end_lem zero (t ∷ ts) minute now s d n = absurd (omega arith)
connections_end_lem (suc mode) [] minute now s d n = absurd (omega arith)
connections_end_lem (suc mode) ((m, t) ∷ ts) minute now s d n =
    let r = finalize-suc m t mode s d in
    let q =
      connections_end_lem mode ts minute now (disconnect_finalize m t s) r.0 (omega (arith, n)) in
    let grown : (disconnect_finalize m t s).tasks ++ attempts mode
        ≡ s.tasks ++ attempts (suc mode) =
      ap (λ l. l ++ attempts mode) r.2
      ∙ append_assoc s.tasks (start_connects ∷ []) (attempts mode) in
    (q.0 ∙ r.1, q.1, q.2 ∙ grown, q.3 ∙ ap (λ k. k + 1) r.1, q.4, q.5 ∙ grown)
