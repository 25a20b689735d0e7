-- ===== src/Getwork/Attempts.antt =====
-- libpoolprotocols/getwork/EthGetworkClient.cpp: a node that cannot be reached.
use firominer.Base.{ℕ, List, [], ◌∷◌, none, ◌≡◌, refl, arith, length}
use firominer.Getwork.{Getwork, Continuation, goes_on, ends_process}
use firominer.Getwork.Connect.{handle_connect, failed, begin_connect, disconnect_node}

-- Connections that fail, one after another, each at a minute.
abbrev pub then_fail : Continuation → (Getwork → Continuation) → Continuation
then_fail ends_process k = ends_process
then_fail (goes_on g) k = k g

unfoldable pub fail_connects : List ℕ → Getwork → Continuation
unfolding handle_connect
fail_connects [] g = goes_on g
fail_connects (minute ∷ ms) g = then_fail (handle_connect failed minute 0 g) (fail_connects ms)

-- A node that no endpoint reaches before the first session: with the failure of the last connection
-- the process ends, since the client reads the duration of a session that there is not.
pub fail_connects-ends_process :
    (ms : List ℕ) (e : ℕ) (es : List ℕ) (g : Getwork)
    → g.session ≡ none
    → g.endpoints ≡ e ∷ es
    → length ms ≡ length (e ∷ es)
    → fail_connects ms g ≡ ends_process
unfolding fail_connects handle_connect begin_connect disconnect_node
fail_connects-ends_process [] e es g no_session some_left n = absurd (omega arith)
fail_connects-ends_process (minute ∷ []) e [] g no_session some_left n =
    rw (some_left, no_session) refl
fail_connects-ends_process (minute ∷ m ∷ ms) e [] g no_session some_left n = absurd (omega arith)
fail_connects-ends_process (minute ∷ ms) e (e' ∷ es) g no_session some_left n =
    rw some_left (fail_connects-ends_process ms e' es _ no_session refl (omega (arith, n)))
