-- ===== src/Stratum/Response/Process.antt =====
-- libpoolprotocols/stratum/EthStratumClient.cpp: `processResponse`.
use firominer.Stratum.Response.Settings.{on_set_difficulty, on_set_extranonce, on_mining_set}
use firominer.Stratum.Response.Settings.{on_set_target}
use firominer.Stratum.Response.{Method, Message, Client, Outcome, send, post_disconnect, mode_of}
use firominer.Stratum.Response.{is_confirmed, no_method, mining_notify, mining_set_difficulty}
use firominer.Stratum.Response.{mining_set_extranonce, mining_set, mining_set_target, mining_bye}
use firominer.Stratum.Response.{client_get_version, other_method, version_reply, returns}
use firominer.Stratum.Response.Login.{on_login_response}
use firominer.Stratum.Response.Replies.{on_session_id, on_authorized, on_worker_id, on_submitted}
use firominer.Stratum.Response.Replies.{on_submitted2, on_999}
use firominer.Stratum.Response.Notices.{on_mining_notify, on_mining_notify2}
use firominer.Base.{ℕ, Bool, true, false, ◌&&◌, ◌||◌, not, leb, ◌==◌, if◌then◌else◌}

-- The notifications, by method and mode; a method that is not known in the mode is discarded.
unfoldable pub notice : Method → Message → Client → Outcome
unfolding on_mining_notify on_mining_notify2 on_set_difficulty on_set_extranonce on_mining_set
    on_set_target
notice mining_notify m c = if mode_of c == 3 then on_mining_notify2 m c else on_mining_notify m c
notice mining_set_difficulty m c = if mode_of c == 2 then on_set_difficulty m c else returns c
notice mining_set_extranonce m c = if mode_of c == 2 then on_set_extranonce m c else returns c
notice mining_set m c = if mode_of c == 3 then on_mining_set m c else returns c
notice mining_set_target m c = on_set_target m c
notice mining_bye m c = returns (if mode_of c == 3 then post_disconnect c else c)
notice client_get_version m c = returns (send (version_reply m.id m.has_jsonrpc) c)
notice no_method m c = returns c
notice other_method m c = returns c

-- Notifications wait for a mode that is confirmed.
unfoldable pub on_notification : Method → Message → Client → Outcome
unfolding notice
on_notification method m c = if is_confirmed c then notice method m c else returns c

-- What the id of a response stands for.
pub data ReplyKind : Type 0 where
  to_login to_second to_third to_solution to_get_work to_hashrate to_nothing unknown_id : ReplyKind

unfoldable pub reply_kind : ℕ → ℕ → ReplyKind
reply_kind max_id id =
    if id == 1
    then to_login
    else if id == 2
    then to_second
    else if id == 3
    then to_third
    else if leb 40 id && leb id max_id
    then to_solution
    else if id == 5
    then to_get_work
    else if id == 9
    then to_hashrate
    else if id == 999
    then to_nothing
    else unknown_id

-- The response to a request, by what its id stands for.
unfoldable pub on_reply : ReplyKind → Message → ℕ → ℕ → Client → Outcome
unfolding on_login_response on_session_id on_authorized on_worker_id on_submitted on_submitted2
    on_999 on_notification
on_reply to_login m minute now c = returns (on_login_response m minute now c)
on_reply to_second m minute now c = if mode_of c == 3 then on_session_id m now c else returns c
on_reply to_third m minute now c =
    if mode_of c == 3 then on_worker_id m now c else on_authorized m now c
on_reply to_solution m minute now c =
    returns (if mode_of c == 3 then on_submitted2 m now c else on_submitted m now c)
on_reply to_get_work m minute now c =
    if mode_of c == 1 && m.result.is_array then on_notification mining_notify m c else returns c
on_reply to_hashrate m minute now c = returns c
on_reply to_nothing m minute now c = returns (on_999 m c)
on_reply unknown_id m minute now c = returns c

abbrev pub has_method : Method → Bool
has_method no_method = false
has_method other = true

abbrev pub is_notification : Message → Bool
is_notification m = has_method m.method || m.id == 0

-- Eth-proxy pools send jobs as results without a method.
abbrev pub method_or_notify : Method → Message → Client → Method
method_or_notify no_method m c =
    if mode_of c == 1 && m.result.is_array then mining_notify else no_method
method_or_notify method m c = method

abbrev pub is_invalid : Message → Bool
is_invalid m =
    (m.has_jsonrpc && not m.is_version_2_0)
    || (is_notification m && (m.params.is_empty && m.result.is_empty))

-- `processResponse`, at a minute and a time.
unfoldable pub process_response : Message → ℕ → ℕ → Client → Outcome
unfolding on_reply on_notification reply_kind
process_response m minute now c =
    if is_invalid m
    then returns (post_disconnect c)
    else if is_notification m
    then on_notification (method_or_notify m.method m c) m c
    else on_reply (reply_kind c.stratum.solution_submitted_max_id m.id) m minute now c
