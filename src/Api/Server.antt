-- ===== src/Api/Server.antt =====
-- libapicore/ApiServer.h and ApiServer.cpp: the server, its sessions, and the port it is given.
pub mod Sessions
pub mod Start
use firominer.Base.{
  ℕ, ℤ, pos, negsuc, zero, suc, ◌+◌, ◌%◌, ◌^◌, Bool, true, false, not, Option, none,
}
use firominer.Base.{some, List, [], ◌∷◌, ◌++◌, String, ◌==◌, if◌then◌else◌}

-- A session by its id. `next` is the session that waits for a client.
pub record Server : Type 0 where
  pub last_session_id : ℕ
  pub readonly : Bool
  pub running : Bool
  pub port : ℕ
  pub next : Option ℕ
  pub sessions : List ℕ

-- The port of the command line: below zero for read-only access. It is kept in 16 bits.
abbrev pub magnitude : ℤ → ℕ
magnitude (pos n) = n
magnitude (negsuc n) = suc n

abbrev pub is_negative : ℤ → Bool
is_negative (pos n) = false
is_negative (negsuc n) = true

-- The constructor.
unfoldable pub new_server : ℤ → Server
new_server portnum = record {
  last_session_id = 0;
  readonly = is_negative portnum;
  running = false;
  port = magnitude portnum % 2 ^ 16;
  next = none;
  sessions = [];
}

-- `begin_accept`, with an id below 2 ^ 31: only a server that is running accepts.
abbrev pub accept_when : Bool → Server → Server
accept_when true v = record v {
  last_session_id = suc v.last_session_id;
  next = some (suc v.last_session_id);
}
accept_when false v = record v { next = none }

unfoldable pub begin_accept : Server → Server
begin_accept v = accept_when v.running v

-- `start`, with whether the port could be bound. The thread that it starts may find the server not
-- yet running; `late` says that it does.
unfoldable pub start : Bool → Bool → Server → Server
unfolding begin_accept
start bound late v =
    if v.port == 0
    then v
    else if not bound
    then v
    else if late
    then record (begin_accept v) { running = true }
    else begin_accept (record v { running = true })

-- `handle_accept`, with the session that it is bound to.
unfoldable pub handle_accept : Bool → ℕ → Server → Server
unfolding begin_accept
handle_accept failed id v =
    begin_accept (if failed then v else record v { sessions = v.sessions ++ id ∷ [] })

-- The handler that a session calls as it disconnects: the first with its id is erased.
unfoldable pub erase_id : ℕ → List ℕ → List ℕ
erase_id id [] = []
erase_id id (x ∷ xs) = if x == id then xs else x ∷ erase_id id xs

unfoldable pub on_disconnected : ℕ → Server → Server
unfolding erase_id
on_disconnected id v = record v { sessions = erase_id id v.sessions }

-- `stop`.
unfoldable pub stop : Server → Server
stop v = if v.running then record v { running = false; sessions = [] } else v
