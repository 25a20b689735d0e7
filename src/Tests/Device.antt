-- ===== src/Tests/Device.antt =====
-- Workers, miners and text at concrete inputs.
use firominer.Base.{ℕ, ◌≡◌, refl, true, false, List, [], ◌∷◌, arith}
use firominer.Worker.{ended, Worker, new_worker, start_working, kill}
use firominer.Worker.Thread.{thread_step, thread_run}
use firominer.Hex.{from_hex, bytes_to_hex, bytes}
use firominer.Hex.RoundTrip.{from_hex-bytes_to_hex}
use firominer.Worker.Kill.{Reach, created, next, starts, runs, kill-ends}

-- A worker whose thread runs `workLoop`.
abbrev running_worker : Worker
running_worker = thread_step false (thread_step false (start_working new_worker))

running_worker-Reach : Reach running_worker
running_worker-Reach =
    next (next (next created (starts new_worker)) (runs (start_working new_worker)))
      (runs (thread_step false (start_working new_worker)))

kill-ends_example : (thread_run 5 (kill running_worker)).place ≡ ended
unfolding start_working thread_step
kill-ends_example = kill-ends running_worker-Reach refl

abbrev three_bytes : List ℕ
three_bytes = 0 ∷ 175 ∷ 255 ∷ []

from_hex-bytes_to_hex_example : from_hex (bytes_to_hex three_bytes 2 true) true ≡ bytes three_bytes
from_hex-bytes_to_hex_example =
    from_hex-bytes_to_hex three_bytes true true (omega arith, (omega arith, (omega arith, tt)))
