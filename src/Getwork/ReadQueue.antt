-- ===== src/Getwork/ReadQueue.antt =====
-- libpoolprotocols/getwork/EthGetworkClient.cpp: the queue of requests through `handle_read`.
use firominer.Getwork.{no_operation, GetworkRequest, Continuation, goes_on, ends_process, Getwork}
use firominer.Getwork.Read.{next_in_queue, next_crlf, HttpEnd, HttpState, all_read, invalid_status}
use firominer.Getwork.Read.{http_ends_process, http_lines, with_body, process_body, after_http}
use firominer.Getwork.Read.{handle_read, on_line, with_status, read_line, begin_body}
use firominer.Getwork.Queue.{begin_connect-QueueSound, disconnect_node-QueueSound, Remains-if}
use firominer.Getwork.Queue.{QueueSound, Remains}
use firominer.Getwork.Connect.{succeeded, failed, cancelled, Completion}
use firominer.Base.{ℕ, zero, suc, Bool, true, false, not, ◌&&◌, ◌==◌, if◌then◌else◌, List, [], ◌∷◌}
use firominer.Base.{length, Option, none, some, ◌≡◌, refl, inr}

-- What the end of the loop leaves of the client.
abbrev HttpSound : HttpEnd → Type 0
HttpSound (all_read has_payload status g) = QueueSound g
HttpSound (invalid_status g) = Unit
HttpSound http_ends_process = Unit

module _ {R : Type 0} (parse : List ℕ → Option R) (replace_all : List ℕ → List ℕ)
    (stoul : List ℕ → Option ℕ) (process : R → Getwork → Continuation)
    (kept : (r : R) (g : Getwork) → QueueSound g → Remains QueueSound (process r g)) where
  with_body-HttpSound :
      (body : Option R) (g : Getwork) (k : Getwork → HttpEnd)
      → QueueSound g
      → ((g' : Getwork) → QueueSound g' → HttpSound (k g'))
      → HttpSound (
          with_body parse replace_all stoul process
            (process_body parse replace_all stoul process body g)
            k)
  with_body-HttpSound none g k h next = next g h
  with_body-HttpSound (some r) g k h next = by_end (process r g) (kept r g h)
    where
      by_end :
          (c : Continuation)
          → Remains QueueSound c
          → HttpSound (with_body parse replace_all stoul process c k)
      by_end ends_process h = tt
      by_end (goes_on g') h = next g' h

  with_status-HttpSound :
      (text : Option (List ℕ)) (g : Getwork) (k : ℕ → HttpEnd)
      → ((n : ℕ) → HttpSound (k n))
      → HttpSound (with_status parse replace_all stoul process text g k)
  with_status-HttpSound none g k next = tt
  with_status-HttpSound (some text) g k next = by_number (stoul text)
    where
      by_number :
          (n : Option ℕ)
          → HttpSound (elim n as (λ _. HttpEnd) [ none ↦ http_ends_process | some n ↦ k n ])
      by_number none = tt
      by_number (some n) = next n

  HttpSound-if :
      (b : Bool) (x y : HttpEnd) → HttpSound x → HttpSound y → HttpSound (if b then x else y)
  HttpSound-if true x y hx hy = hx
  HttpSound-if false x y hx hy = hy

  on_line-HttpSound :
      (loop : HttpState → List ℕ → Getwork → HttpEnd)
      (again : (s : HttpState) (rx : List ℕ) (g : Getwork) → QueueSound g → HttpSound (loop s rx g))
      (s : HttpState) (g : Getwork) (found : Option (List ℕ × List ℕ))
      → QueueSound g
      → HttpSound (on_line parse replace_all stoul process loop s g found)
  unfolding on_line read_line
  on_line-HttpSound loop again s g none h = h
  on_line-HttpSound loop again s g (some ([], rest)) h = by_rest (next_crlf rest)
    where
      by_rest :
          (more : Option (List ℕ × List ℕ))
          → HttpSound (
              begin_body parse replace_all stoul process loop
                (record s { linenum = suc s.linenum })
                rest
                g
                more)
      by_rest (some more) = again _ rest g h
      by_rest none = with_body-HttpSound (parse (replace_all rest)) g _ h (λ g' h'. h')
  on_line-HttpSound loop again s g (some (c ∷ line, rest)) h =
      HttpSound-if s.is_header _ _
        (HttpSound-if (suc s.linenum == 1) _ _ (with_status-HttpSound _ g _ (λ n. again _ rest g h))
          (again _ rest g h))
        (with_body-HttpSound (parse (c ∷ line)) g _ h (λ g' h'. again _ rest g' h'))

  http_lines-HttpSound :
      (fuel : ℕ) (s : HttpState) (rx : List ℕ) (g : Getwork)
      → QueueSound g
      → HttpSound (http_lines parse replace_all stoul process fuel s rx g)
  unfolding http_lines
  http_lines-HttpSound zero s rx g h = h
  http_lines-HttpSound (suc fuel) s rx g h =
      on_line-HttpSound (http_lines parse replace_all stoul process fuel)
        (λ s rx g h. http_lines-HttpSound fuel s rx g h) s g (next_crlf rx) h

  after_http-QueueSound :
      (minute : ℕ) (end : HttpEnd)
      → HttpSound end
      → Remains QueueSound (after_http parse replace_all stoul process minute end)
  unfolding after_http
  after_http-QueueSound minute http_ends_process h = tt
  after_http-QueueSound minute (invalid_status g) h = disconnect_node-QueueSound minute g
  after_http-QueueSound minute (all_read has_payload status g) h =
      Remains-if QueueSound (not has_payload && not (status == 200)) _ _
        (disconnect_node-QueueSound minute g) (by_queue g.tx_queue refl)
    where
      by_queue :
          (xs : List GetworkRequest)
          → g.tx_queue ≡ xs
          → Remains QueueSound (next_in_queue minute xs g)
      by_queue [] e = unfold next_in_queue in inr e
      by_queue (x ∷ xs) e = unfold next_in_queue in begin_connect-QueueSound minute g h

  pub handle_read-QueueSound :
      (how : Completion) (minute : ℕ) (rx : List ℕ) (g : Getwork)
      → QueueSound g
      → Remains QueueSound (handle_read parse replace_all stoul process how minute rx g)
  unfolding handle_read
  handle_read-QueueSound succeeded minute [] g h = disconnect_node-QueueSound minute _
  handle_read-QueueSound succeeded minute (c ∷ rx) g h =
      let start : HttpState = record {
        linenum = 0;
        is_header = true;
        has_payload = false;
        status = 0;
      } in
      let idle = record g { operation = no_operation } in
      let lines =
        http_lines parse replace_all stoul process (length (c ∷ rx)) start (c ∷ rx) idle in
      after_http-QueueSound minute lines
        (http_lines-HttpSound (length (c ∷ rx)) start (c ∷ rx) idle h)
  handle_read-QueueSound failed minute rx g h = disconnect_node-QueueSound minute _
  handle_read-QueueSound cancelled minute rx g h = h
