-- ===== src/Tests/Response.antt =====
-- The responses of a stratum pool, and its text, at concrete inputs.
use firominer.Stratum.Receive.{Receiver}
use firominer.Stratum.Lines.{next_line, feed, newline, receive_all, receive}
use firominer.Stratum.Response.{
  JsonArray, Message, new_session, Client, is_subscribed, is_authorized,
}
use firominer.Stratum.Response.{no_method, mining_notify, empty_text, on_solution_accepted, returns}
use firominer.Stratum.Response.Process.{is_notification, is_invalid, process_response}
use firominer.Stratum.Response.Kept.{Holds}
use firominer.Stratum.Response.Phases.{phase, LoginStep, online}
use firominer.Stratum.Response.Refines.{process_response-LoginStep}
use firominer.Stratum.Response.Answers.{Called, process_response-Called}
use firominer.Stratum.Response.Submitted.{submitted, submit_solution-process_response}
use firominer.Stratum.Response.Hello.{IsReply, process_messages, process_messages-hello}
use firominer.Stratum.Lines.Frames.{concat, receive_all-receive}
use firominer.Stratum.Send.{Sender, send_line, SendEvent, sends, completes}
use firominer.Stratum.Send.Order.{send_line-spurious}
use firominer.Base.{ℕ, ◌≡◌, refl, true, false, List, [], ◌∷◌, ◌++◌, Option, none, some}
use firominer.Tests.Client.{client, submission}
use firominer.Stratum.Extranonce.{stratum}
use firominer.Miner.{no_work}

abbrev no_array : JsonArray
no_array = record {
  is_array = false;
  is_empty = true;
  size = 0;
  job = "";
  as_string = λ i. [];
  as_int64 = λ i. 0;
  strtoul = λ i. 0;
  stoul = λ i. none;
  target_of_bits = λ i. [];
  target_of_difficulty = [];
}

-- A response without an error whose result is true.
abbrev reply_to : ℕ → Message
reply_to id = record {
  id = id;
  has_jsonrpc = false;
  is_version_2_0 = false;
  error_is_empty = true;
  error_code = [];
  method = no_method;
  has_params = false;
  params = no_array;
  mining_set_params = record {
    is_object = false;
    timeout = empty_text;
    epoch = empty_text;
    target = [];
    algo = "ethash";
    extranonce = [];
  };
  has_result = true;
  result = no_array;
  result_is_string = false;
  result_text = [];
  result_is_bool = true;
  result_as_bool = true;
  login_result = record {
    is_object = true;
    proto_is_2_0_0 = true;
    has_encoding = true;
    has_resume = true;
    has_timeout = true;
    has_maxerrors = true;
    has_node = true;
    first_is_array = false;
    first_size = 0;
    first_names_1_0_0 = false;
  };
}

-- A response whose result is a text.
abbrev text_reply : ℕ → Message
text_reply id = record (reply_to id) {
  result_is_bool = false;
  result_is_string = true;
  result_text = b's' ∷ [];
}

-- A connection of a mode that is confirmed, with or without a session.
abbrev in_mode : ℕ → Option ℕ → Client
in_mode mode session = record {
  stratum = record client {
    session = session;
    conn = record (client.conn) { stratum_mode = mode; stratum_mode_confirmed = true };
  };
  session = record new_session { subscribed = true };
  current = no_work;
  new_job_processed = false;
  sent = [];
  calls = [];
}

abbrev authorized_client : Client
authorized_client = record (in_mode 0 (some 10)) {
  session = record new_session { subscribed = true; authorized = true };
}

process_response-LoginStep_example :
    Holds
      (λ c'. LoginStep 3 (online 0 true false) (phase c'))
      (process_response (reply_to 3) 10 6000 (in_mode 0 (some 10)))
process_response-LoginStep_example =
    process_response-LoginStep (reply_to 3) 10 6000 (in_mode 0 (some 10))

process_response-Called_example :
    Holds
      (λ c'. Called (reply_to 1) (in_mode 3 none) c')
      (process_response (reply_to 1) 10 6000 (in_mode 3 none))
process_response-Called_example = process_response-Called (reply_to 1) 10 6000 (in_mode 3 none)

submit_solution-process_response_example :
    (c' : Client) × (process_response
        (reply_to 41)
        10
        7000
        (submitted stratum 6000 submission authorized_client)
      ≡ returns c')
    × (delay : ℕ) × (c'.calls ≡ on_solution_accepted delay 1 false ∷ [])
unfolding is_authorized
submit_solution-process_response_example =
    submit_solution-process_response stratum 6000 10 7000 submission (reply_to 41) authorized_client
      refl refl refl refl

abbrev high_job : Message
high_job = record (reply_to 0) {
  method = mining_notify;
  has_params = true;
  params = record no_array { is_array = true; is_empty = false; as_int64 = λ i. 200000000 };
}

abbrev is_reply :
    (id : ℕ)
    → (m : Message) → m.id ≡ id
    → is_invalid m ≡ false
    → is_notification m ≡ false
    → m.error_is_empty ≡ true
    → IsReply id m
is_reply id m e v r s = record { has_id = e; valid = v; is_response = r; succeeds = s }

process_messages-hello_example :
    (c' : Client) × (process_messages
        ((reply_to 1, 10, 6000) ∷ (text_reply 2, 10, 6100) ∷ (text_reply 3, 10, 6200) ∷ [])
        (returns (in_mode 3 none))
      ≡ returns c')
    × (is_subscribed c' ≡ true)
    × (is_authorized c' ≡ true)
    × (c'.session.worker_id ≡ b's' ∷ [])
process_messages-hello_example =
    process_messages-hello (reply_to 1) (text_reply 2) (text_reply 3) 10 6000 6100 6200
      (in_mode 3 none) (is_reply 1 (reply_to 1) refl refl refl refl)
      (is_reply 2 (text_reply 2) refl refl refl refl)
      (is_reply 3 (text_reply 3) refl refl refl refl) refl refl refl refl

abbrev collect : List ℕ → List (List ℕ) → List (List ℕ)
collect line lines = lines ++ line ∷ []

abbrev cut_text : List (List ℕ)
cut_text = (b'b' ∷ newline ∷ b'c' ∷ []) ∷ [] ∷ (newline ∷ newline ∷ b'd' ∷ []) ∷ []

receive_all-receive_example :
    (receive_all collect cut_text (b'a' ∷ [], [])
      ≡ receive collect (concat cut_text) (b'a' ∷ [], []))
    × (receive_all collect cut_text (b'a' ∷ [], [])
        ≡ (b'd' ∷ [], (b'a' ∷ b'b' ∷ []) ∷ (b'c' ∷ []) ∷ []))
unfolding next_line feed
receive_all-receive_example = receive_all-receive collect cut_text (b'a' ∷ []) [] refl

abbrev receiver : Receiver
receiver = record { message = []; client = in_mode 0 (some 10); dispatched = []; reading = false }

abbrev to_reply : List ℕ → Option Message
to_reply line = some (reply_to 3)

abbrev sender : Sender
sender = record { stratum = client; tx_queue = []; writing = none; written = []; last_tx_stamp = 0 }

abbrev lines_sent : List SendEvent
lines_sent = sends (b'a' ∷ []) ∷ sends (b'b' ∷ []) ∷ completes 6000 ∷ sends (b'c' ∷ []) ∷ []

send_line-spurious_example :
    let s' = send_line true (b'a' ∷ []) sender in
    (s'.tx_queue ≡ (b'a' ∷ []) ∷ [])
    × (s'.writing ≡ none)
    × (s'.stratum.tx_pending ≡ false)
    × (s'.written ≡ [])
send_line-spurious_example = send_line-spurious (b'a' ∷ []) sender refl refl
