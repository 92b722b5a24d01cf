-- ===== src/Tests/Rpc.antt =====
-- internal/jsonrpc/conn.go on a frame, and on a connection with a notification and two requests.
use kotlsp.Prelude.{
  ℕ, ◌≤◌, ◌==◌, ◌&&◌, Bool, ◌≡◌, refl, true, false, List, [], ◌∷◌, ◌++◌, none, some, Bytes, codes,
  same, arith, ok, ◌+◌,
}
use kotlsp.Rpc.{
  Message, Json, number, request_canceled, parse_error, message_memory_bytes, request_id_key,
  integer_text, big_value,
}
use kotlsp.Rpc.Frame.{read_body, write}
use kotlsp.Rpc.Frame.RoundTrip.{read_body-write}
use kotlsp.Rpc.Inbound.{
  handled, begun, initial, Attempt, sends, respond, worker_at, set_worker, free_worker,
  cancel_where, forget_key,
}
use kotlsp.Rpc.Inbound.Answers.{answers, failed, pending, all_asked, run-answers}
use kotlsp.Rpc.Inbound.Costs.{IsWithin}
use kotlsp.Rpc.Inbound.Limits.{run-IsWithin}
use kotlsp.Rpc.Inbound.Log.{IsOrdered}
use kotlsp.Rpc.Inbound.Starts.{starts, readings, run-IsOrdered}
use kotlsp.Rpc.Inbound.Run.{
  Event, request, unreadable, notification, cancel_key, notification_taken, notification_closed,
  job_taken, worked, released, step, run, receive, notify, take_notification, close_notification,
  take_job, work, advance, release_inbound,
}
use kotlsp.Rpc.Outbound.{
  answered_with, connection_stopped, RequestEvent, begins, delivers, ends, answer_ready,
  stop_closed, no_requests, begin_request, deliver, send_answer, end_request, delete_pending,
  find_pending, request_step, request_run, nothing_decoded, decode_answer,
}
use kotlsp.Rpc.Outbound.Routed.{IsRouted, request_run-IsRouted}
use kotlsp.Rpc.Queue.{push, pop}
use kotlsp.Rpc.Queue.Order.{
  IsFaithful, pushed, taken, closing, started, observe_all, observe_all-started,
}
use kotlsp.Std.Strconv.{digits, format_int}

abbrev message : Bytes → Bytes → Message
message id method = record {
  jsonrpc = codes "2.0";
  id = id;
  method = method;
  params = [];
  result = [];
  error = none;
}

abbrev did_open : Message
did_open = message [] (codes "textDocument/didOpen")

abbrev hover : Message
hover = message (codes "1") (codes "textDocument/hover")

abbrev rename : Message
rename = message (codes "2") (codes "textDocument/rename")

-- The writer takes the body, or it is closed.
abbrev taken_body : Attempt
taken_body = record { body = some (codes "{}"); accepts = true }

abbrev closed_pipe : Attempt
closed_pipe = record { body = some (codes "{}"); accepts = false }

-- The hover waits for the document; the rename is cancelled before a worker starts it, and the
-- response to it is lost.
abbrev events : List Event
events =
    notification did_open
    ∷ request hover (some (codes "n:1")) taken_body
    ∷ request rename (some (codes "n:2")) taken_body
    ∷ unreadable (codes "3") parse_error taken_body
    ∷ job_taken
    ∷ worked 0 none taken_body
    ∷ notification_taken
    ∷ notification_closed
    ∷ worked 0 none taken_body
    ∷ worked 0 none taken_body
    ∷ cancel_key (codes "n:2")
    ∷ job_taken
    ∷ worked 1 none taken_body
    ∷ worked 1 none closed_pipe
    ∷ worked 0 none taken_body
    ∷ released 0
    ∷ []

called : (run initial events).log ≡ handled 1 ∷ begun hover 1 ∷ []
unfolding run step receive respond sends write notify take_notification close_notification take_job
    work advance release_inbound push pop worker_at set_worker free_worker cancel_where forget_key
    message_memory_bytes
called = refl

replied :
    (run initial events).responses
    ≡ record { id = codes "3"; code = some parse_error }
      ∷ record { id = codes "1"; code = none }
      ∷ []
unfolding run step receive respond sends write notify take_notification close_notification take_job
    work advance release_inbound push pop worker_at set_worker free_worker cancel_where forget_key
    message_memory_bytes
replied = refl

dropped : (run initial events).unsent ≡ record { id = codes "2"; code = some request_canceled } ∷ []
unfolding run step receive respond sends write notify take_notification close_notification take_job
    work advance release_inbound push pop worker_at set_worker free_worker cancel_where forget_key
    message_memory_bytes
dropped = refl

abbrev any_number : Json
any_number = record {
  valid = λ body. true;
  unmarshal = λ body. none;
  decode_id = λ id. some (number id);
}

keyed : request_id_key any_number (codes "-0042") ≡ some (codes "n:-42")
unfolding request_id_key integer_text big_value digits
keyed = refl

abbrev hover_behind_one : Message → ℕ → Bool
hover_behind_one m n = same m.id (codes "1") && n == 1

run-IsOrdered_example :
    IsOrdered 0 (run initial events).log
    × (starts hover_behind_one (run initial events) ≤ readings hover_behind_one 0 initial events)
run-IsOrdered_example = run-IsOrdered hover_behind_one events

run-answers_example :
    answers (same (codes "2")) (run initial events)
      + failed (same (codes "2")) (run initial events)
      + pending (same (codes "2")) (run initial events)
    ≡ all_asked (same (codes "2")) initial events
run-answers_example = run-answers (same (codes "2")) events

run-IsWithin_example : IsWithin (run initial events)
run-IsWithin_example = run-IsWithin events

observe_all-started_example :
    IsFaithful
      (observe_all started (pushed did_open ∷ pushed hover ∷ taken ∷ closing true ∷ taken ∷ []))
observe_all-started_example =
    observe_all-started (pushed did_open ∷ pushed hover ∷ taken ∷ closing true ∷ taken ∷ [])

read_body-write_example :
    (frame : Bytes) × (write (codes "{}") ≡ some frame)
    × (read_body (frame ++ codes "Content") ≡ ok (codes "{}", codes "Content"))
read_body-write_example = read_body-write (codes "{}") (codes "Content") (omega arith)

abbrev second : Json
second = record {
  valid = λ body. true;
  unmarshal = λ body. none;
  decode_id = λ id. some (number (codes "2"));
}

abbrev reply : Message
reply = message (codes "2") []

abbrev exchange : List RequestEvent
exchange =
    begins true
    ∷ begins true
    ∷ delivers reply
    ∷ ends (codes "n:1") answer_ready
    ∷ ends (codes "n:2") answer_ready
    ∷ ends (codes "n:1") stop_closed
    ∷ []

returned :
    (request_run second no_requests exchange).returned
    ≡ (codes "n:1", connection_stopped) ∷ (codes "n:2", answered_with reply) ∷ []
unfolding request_run request_step begin_request deliver send_answer end_request delete_pending
    find_pending request_id_key integer_text big_value digits format_int
returned = refl

no_result : decode_answer (λ body. true) true (message (codes "2") []) ≡ nothing_decoded
unfolding decode_answer
no_result = refl

request_run-IsRouted_example : IsRouted second (request_run second no_requests exchange)
request_run-IsRouted_example = request_run-IsRouted second exchange (omega arith)
