-- ===== src/Serve/Tests.antt =====
-- The server's theorems at concrete states, and runs of its parts.
use pu_cli.Base.{
  ◌==◌, ◌≢◌, inr, ap, length, All, ℕ, String, Bool, true, false, Option, none, some, List, [], ◌∷◌,
  ◌++◌, ◌≡◌, ◌↔◌, refl, arith, Bytes, codes,
}
use pu_cli.Board.Job.{Job as BoardJob, claimed, BoardError, job_state_name}
use pu_cli.Board.Store.{Board}
use pu_cli.Board.Verbs.{Readings}
use pu_cli.Session.Values.{Json, nothing, text, json}
use pu_cli.Runtime.Data.{ExecutionResult, no_result}
use pu_cli.Serve.Peers.{PeerConfig, constant_time_equals}
use pu_cli.Serve.Secret.{IsByte, zeros, constant_time_equals-eq, constant_time_equals_padded}
use pu_cli.Serve.Runner.{
  TurnRecord, Connection, SessionRunner, Job, wire_of, find_page, append_frame,
}
use pu_cli.Serve.Joining.{cancel, attach}
use pu_cli.Serve.Worker.{
  hears, result_frames, Frame, chunk, idle, asking, Serving, Event, opens, attaches, marks,
  peer_submits, begins, says, step, history, report_failed_turn, error, done_empty, returns, throws,
  ends,
}
use pu_cli.Serve.Halves.{free, Meeting, Half, records, reads_page, delivers, hands}
use pu_cli.Serve.Steady.{IsServing, history-IsServing}
use pu_cli.Serve.Closing.{close_board_job}
use pu_cli.Serve.Endings.{IsTold, IsOver, all_reports, wires, returns-IsOver, throws-IsOver}
use pu_cli.Serve.Registry.{
  ServeRecord, register_serve_record, live_serve_records, record_to_json, still_running,
}
use pu_cli.Serve.Listed.{IsListed, register-IsListed}
use pu_cli.Serve.Routes.{Verb, post, patch, SessionHandler, bearer_token}
use pu_cli.Serve.Handlers.{Draws, Outcome, gives, payload}
use pu_cli.Serve.Dispatch.{Server, Request, dispatch_http_request}
use pu_cli.Serve.Admitted.{IsKept, dispatch-IsKept}
use pu_cli.Serve.Moves.{IsMovedBy, dispatch-IsMovedBy}

constant_time_equals-eq_example :
    (constant_time_equals (codes "ab") (codes "aB") ≡ true) ↔ (codes "ab" ≡ codes "aB")
constant_time_equals-eq_example =
    constant_time_equals-eq (codes "ab") (codes "aB") (omega arith, (omega arith, tt))
      (omega arith, (omega arith, tt)) (omega arith) (omega arith)

constant_time_equals_padded_example :
    constant_time_equals (codes "ab") (codes "ab" ++ zeros 256) ≡ true
constant_time_equals_padded_example = constant_time_equals_padded (codes "ab")

abbrev same_text : Bytes → Bytes
same_text w = w

abbrev words : Frame ℕ → Bytes
words (chunk s) = codes s
words _ = codes "{}"

abbrev reason : BoardError → String
reason e = "refused"

abbrev tab : Connection
tab = record { number = 1; client_id = "tab"; closed = false; attached_to_page = false; sent = [] }

abbrev asked : Job
asked = record { text = "hi"; conn = none; peer_origin = "bob"; turn_id = "t1"; board_job = "" }

abbrev half_told : TurnRecord
half_told = record { id = "t1"; finished = false; frames = codes "a" ∷ [] }

abbrev in_turn : SessionRunner
in_turn = record {
  turns = half_told ∷ [];
  jobs = [];
  stopping = false;
  running = true;
  attached = none;
  cancel_token = some false;
  cancel_requested = false;
  pages = tab ∷ [];
}

abbrev mid_turn : Serving ℕ ℕ
mid_turn = record { runner = in_turn; phase = asking asked; board = none }

-- The worker has recorded a frame when the page joins, and says one more.
abbrev one_recorded : SessionRunner
one_recorded = record in_turn {
  turns = record { id = "t1"; finished = false; frames = codes "a" ∷ codes "b" ∷ [] } ∷ [];
}

abbrev joining : List Bytes × SessionRunner
joining = (codes "a" ∷ codes "b" ∷ [], record one_recorded { attached = some 1 })

abbrev mixed : List Half
mixed = hands ∷ reads_page ∷ delivers ∷ records (codes "c") ∷ hands ∷ reads_page ∷ delivers ∷ []

abbrev all_met : Meeting
all_met = record {
  runner = record joining.1 {
    turns =
        record {
          id = "t1";
          finished = false;
          frames = codes "a" ∷ codes "b" ∷ wire_of (codes "c") ∷ [];
        }
        ∷ [];
    pages = record tab { sent = codes "a" ∷ codes "b" ∷ codes "b" ∷ wire_of (codes "c") ∷ [] } ∷ [];
  };
  pending = [];
  way = free;
}

abbrev empty_server : Serving ℕ ℕ
empty_server = record {
  runner = record {
    turns = [];
    jobs = [];
    stopping = false;
    running = false;
    attached = none;
    cancel_token = none;
    cancel_requested = false;
    pages = [];
  };
  phase = idle;
  board = none;
}

abbrev one_turn : List (Event ℕ ℕ)
one_turn =
    opens 1 "tab"
    ∷ attaches 1
    ∷ marks 1
    ∷ peer_submits "t1" "bob" "hi" ""
    ∷ begins
    ∷ says (chunk "a")
    ∷ []

abbrev reached : Option (Serving ℕ ℕ) → Serving ℕ ℕ
reached none = empty_server
reached (some s) = s

history-IsServing_example :
    IsServing same_text words "" reason
      (reached (history same_text words "" reason one_turn empty_server))
unfolding history step pu_cli.Serve.Runner.submit_from_peer attach
history-IsServing_example =
    history-IsServing same_text words "" reason one_turn empty_server
      (reached (history same_text words "" reason one_turn empty_server)) refl (omega arith, refl)

-- The turn of that history was recorded and sent to the page, which had joined before.
one_turn_sent :
    find_page 1 (reached (history same_text words "" reason one_turn empty_server)).runner.pages
    ≡ some (record tab { attached_to_page = true; sent = codes "a" ∷ [] })
unfolding history step find_page pu_cli.Serve.Runner.submit_from_peer attach append_frame
    pu_cli.Text.Utf8.is_valid_utf8 pu_cli.Text.Utf8.valid_from
    pu_cli.Text.Utf8.valid_sequence_length pu_cli.Text.Utf8.sequence_length
    pu_cli.Text.Utf8.check_sequence pu_cli.Text.Utf8.all_continuation
    pu_cli.Text.Utf8.decode_code_point
one_turn_sent = refl

abbrev topology : PeerConfig
topology = record { self_name = "here"; token = codes "secret"; peers = [] }

other_token : codes "guess" ≢ codes "secret"
other_token e = omega (arith, ap length e)

bytes_of_tokens : All IsByte (codes "guess") × All IsByte (codes "secret")
bytes_of_tokens = (
  (omega arith, (omega arith, (omega arith, (omega arith, (omega arith, _))))),
  (omega arith, (omega arith, (omega arith, (omega arith, (omega arith, (omega arith, _)))))),
)

abbrev readings : Readings
readings = record { first = "2026-01-02T00:00:00Z"; second = "2026-01-02T00:00:00Z" }

abbrev draws : Draws
draws = record {
  readings = readings;
  job_id = "j9";
  turn_id = "t9";
  stamp = λ span. "";
  parse_stamp = λ s. none;
  now = "2026-01-02T00:00:00Z";
}

abbrev held : BoardJob
held = record {
  id = "j1";
  from = "alice";
  to = "here";
  intent = "review";
  state = claimed;
  due_at = none;
  created_at = "2026-01-01T00:00:00Z";
  updated_at = "2026-01-01T00:00:00Z";
  result = none;
  question = none;
  note = "";
  declined_by = none;
  declines = 0;
  chases = 0;
}

abbrev one_job : Board
one_job = record { jobs = held ∷ []; peers = []; audit = [] }

abbrev serving : Server ℕ
serving = record { board = some one_job; runner = some in_turn; runtime = 0 }

abbrev drop_request : Option Bytes → Request
drop_request authorization = record {
  target = "/api/jobs/drop";
  method = post;
  authorization = authorization;
  body = codes "{}";
  address = codes "127.0.0.1";
}

abbrev read_body : Bytes → Option Json
read_body bytes = some (json.of_object (("job", text "j1") ∷ ("note", text "not needed") ∷ []))

abbrev no_file : String → Bool
no_file target = false

abbrev silent : SessionHandler → Json → ℕ → Outcome Json × ℕ
silent h body r = (gives (payload nothing), r)

abbrev name_of : ℕ → String
name_of r = ""

-- Somebody drops a job with another token than the server's.
dispatch-IsKept_example : IsKept json read_body no_file silent name_of name_of serving (
    dispatch_http_request json read_body no_file silent name_of name_of
      (drop_request (some (codes "Bearer guess")))
      draws
      (some topology)
      serving)
unfolding bearer_token
dispatch-IsKept_example =
    dispatch-IsKept json read_body no_file silent name_of name_of
      (drop_request (some (codes "Bearer guess"))) draws (some topology) serving
      (inr (inr (other_token, bytes_of_tokens, omega arith, omega arith)))

-- A peer drops it.
dispatch-IsMovedBy_example :
    IsMovedBy json read_body no_file silent name_of name_of draws
      (some topology)
      one_job
      (dispatch_http_request json read_body no_file silent name_of name_of
        (drop_request (some (codes "Bearer secret")))
        draws
        (some topology)
        serving).1.board
dispatch-IsMovedBy_example =
    dispatch-IsMovedBy json read_body no_file silent name_of name_of
      (drop_request (some (codes "Bearer secret"))) draws (some topology) serving one_job refl

abbrev state_of : List BoardJob → String
state_of [] = ""
state_of (j ∷ js) = job_state_name j.state

abbrev first_state : Option Board → String
first_state none = ""
first_state (some b) = state_of b.jobs

dropped_by_peer :
    first_state
      (dispatch_http_request json read_body no_file silent name_of name_of
        (drop_request (some (codes "Bearer secret")))
        draws
        (some topology)
        serving).1.board
    ≡ "cancelled"
unfolding dispatch_http_request pu_cli.Serve.Routes.find_route pu_cli.Serve.Routes.admit
    bearer_token pu_cli.Serve.Peers.accepts pu_cli.Serve.Routes.peer_for_token
    pu_cli.Board.Calls.perform pu_cli.Board.Verbs.drop pu_cli.Board.Store.find_job
    pu_cli.Board.Store.touch_peer pu_cli.Board.Store.record_event pu_cli.Board.Store.put_job
dropped_by_peer = refl

-- A turn that threw closes the job that it answered as done.
abbrev answering : Job
answering = record {
  text = "hi";
  conn = none;
  peer_origin = "bob";
  turn_id = "t1";
  board_job = "j1";
}

thrown_turn_is_done :
    first_state
      (report_failed_turn same_text words "here" reason readings answering "the turn failed"
        (record mid_turn { phase = asking answering; board = some one_job })).board
    ≡ "done"
unfolding report_failed_turn pu_cli.Board.Verbs.update pu_cli.Board.Store.find_job
    pu_cli.Board.Verbs.move pu_cli.Board.Job.parse_job_state pu_cli.Board.Store.record_event
    pu_cli.Board.Store.put_job
thrown_turn_is_done = refl

abbrev good_result : ExecutionResult ℕ
good_result = record (no_result {Amount = ℕ}) { content = "done"; model = "m" }

-- A page joins and asks to cancel while the worker says the result.
abbrev interrupted : List (Event ℕ ℕ)
interrupted =
    attaches 1
    ∷ all_reports (result_frames good_result 0) (hears "t2" 1 cancel ∷ ends readings ∷ [])

returns-IsOver_example :
    IsTold {J = ℕ} {Amount = ℕ} good_result 0 (result_frames good_result 0)
    × IsOver same_text words "here" reason [] half_told
        (half_told.frames ++ wires words (result_frames good_result 0))
        (history same_text words "here" reason
          (returns good_result 0 ∷ interrupted)
          (record { runner = in_turn; phase = asking answering; board = some one_job }))
unfolding close_board_job pu_cli.Board.Verbs.update pu_cli.Board.Store.find_job
    pu_cli.Board.Verbs.move pu_cli.Board.Job.parse_job_state result_frames
returns-IsOver_example =
    returns-IsOver same_text words "here" reason readings answering good_result 0 in_turn
      (some one_job) [] half_told interrupted refl refl refl refl

throws-IsOver_example :
    IsOver {J = ℕ} {Amount = ℕ} same_text words "here" reason [] half_told
      (half_told.frames ++ wires words (error "the turn failed" ∷ done_empty ∷ []))
      (history same_text words "here" reason
        (throws readings "the turn failed" ∷ [])
        (record { runner = in_turn; phase = asking answering; board = some one_job }))
throws-IsOver_example =
    throws-IsOver same_text words "here" reason readings answering "the turn failed" in_turn
      (some one_job) [] half_told refl

abbrev here : ServeRecord
here = record { directory = "/home/a/pu"; bind = "127.0.0.1"; port = 8080; pid = 7; started = "t7" }

abbrev other_server : ServeRecord
other_server = record {
  directory = "/home/a/web";
  bind = "127.0.0.1";
  port = 8081;
  pid = 8;
  started = "";
}

abbrev all_run : ℕ → Bool
all_run pid = true

abbrev token_of : ℕ → String
token_of pid = "t7"

register-IsListed_example :
    IsListed here
      (live_serve_records json all_run token_of (
        register_serve_record json all_run token_of here (record_to_json json other_server ∷ []))).0
    × ((q : ServeRecord)
        → (q.pid == here.pid) ≡ false
        → IsListed q
            (live_serve_records json all_run token_of (record_to_json json other_server ∷ [])).0
        → IsListed q
            (live_serve_records json all_run token_of (
              register_serve_record json all_run token_of here
                (record_to_json json other_server ∷ []))).0)
unfolding still_running
register-IsListed_example =
    register-IsListed json all_run token_of here (record_to_json json other_server ∷ [])
      (omega arith) refl
