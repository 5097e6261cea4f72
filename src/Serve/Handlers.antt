-- ===== src/Serve/Handlers.antt =====
-- What the handlers of the board and of peers' messages do (src/app/serve_http_routes.cpp). The answers
-- are values, whose JSON the server writes. `Draws` is what the clock and the generators give while one
-- request is answered.
use Prim.Native.String.{◌++◌ as text_append}
use pu_cli.Base.{ℕ, String, Bool, true, false, not, ◌&&◌, Option, none, some, if◌then◌else◌, str_eq}
use pu_cli.Board.Job.{
  JobState, claimed, job_state_name, JobRequest, ActionResult, BoardError, refused, not_found,
  Result, ok, err,
}
use pu_cli.Board.Duration.{Span}
use pu_cli.Board.Store.{Board}
use pu_cli.Board.Verbs.{Readings}
use pu_cli.Board.Calls.{Call, post_job, update_job, answer_job, chase_job, drop_job, perform}
use pu_cli.Board.Views.{BoardSnapshot, BoardPage, snapshot, page}
use pu_cli.Session.Json.{JsonValue, member, text_or, members}
use pu_cli.Serve.Peers.{PeerConfig, knows}
use pu_cli.Serve.Routes.{
  BoardHandler, board, jobs_get, jobs_post, jobs_patch, jobs_answer, jobs_chase, jobs_drop,
}

pub record Draws : Type 0 where
  pub readings : Readings
  pub job_id : String
  pub turn_id : String
  pub stamp : Span → String
  pub parse_stamp : String → Option ℕ
  pub now : String

-- The exceptions that a handler throws, by their class; those of the board keep their reason.
pub data Thrown : Type 0 where
  request_refused not_there generic_error runtime_error foreign_error : String → Thrown
  by_board : BoardError → Thrown

-- `ErrorStatus`
abbrev pub board_status : BoardError → ℕ
board_status (refused why) = 400
board_status (not_found id) = 404

unfoldable pub error_status : Thrown → ℕ
error_status (request_refused text) = 400
error_status (not_there text) = 404
error_status (generic_error text) = 500
error_status (runtime_error text) = 400
error_status (foreign_error text) = 500
error_status (by_board e) = board_status e

pub data Answer (J : Type 0) : Type 0 where
  payload : J → Answer J
  moved : ActionResult → Answer J
  shown : BoardSnapshot → Answer J
  drawn : BoardPage → Answer J
  accepted : (from turn agent model : String) → Answer J

pub data Outcome (J : Type 0) : Type 0 where
  gives : Answer J → Outcome J
  throws : Thrown → Outcome J

-- `kOfflineAfter`, in seconds.
abbrev pub offline_after : ℕ
offline_after = 45

module _ {J : Type 0} where
  -- `RenderResult` of what a verb of the board comes to.
  abbrev pub rendered : Result ActionResult → Outcome J
  rendered (ok a) = gives (moved a)
  rendered (err e) = throws (by_board e)

  abbrev pub performed : Call → Board → Outcome J × Board
  performed c b = (rendered (perform c b).0, (perform c b).1)

abbrev pub self_of : Option PeerConfig → String
self_of none = ""
self_of (some c) = c.self_name

abbrev pub is_stranger : String → Option PeerConfig → Bool
is_stranger sender none = false
is_stranger sender (some c) = not (str_eq sender "") && not (knows sender c)

abbrev pub claim_of : String → String → JobRequest
claim_of self job = record {
  job = some job;
  from = some self;
  state = some (job_state_name claimed);
  to = none;
  intent = none;
  due = none;
  result = none;
  question = none;
  note = none;
}

abbrev pub is_claimed : JobState → Bool
is_claimed claimed = true
is_claimed _ = false

-- What the claim of a job comes to.
abbrev pub claim_result : String → Result ActionResult → Option Thrown
claim_result job (err e) = some (by_board e)
claim_result job (ok a) =
    if is_claimed a.job.state
    then none
    else some (request_refused (text_append (text_append "job " job) " did not end up claimed"))

abbrev pub claim_on : Draws → String → String → Option Board → Option Thrown × Option Board
claim_on d self job none = (none, none)
claim_on d self job (some b) =
    let call = update_job d.readings (claim_of self job) in
    (claim_result job (perform call b).0, some (perform call b).1)

-- The claim of the job that a message names.
unfoldable pub claim_job : Draws → String → String → Option Board → Option Thrown × Option Board
claim_job d self job b = if str_eq job "" then (none, b) else claim_on d self job b

module _ {J : Type 0} (json : JsonValue J) where
  abbrev pub text_option : Option J → Option String
  text_option none = none
  text_option (some j) = json.as_text j

  -- `OptionalOrDefault<std::string>`
  abbrev pub optional : J → String → Option String
  optional body key = text_option (member key (members json body))

  -- `ValueOrDefault` with the empty text.
  abbrev pub text_in : J → String → String
  text_in body key = text_or json "" (member key (members json body))

  -- `JobFrom`
  unfoldable pub job_from : J → Bool → JobRequest
  job_from body true = record {
    from = optional body "from";
    job = optional body "job";
    state = optional body "state";
    result = optional body "result";
    question = optional body "question";
    note = optional body "note";
    to = none;
    intent = none;
    due = none;
  }
  job_from body false = record {
    from = optional body "from";
    to = optional body "to";
    intent = optional body "intent";
    due = optional body "due";
    job = none;
    state = none;
    result = none;
    question = none;
    note = none;
  }

  -- The three verbs of a person, which want an id and a text.
  abbrev pub person_verb :
      (Readings → String → String → Call)
      → String
      → String
      → String
      → Draws
      → Board
      → Outcome J × Board
  person_verb verb missing id text d b =
      if str_eq id ""
      then (throws (request_refused "a board verb needs the job's 'id'"), b)
      else if str_eq text ""
      then (throws (request_refused missing), b)
      else performed (verb d.readings id text) b

  -- The handlers of the board's routes.
  unfoldable pub handle_board : BoardHandler → J → Draws → Board → Outcome J × Board
  unfolding job_from
  handle_board board body d b = (gives (drawn (page d.parse_stamp d.now b)), b)
  handle_board jobs_get body d b = (gives (shown (snapshot d.parse_stamp d.now offline_after b)), b)
  handle_board jobs_post body d b =
      performed (post_job d.readings d.job_id d.stamp (job_from body false)) b
  handle_board jobs_patch body d b = performed (update_job d.readings (job_from body true)) b
  handle_board jobs_answer body d b =
      person_verb answer_job "an answer needs the 'answer' text to send back" (text_in body "job")
        (text_in body "answer") d b
  handle_board jobs_chase body d b =
      person_verb chase_job "asking about a job needs the 'note' to send" (text_in body "job")
        (text_in body "note") d b
  handle_board jobs_drop body d b =
      person_verb drop_job "taking a job back needs the 'note' that says why" (text_in body "job")
        (text_in body "note") d b

  -- `BoardOf`
  unfoldable pub on_board : BoardHandler → J → Draws → Option Board → Outcome J × Option Board
  unfolding handle_board
  on_board h body d none = (throws (not_there "This server has no board"), none)
  on_board h body d (some b) = ((handle_board h body d b).0, some (handle_board h body d b).1)
