-- ===== src/Board/Job.antt =====
-- The board's data: jobs, requests, what the verbs answer and why they refuse
-- (include/pu/serve/board.hpp), and the names of the states (src/serve/board.cpp).
use pu_cli.Base.{ℕ, String, Bool, true, false, Option, none, some, if◌then◌else◌, str_eq}

pub data JobState : Type 0 where
  open_ claimed working blocked done failed cancelled : JobState

abbrev pub job_state_name : JobState → String
job_state_name open_ = "open"
job_state_name claimed = "claimed"
job_state_name working = "working"
job_state_name blocked = "blocked"
job_state_name done = "done"
job_state_name failed = "failed"
job_state_name cancelled = "cancelled"

unfoldable pub parse_job_state : String → Option JobState
parse_job_state name =
    if str_eq name "open"
    then some open_
    else if str_eq name "claimed"
    then some claimed
    else if str_eq name "working"
    then some working
    else if str_eq name "blocked"
    then some blocked
    else if str_eq name "done"
    then some done
    else if str_eq name "failed"
    then some failed
    else none

pub record Job : Type 0 where
  pub id : String
  pub from : String
  pub to : String
  pub intent : String
  pub state : JobState
  pub due_at : Option String
  pub created_at : String
  pub updated_at : String
  pub result : Option String
  pub question : Option String
  pub note : String
  pub declined_by : Option String
  pub declines : ℕ
  pub chases : ℕ

abbrev pub state_closed : JobState → Bool
state_closed done = true
state_closed failed = true
state_closed cancelled = true
state_closed _ = false

-- `Job::Closed`
abbrev pub closed : Job → Bool
closed j = state_closed j.state

pub record JobUpdate : Type 0 where
  pub state : String
  pub result : String
  pub question : String
  pub note : String

pub record JobRequest : Type 0 where
  pub job : Option String
  pub from : Option String
  pub to : Option String
  pub intent : Option String
  pub due : Option String
  pub state : Option String
  pub result : Option String
  pub question : Option String
  pub note : Option String

pub record JobOutcome : Type 0 where
  pub id : String
  pub state : String
  pub result : Option String

pub record ActionResult : Type 0 where
  pub job : Job
  pub outcome : Option JobOutcome

-- What `RequestRefused` is thrown with, one constructor for each message.
pub data Refusal : Type 0 where
  needs_to needs_intent board_full needs_job needs_from : Refusal
  needs_question cancelled_is_the_persons not_blocked : Refusal
  bad_due bad_state : String → Refusal
  not_the_holder : (holder peer : String) → Refusal
  already_ended : JobState → Refusal
  already_declined : (peer : String) → Refusal

-- The exceptions of the verbs: `RequestRefused` and `NotFound`.
pub data BoardError : Type 0 where
  refused : Refusal → BoardError
  not_found : String → BoardError

-- A verb may throw after it has written, so the result stands beside the state.
pub data Result {ℓ} (A : Type ℓ) : Type ℓ where
  ok : A → Result A
  err : BoardError → Result A

-- `std::optional<std::string>::value_or`
abbrev pub value_or : Option String → String → String
value_or none d = d
value_or (some s) d = s
