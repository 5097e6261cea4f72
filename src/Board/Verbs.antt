-- ===== src/Board/Verbs.antt =====
-- The verbs of the board: `Post`, `Move`, `Update`, `Answer`, `Chase`, `Drop` and `Find`
-- (src/serve/board.cpp). The clock, the generator of ids and `Stamp` are arguments.
use pu_cli.Base.{
  true, false, String, Bool, Option, none, some, List, [], ◌∷◌, ◌++◌, codes, leb, u32_add,
  if◌then◌else◌, str_eq,
}
use pu_cli.Board.Job.{
  Job, JobState, open_, claimed, working, blocked, done, failed, cancelled, job_state_name,
  parse_job_state, closed, JobUpdate, JobRequest, JobOutcome, ActionResult, Refusal, needs_to,
  needs_intent, board_full, needs_job, needs_from, needs_question, cancelled_is_the_persons,
  not_blocked, bad_due, bad_state, not_the_holder, already_ended, already_declined, refused,
  not_found, Result, ok, err, value_or,
}
use pu_cli.Board.Duration.{Span, parse_duration}
use pu_cli.Board.Store.{
  AuditEntry, Board, PeerPresence, max_open, record_event, find_job, put_job, count_open, keep_jobs,
  note_holding,
}

-- The two readings of `NowStamp` that a verb makes, in their order.
pub record Readings : Type 0 where
  pub first : String
  pub second : String

abbrev pub refuse : Refusal → Board → Result ActionResult × Board
refuse r b = (err (refused r), b)

-- A job as `Post` makes it.
abbrev pub new_job : String → String → JobRequest → Option String → Job
new_job now id r due = record {
  id = id;
  from = value_or r.from "";
  to = value_or r.to "";
  intent = value_or r.intent "";
  state = open_;
  due_at = due;
  created_at = now;
  updated_at = now;
  result = none;
  question = none;
  note = "";
  declined_by = none;
  declines = 0;
  chases = 0;
}

abbrev pub post_entry : Readings → Job → AuditEntry
post_entry t j = record { at = t.second; kind = "post"; peer = j.from; job = j.id; text = j.intent }

unfoldable pub post_job : Readings → Job → Board → Result ActionResult × Board
post_job t job b = (
  ok (record { job = job; outcome = none }),
  record_event (post_entry t job) (record b { jobs = keep_jobs (b.jobs ++ job ∷ []) }),
)

abbrev pub post_span :
    Readings
    → String
    → (Span → String)
    → JobRequest
    → String
    → Option Span
    → Board
    → Result ActionResult × Board
post_span t id stamp r text none b = refuse (bad_due text) b
post_span t id stamp r text (some span) b = post_job t (new_job t.first id r (some (stamp span))) b

unfoldable pub post_due :
    Readings
    → String
    → (Span → String)
    → JobRequest
    → Option String
    → Board
    → Result ActionResult × Board
unfolding post_job
post_due t id stamp r none b = post_job t (new_job t.first id r none) b
post_due t id stamp r (some text) b = post_span t id stamp r text (parse_duration (codes text)) b

-- `Post`; `id` is what `uuid::Generate` returns, `stamp` is `Stamp` of now plus a span.
unfoldable pub post :
    Readings → String → (Span → String) → JobRequest → Board → Result ActionResult × Board
unfolding post_due
post t id stamp r b =
    if str_eq (value_or r.to "") ""
    then refuse needs_to b
    else if str_eq (value_or r.intent "") ""
    then refuse needs_intent b
    else if leb max_open (count_open b.jobs)
    then refuse board_full b
    else post_due t id stamp r r.due b

unfoldable pub move_to : JobState → Job → JobUpdate → String → Result Job
move_to open_ j u now =
    ok (record j { state = open_; due_at = none; question = none; result = none; updated_at = now })
move_to claimed j u now =
    ok (record j { state = claimed; question = none; declined_by = none; updated_at = now })
move_to working j u now =
    ok (record j { state = working; question = none; declined_by = none; updated_at = now })
move_to blocked j u now =
    if str_eq u.question ""
    then err (refused needs_question)
    else ok (record j { state = blocked; question = some u.question; updated_at = now })
move_to done j u now = ok (record j {
  state = done;
  result = if str_eq u.result "" then j.result else some u.result;
  updated_at = now;
})
move_to failed j u now = ok (record j {
  state = failed;
  result = some (if str_eq u.result "" then "failed" else u.result);
  updated_at = now;
})
move_to cancelled j u now = err (refused cancelled_is_the_persons)

-- `Move`
unfoldable pub move : Job → JobUpdate → String → Result Job
unfolding move_to
move j u now = elim (parse_job_state u.state) [
  | none ↦ err (refused (bad_state u.state))
  | some next ↦ move_to next j u now
]

abbrev pub outcome_of : Job → Option JobOutcome
outcome_of j =
    if closed j
    then some (record { id = j.id; state = job_state_name j.state; result = j.result })
    else none

abbrev pub with_note : String → Job → Job
with_note note j = record j { note = if str_eq note "" then j.note else note }

abbrev pub update_entry : Readings → String → String → JobUpdate → AuditEntry
update_entry t id peer u = record {
  at = t.second;
  kind = if str_eq u.state "" then "note" else u.state;
  peer = peer;
  job = id;
  text = u.note;
}

abbrev pub holding : String → Job → List PeerPresence → List PeerPresence
holding peer j = note_holding peer (job_state_name j.state) j.id

-- What `Update` writes when `Move` succeeded.
unfoldable pub settle :
    Readings → String → String → JobUpdate → Job → Board → Result ActionResult × Board
settle t id peer u moved b =
    let job = with_note u.note moved in
    (
      ok (record { job = job; outcome = outcome_of job }),
      record_event (update_entry t id peer u)
          (record b { jobs = put_job id job b.jobs; peers = holding peer job b.peers }),
    )

-- `Move` on a job that is already in the board: what was written before a throw stays.
unfoldable pub move_in :
    Readings → String → String → JobUpdate → Job → Board → Result ActionResult × Board
unfolding settle
move_in t id peer u j b = elim (move j u t.first) [
  | err e ↦ (err e, b)
  | ok moved ↦ settle t id peer u moved b
]

-- A decline is counted and signed before `Move` runs.
abbrev pub decline : String → Job → Job
decline peer j = record j { declines = u32_add j.declines 1; declined_by = some peer }

abbrev pub declined_by_is : String → Option String → Bool
declined_by_is peer none = false
declined_by_is peer (some p) = str_eq p peer

unfoldable pub apply_update :
    Readings → String → String → JobUpdate → Job → Board → Result ActionResult × Board
unfolding move_in
apply_update t id peer u j b =
    if str_eq u.state "open"
    then (if declined_by_is peer j.declined_by
        then refuse (already_declined peer) b
        else move_in t id peer u (decline peer j)
            (record b { jobs = put_job id (decline peer j) b.jobs }))
    else move_in t id peer u j b

abbrev pub update_of : JobRequest → JobUpdate
update_of r = record {
  state = value_or r.state "";
  result = value_or r.result "";
  question = value_or r.question "";
  note = value_or r.note "";
}

unfoldable pub update_found :
    Readings → String → String → JobUpdate → Option Job → Board → Result ActionResult × Board
unfolding apply_update
update_found t id peer u none b = (err (not_found id), b)
update_found t id peer u (some j) b =
    if str_eq j.to peer
    then (if closed j then refuse (already_ended j.state) b else apply_update t id peer u j b)
    else refuse (not_the_holder j.to peer) b

-- `Update`
unfoldable pub update : Readings → JobRequest → Board → Result ActionResult × Board
unfolding update_found
update t r b =
    let id = value_or r.job "" in
    let peer = value_or r.from "" in
    if str_eq id ""
    then refuse needs_job b
    else if str_eq peer ""
    then refuse needs_from b
    else update_found t id peer (update_of r) (find_job id b.jobs) b

abbrev pub person_entry : Readings → String → String → String → AuditEntry
person_entry t kind id text = record {
  at = t.second;
  kind = kind;
  peer = "";
  job = id;
  text = text;
}

-- What the three verbs of the person write: the job, and a line of the audit.
unfoldable pub person_writes :
    Readings
    → String
    → String
    → String
    → Job
    → Option JobOutcome
    → Board
    → Result ActionResult × Board
person_writes t kind id text job outcome b = (
  ok (record { job = job; outcome = outcome }),
  record_event (person_entry t kind id text) (record b { jobs = put_job id job b.jobs }),
)

abbrev pub is_blocked : JobState → Bool
is_blocked blocked = true
is_blocked _ = false

abbrev pub answered : Readings → String → Job → Job
answered t text j = record j { note = text; question = none; state = working; updated_at = t.first }

unfoldable pub answer_found :
    Readings → String → String → Option Job → Board → Result ActionResult × Board
unfolding person_writes
answer_found t id text none b = (err (not_found id), b)
answer_found t id text (some j) b =
    if closed j
    then refuse (already_ended j.state) b
    else if is_blocked j.state
    then person_writes t "answer" id text (answered t text j) none b
    else refuse not_blocked b

-- `Answer`
unfoldable pub answer : Readings → String → String → Board → Result ActionResult × Board
unfolding answer_found
answer t id text b = answer_found t id text (find_job id b.jobs) b

abbrev pub chased : Readings → String → Job → Job
chased t text j = record j {
  note = text;
  question = none;
  chases = u32_add j.chases 1;
  updated_at = t.first;
}

unfoldable pub chase_found :
    Readings → String → String → Option Job → Board → Result ActionResult × Board
unfolding person_writes
chase_found t id text none b = (err (not_found id), b)
chase_found t id text (some j) b =
    if closed j
    then refuse (already_ended j.state) b
    else person_writes t "chase" id text (chased t text j) none b

-- `Chase`
unfoldable pub chase : Readings → String → String → Board → Result ActionResult × Board
unfolding chase_found
chase t id text b = chase_found t id text (find_job id b.jobs) b

abbrev pub dropped : Readings → String → Job → Job
dropped t text j = record j {
  state = cancelled;
  note = text;
  question = none;
  updated_at = t.first;
}

unfoldable pub drop_found :
    Readings → String → String → Option Job → Board → Result ActionResult × Board
unfolding person_writes
drop_found t id text none b = (err (not_found id), b)
drop_found t id text (some j) b =
    if closed j
    then refuse (already_ended j.state) b
    else person_writes t "drop" id text (dropped t text j)
        (some (record { id = j.id; state = job_state_name cancelled; result = none })) b

-- `Drop`
unfoldable pub drop : Readings → String → String → Board → Result ActionResult × Board
unfolding drop_found
drop t id text b = drop_found t id text (find_job id b.jobs) b

-- `Find`
unfoldable pub find : String → Board → Option Job
find id b = find_job id b.jobs
