-- ===== src/Board/Rules.antt =====
-- The rules of the single verbs of src/serve/board.cpp: who may move a job, what a decline leaves,
-- when a person may answer, what an outcome says.
use pu_cli.Base.{
  String, false, Option, none, some, ◌≡◌, ◌≢◌, ◌↔◌, refl, sym, subst, ◌∙◌, ap, arith, eq_iff,
}
use pu_cli.Board.Job.{
  Job, JobState, open_, blocked, working, cancelled, job_state_name, parse_job_state, closed,
  JobUpdate, JobRequest, ActionResult, Result, ok, err, value_or,
}
use pu_cli.Board.Store.{Board, record_event, find_job, put_job}
use pu_cli.Board.Verbs.{
  Readings, answer, chase, update, answer_found, chase_found, person_writes, answered, chased, move,
  move_in, settle, apply_update, update_found, update_of, decline,
}
use pu_cli.Board.Calls.{Call, perform}
use pu_cli.Board.Lists.{find-put_job}
use pu_cli.Board.Effect.{Effect, refused, moved, posted}
use pu_cli.Board.Refines.{perform-Effect, move_in-ok, move_in-err, move-IsAsked}

state_name_read : (s : JobState) → s ≢ cancelled → parse_job_state (job_state_name s) ≡ some s
unfolding parse_job_state
state_name_read cancelled n = absurd (n refl)
state_name_read open_ n = refl
state_name_read s n = refl

name_read :
    (s : JobState) (name : String)
    → parse_job_state name ≡ some s
    → (name ≡ job_state_name s) × (s ≢ cancelled)
unfolding parse_job_state
name_read s name h = ground (
  arith,
  eq_iff name "open",
  eq_iff name "claimed",
  eq_iff name "working",
  eq_iff name "blocked",
  eq_iff name "done",
  eq_iff name "failed",
)

-- Reading the name of a state gives the state back, but for `cancelled`, which no peer may say; and
-- a name that is read is the name of the state that it gives.
parse-job_state_name :
    (s : JobState) (name : String)
    → (s ≢ cancelled → parse_job_state (job_state_name s) ≡ some s)
      × (parse_job_state name ≡ some s → (name ≡ job_state_name s) × (s ≢ cancelled))
unfolding parse_job_state
parse-job_state_name s name = (λ n. state_name_read s n, λ h. name_read s name h)

Effect-outcome :
    {call : Call} {b : Board} {p : Result ActionResult × Board} (a : ActionResult)
    → Effect call b p
    → p.0 ≡ ok a
    → (a.outcome ≡ none) ↔ (closed a.job ≡ false)
Effect-outcome a (refused e q) h = absurd (cc (ap (λ r. r.0) q))
Effect-outcome a (moved id j k o e peers found m s c q) h =
    let e : ◌≡◌ {A = Result ActionResult} (ok (record { job = k; outcome = o })) (ok a) =
      sym (ap (λ r. r.0) q) ∙ h in
    let e₁ : k ≡ a.job = ground arith in
    let e₂ : o ≡ a.outcome = ground arith in
    subst (λ (x : Job). (a.outcome ≡ none) ↔ (closed x ≡ false)) e₁
      (subst (λ x. (x ≡ none) ↔ (closed k ≡ false)) e₂ c)
Effect-outcome a (posted k e st n q) h =
    let e : ◌≡◌ {A = Result ActionResult} (ok (record { job = k; outcome = none })) (ok a) =
      sym (ap (λ r. r.0) q) ∙ h in
    ground arith

-- A verb that succeeds carries an outcome exactly when the job it moved is closed.
pub perform-outcome :
    (c : Call) (b : Board) (a : ActionResult)
    → (perform c b).0 ≡ ok a
    → (a.outcome ≡ none) ↔ (closed a.job ≡ false)
perform-outcome c b a h = Effect-outcome a (perform-Effect c b) h

module _ (t : Readings) (id peer : String) (u : JobUpdate) (a : ActionResult) where
  move_in-to :
      (j : Job) (b : Board)
      → closed j ≡ false
      → (move_in t id peer u j b).0 ≡ ok a
      → a.job.to ≡ j.to
  unfolding settle
  move_in-to j b c h = go (move j u t.first) refl
    where
      go : (r : Result Job) → move j u t.first ≡ r → a.job.to ≡ j.to
      go (err e) m = absurd (cc (h, move_in-err t id peer u j b e m))
      go (ok k) m =
          ground (arith, move_in-ok t id peer u j k b m, (move-IsAsked j k u t.first m).1.to)

  apply_update-to :
      (j : Job) (b : Board)
      → closed j ≡ false
      → (apply_update t id peer u j b).0 ≡ ok a
      → a.job.to ≡ j.to
  unfolding apply_update
  apply_update-to j b c h = ground (
    arith,
    move_in-to j b c,
    move_in-to (decline peer j) (record b { jobs = put_job id (decline peer j) b.jobs }) c,
  )

  update_found-to :
      (o : Option Job) (b : Board) → (update_found t id peer u o b).0 ≡ ok a → a.job.to ≡ peer
  unfolding update_found
  update_found-to none b h = ground arith
  update_found-to (some j) b h = ground (arith, eq_iff j.to peer, apply_update-to j b)

-- Only the peer that a job was posted to moves it by `Update`.
pub update-holder :
    (t : Readings) (r : JobRequest) (b : Board) (a : ActionResult)
    → (update t r b).0 ≡ ok a
    → a.job.to ≡ value_or r.from ""
unfolding update
update-holder t r b a h = ground (
  arith,
  update_found-to t (value_or r.job "") (value_or r.from "") (update_of r) a
      (find_job (value_or r.job "") b.jobs) b,
)

answer-some :
    (t : Readings) (id text : String) (b : Board) (j : Job)
    → find_job id b.jobs ≡ some j
    → answer t id text b ≡ answer_found t id text (some j) b
unfolding answer
answer-some t id text b j f = rw (f, answer)

chase-some :
    (t : Readings) (id text : String) (b : Board) (j : Job)
    → find_job id b.jobs ≡ some j
    → chase t id text b ≡ chase_found t id text (some j) b
unfolding chase
chase-some t id text b j f = rw (f, chase)

-- A person may answer the job that stands under an id exactly when it is blocked, and then the board
-- holds it as working, with the answer as its note and no question.
pub answer_iff_blocked :
    (t : Readings) (id text : String) (b : Board) (j : Job)
    → find_job id b.jobs ≡ some j
    → (((a : ActionResult) × ((answer t id text b).0 ≡ ok a)) ↔ (j.state ≡ blocked))
      × (j.state ≡ blocked
          → find_job id (answer t id text b).1.jobs
            ≡ some
                (record j { note = text; question = none; state = working; updated_at = t.first }))
unfolding answer_found person_writes record_event
answer_iff_blocked t id text b j f = rw (answer-some t id text b j f) (
  (
    λ h. ground (arith, h.1),
    λ h. (record { job = answered t text j; outcome = none }, ground arith),
  ),
  λ h. ground (arith, find-put_job id j (answered t text j) b.jobs f),
)

-- Asking a blocked job what is happening leaves it blocked and wipes the question that its holder
-- asked.
pub chase_wipes_question :
    (t : Readings) (id text : String) (b : Board) (j : Job)
    → find_job id b.jobs ≡ some j
    → j.state ≡ blocked
    → (k : Job) × (find_job id (chase t id text b).1.jobs ≡ some k)
      × (k.state ≡ blocked)
      × (k.question ≡ none)
unfolding chase_found person_writes record_event
chase_wipes_question t id text b j f h =
    rw (chase-some t id text b j f)
      (chased t text j, ground (arith, find-put_job id j (chased t text j) b.jobs f), h, refl)
