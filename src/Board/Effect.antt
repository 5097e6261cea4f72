-- ===== src/Board/Effect.antt =====
-- What a verb may do to the board, as a relation between a board and what the verb leaves: nothing
-- and an exception, one step of one job that had not closed, or one new job.
use pu_cli.Base.{
  ◌↔◌, ◌<◌, String, false, Option, none, some, List, [], ◌∷◌, ◌++◌, ◌≡◌, ◌≢◌, arith, str_eq,
}
use pu_cli.Board.Job.{
  Job, open_, blocked, working, cancelled, closed, job_state_name, JobOutcome, JobRequest,
  BoardError, ok, err, ActionResult, Result, value_or,
}
use pu_cli.Board.Store.{
  Board, AuditEntry, PeerPresence, max_open, record_event, find_job, put_job, count_open, keep_jobs,
}
use pu_cli.Board.Duration.{Span}
use pu_cli.Board.Verbs.{Readings}
use pu_cli.Board.Calls.{Call, post_job, update_job, answer_job, chase_job, drop_job}

-- The part of a job that no verb writes.
pub record SameJob (j k : Job) : Type 0 where
  pub id : k.id ≡ j.id
  pub from : k.from ≡ j.from
  pub to : k.to ≡ j.to
  pub intent : k.intent ≡ j.intent
  pub created_at : k.created_at ≡ j.created_at

-- One move of the job under an id, by the call that makes it: its holder asks for the state that it
-- then has, and never for `cancelled`; a person answers a job that is blocked, which then works again,
-- asks after a job, whose state stays, or takes it back. A call moves the job that it names.
pub data Move : Call → String → Job → Job → Type 0 where
  by_holder :
      (t : Readings) (r : JobRequest) {c : Call} {id : String} {j k : Job}
      → c ≡ update_job t r
      → id ≡ value_or r.job ""
      → j.to ≡ value_or r.from ""
      → closed j ≡ false
      → value_or r.state "" ≡ job_state_name k.state
      → k.state ≢ cancelled
      → Move c id j k
  answered :
      (t : Readings) (text : String) {c : Call} {id : String} {j k : Job}
      → c ≡ answer_job t id text
      → j.state ≡ blocked
      → k.state ≡ working
      → Move c id j k
  chased :
      (t : Readings) (text : String) {c : Call} {id : String} {j k : Job}
      → c ≡ chase_job t id text
      → closed j ≡ false
      → k.state ≡ j.state
      → Move c id j k
  dropped :
      (t : Readings) (text : String) {c : Call} {id : String} {j k : Job}
      → c ≡ drop_job t id text
      → closed j ≡ false
      → k.state ≡ cancelled
      → Move c id j k

-- A new job is the one that a call asks for, for a peer and with an intent.
pub record IsPosted (c : Call) (k : Job) : Type 0 where
  pub readings : Readings
  pub id : String
  pub stamp : Span → String
  pub request : JobRequest
  pub by_post : c ≡ post_job readings id stamp request
  pub named : k.id ≡ id
  pub from : k.from ≡ value_or request.from ""
  pub to : (k.to ≡ value_or request.to "") × (str_eq k.to "" ≡ false)
  pub intent : (k.intent ≡ value_or request.intent "") × (str_eq k.intent "" ≡ false)
  pub state : k.state ≡ open_

pub data Effect (c : Call) (b : Board) : Result ActionResult × Board → Type 0 where
  refused : (e : BoardError) {p : Result ActionResult × Board} → p ≡ (err e, b) → Effect c b p
  moved :
      (id : String) (j k : Job) (outcome : Option JobOutcome) (e : AuditEntry)
      (peers : List PeerPresence) {p : Result ActionResult × Board}
      → find_job id b.jobs ≡ some j
      → Move c id j k
      → SameJob j k
      → ((outcome ≡ none) ↔ (closed k ≡ false))
      → p ≡ (
        ok (record { job = k; outcome = outcome }),
        record_event e (record b { jobs = put_job id k b.jobs; peers = peers }),
      )
      → Effect c b p
  posted :
      (k : Job) (e : AuditEntry) {p : Result ActionResult × Board}
      → IsPosted c k
      → count_open b.jobs < max_open
      → p ≡ (
        ok (record { job = k; outcome = none }),
        record_event e (record b { jobs = keep_jobs (b.jobs ++ k ∷ []) }),
      )
      → Effect c b p

-- Only a job that has not closed moves.
pub Move-not_closed : {c : Call} {id : String} {j k : Job} → Move c id j k → closed j ≡ false
Move-not_closed (by_holder t r e i h a n m) = a
Move-not_closed (answered t text e h n) = ground (arith, h)
Move-not_closed (chased t text e h n) = h
Move-not_closed (dropped t text e h n) = h
