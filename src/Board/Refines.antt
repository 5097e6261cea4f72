-- ===== src/Board/Refines.antt =====
-- Every verb of Verbs does what Effect allows.
use pu_cli.Base.{
  ◌<◌, String, true, false, Option, none, some, ◌≡◌, ◌≢◌, ◌↔◌, refl, sym, ◌∙◌, arith, inl, inr,
  str_eq, eq_iff, ap, Option-cases, if◌then◌else◌, Bool, ◌⊎◌, leb, codes,
}
use pu_cli.Board.Job.{
  job_state_name, Refusal, needs_to, needs_intent, board_full, needs_job, needs_from, not_blocked,
  bad_due, already_declined, already_ended, not_the_holder, not_found, refused as refusing, Job,
  JobState, open_, blocked, cancelled, closed, JobOutcome, JobUpdate, JobRequest, BoardError, ok,
  err, ActionResult, Result, parse_job_state, value_or,
}
use pu_cli.Board.Duration.{Span, parse_duration}
use pu_cli.Board.Store.{Board, max_open, find_job, put_job, count_open}
use pu_cli.Board.Verbs.{
  Readings, holding, update_entry, outcome_of, move_to, move, settle, move_in, decline, with_note,
  apply_update, update, update_found, update_of, post, answer_found, chase_found, drop_found,
  answer, chase, drop, post_job, post_due, post_span, new_job, answered as answering,
  chased as chasing, dropped as dropping, person_entry, post_entry, person_writes, is_blocked,
  refuse, declined_by_is,
}
use pu_cli.Board.Calls.{
  Call, post_job as posting, update_job, answer_job, chase_job, drop_job, perform,
}
use pu_cli.Board.Lists.{find_job-id, put-put_job}
use pu_cli.Board.Effect.{
  SameJob, Move, by_holder, answered, chased, dropped, IsPosted, Effect, refused, moved, posted,
}

-- The name of a state that an update may ask for is the state's own, and not `cancelled`.
parse_job_state-name :
    (name : String) (s : JobState)
    → parse_job_state name ≡ some s
    → (name ≡ job_state_name s) × (s ≢ cancelled)
unfolding parse_job_state
parse_job_state-name name s h = (
  ground (
    arith,
    h,
    eq_iff name "open",
    eq_iff name "claimed",
    eq_iff name "working",
    eq_iff name "blocked",
    eq_iff name "done",
    eq_iff name "failed",
  ),
  ground (arith, h),
)

move_to-state :
    (s : JobState) (j k : Job) (u : JobUpdate) (now : String)
    → move_to s j u now ≡ ok k
    → k.state ≡ s
unfolding move_to
move_to-state cancelled j k u now h = ground arith
move_to-state s j k u now h = ground arith

move_to-SameJob :
    (s : JobState) (j k : Job) (u : JobUpdate) (now : String)
    → move_to s j u now ≡ ok k
    → SameJob j k
unfolding move_to
move_to-SameJob cancelled j k u now h = ground arith
move_to-SameJob s j k u now h = ground arith

move-some :
    (j : Job) (u : JobUpdate) (now : String) (s : JobState)
    → parse_job_state u.state ≡ some s
    → move j u now ≡ move_to s j u now
unfolding move
move-some j u now s e = rw (e, move)

-- The state of a job is the one that is asked for by its name.
abbrev pub IsAsked : JobUpdate → Job → Type 0
IsAsked u k = (u.state ≡ job_state_name k.state) × (k.state ≢ cancelled)

pub move-IsAsked :
    (j k : Job) (u : JobUpdate) (now : String) → move j u now ≡ ok k → IsAsked u k × SameJob j k
move-IsAsked j k u now h = elim (Option-cases (parse_job_state u.state)) [
  | inl e ↦ absurd (unfold move in ground arith)
  | inr (s, e) ↦
      let h' : move_to s j u now ≡ ok k = sym (move-some j u now s e) ∙ h in
      let there : k.state ≡ s = move_to-state s j k u now h' in
      let (named, kept) = parse_job_state-name u.state s e in
      (
        (named ∙ ap job_state_name (sym there), λ q. kept (sym there ∙ q)),
        move_to-SameJob s j k u now h',
      )
]

outcome_of-none : (k : Job) → (outcome_of k ≡ none) ↔ (closed k ≡ false)
outcome_of-none k = ground arith

pub move_in-ok :
    (t : Readings) (id peer : String) (u : JobUpdate) (j k : Job) (b : Board)
    → move j u t.first ≡ ok k
    → move_in t id peer u j b ≡ settle t id peer u k b
unfolding move_in
move_in-ok t id peer u j k b h = rw (h, move_in)

pub move_in-err :
    (t : Readings) (id peer : String) (u : JobUpdate) (j : Job) (b : Board) (e : BoardError)
    → move j u t.first ≡ err e
    → move_in t id peer u j b ≡ (err e, b)
unfolding move_in
move_in-err t id peer u j b e h = rw (h, move_in)

module _ {c : Call} {b : Board} where
  refusal : (r : Refusal) → Effect c b (refuse r b)
  refusal r = refused (refusing r) refl

  missing : (id : String) → Effect c b (err (not_found id), b)
  missing id = refused (not_found id) refl

  -- A test in a verb: each branch may use the test's outcome.
  Effect-if :
      (test : Bool) {p q : Result ActionResult × Board}
      → (test ≡ true → Effect c b p)
      → (test ≡ false → Effect c b q)
      → Effect c b (if test then p else q)
  Effect-if true f g = f refl
  Effect-if false f g = g refl

post_job-Effect :
    {c : Call} (t : Readings) (k : Job) (b : Board)
    → IsPosted c k
    → count_open b.jobs < max_open
    → Effect c b (post_job t k b)
unfolding post_job
post_job-Effect t k b h n = posted k (post_entry t k) h n refl

SameJob-with_note : (note : String) {j k : Job} → SameJob j k → SameJob j (with_note note k)
SameJob-with_note note s = record {
  id = s.id;
  from = s.from;
  to = s.to;
  intent = s.intent;
  created_at = s.created_at;
}

-- A job that its holder declined.
abbrev pub opened : Readings → String → Job → Job
opened t peer j = record (decline peer j) {
  state = open_;
  due_at = none;
  question = none;
  result = none;
  updated_at = t.first;
}

module _ (t : Readings) (id peer : String) (u : JobUpdate) (j : Job) (b : Board)
    (found : find_job id b.jobs ≡ some j) where
  -- A decline writes twice; the second write covers the first.
  settle-decline :
      (k : Job)
      → settle t id peer u k (record b { jobs = put_job id (decline peer j) b.jobs })
        ≡ settle t id peer u k b
  unfolding settle
  settle-decline k =
      rw (
        put-put_job id (decline peer j) (with_note u.note k) b.jobs (find_job-id id j b.jobs found))

  move-decline :
      str_eq u.state "open" ≡ true → move (decline peer j) u t.first ≡ ok (opened t peer j)
  unfolding move parse_job_state
  move-decline h = rw (h, move)

  -- What a decline that is not refused leaves: one write of the reopened job.
  pub apply_update-decline :
      str_eq u.state "open" ≡ true
      → declined_by_is peer j.declined_by ≡ false
      → apply_update t id peer u j b ≡ settle t id peer u (opened t peer j) b
  unfolding apply_update
  apply_update-decline h d =
      rw (h, d)
        (move_in-ok t id peer u (decline peer j) (opened t peer j)
            (record b { jobs = put_job id (decline peer j) b.jobs }) (move-decline h)
          ∙ settle-decline (opened t peer j))

  -- The call lets the job be moved to the state that was asked for.
  module _ {c : Call} (may : (k : Job) → IsAsked u k → Move c id j k) where
    settle-Effect : (k : Job) → IsAsked u k → SameJob j k → Effect c b (settle t id peer u k b)
    unfolding settle
    settle-Effect k asked s =
        moved id j (with_note u.note k) (outcome_of (with_note u.note k)) (update_entry t id peer u)
          (holding peer (with_note u.note k) b.peers) found (may (with_note u.note k) asked)
          (SameJob-with_note u.note s) (outcome_of-none (with_note u.note k)) refl

    move_in-Effect : Effect c b (move_in t id peer u j b)
    move_in-Effect = go (move j u t.first) refl
      where
        go : (r : Result Job) → move j u t.first ≡ r → Effect c b (move_in t id peer u j b)
        go (err e) h = refused e (move_in-err t id peer u j b e h)
        go (ok k) h =
            let facts = move-IsAsked j k u t.first h in
            rw (move_in-ok t id peer u j k b h) (settle-Effect k facts.0 facts.1)

    decline-Effect :
        str_eq u.state "open" ≡ true
        → Effect c b (
            move_in t id peer u
              (decline peer j)
              (record b { jobs = put_job id (decline peer j) b.jobs }))
    decline-Effect h =
        rw
          (move_in-ok t id peer u (decline peer j) (opened t peer j)
            (record b { jobs = put_job id (decline peer j) b.jobs }) (move-decline h))
          (rw (settle-decline (opened t peer j)) (
            settle-Effect (opened t peer j) ((eq_iff u.state "open").0 h, λ e. cc)
              (record { id = refl; from = refl; to = refl; intent = refl; created_at = refl })))

    apply_update-Effect : Effect c b (apply_update t id peer u j b)
    unfolding apply_update
    apply_update-Effect =
        Effect-if (str_eq u.state "open")
          (λ h.
            Effect-if (declined_by_is peer j.declined_by) (λ d. refusal (already_declined peer))
              (λ d. decline-Effect h))
          (λ h. move_in-Effect)

update_found-Effect :
    (t : Readings) (r : JobRequest) (o : Option Job) (b : Board)
    → find_job (value_or r.job "") b.jobs ≡ o
    → Effect
        (update_job t r)
        b
        (update_found t (value_or r.job "") (value_or r.from "") (update_of r) o b)
unfolding update_found
update_found-Effect t r none b h = missing (value_or r.job "")
update_found-Effect t r (some j) b h =
    let id = value_or r.job "" in
    let peer = value_or r.from "" in
    Effect-if (str_eq j.to peer)
      (λ y.
        Effect-if (closed j) (λ c. refusal (already_ended j.state))
          (λ c.
            apply_update-Effect t id peer (update_of r) j b h
              (λ k a. by_holder t r refl refl ((eq_iff j.to peer).0 y) c a.0 a.1)))
      (λ n. refusal (not_the_holder j.to peer))

update-Effect :
    (t : Readings) (r : JobRequest) (b : Board) → Effect (update_job t r) b (update t r b)
unfolding update
update-Effect t r b =
    Effect-if (str_eq (value_or r.job "") "") (λ e. refusal needs_job)
      (λ e.
        Effect-if (str_eq (value_or r.from "") "") (λ e. refusal needs_from)
          (λ e. update_found-Effect t r (find_job (value_or r.job "") b.jobs) b refl))

person_writes-Effect :
    {c : Call} (t : Readings) (kind id text : String) (j k : Job) (o : Option JobOutcome)
    (b : Board)
    → find_job id b.jobs ≡ some j
    → Move c id j k
    → SameJob j k
    → ((o ≡ none) ↔ (closed k ≡ false))
    → Effect c b (person_writes t kind id text k o b)
unfolding person_writes
person_writes-Effect t kind id text j k o b h m s q =
    moved id j k o (person_entry t kind id text) b.peers h m s q refl

-- The three verbs of the person leave what identifies a job.
SameJob-person :
    (t : Readings) (text : String) (j : Job)
    → SameJob j (answering t text j) × SameJob j (chasing t text j) × SameJob j (dropping t text j)
SameJob-person t text j = ground arith

blocked_or_not : (s : JobState) → (s ≡ blocked) ⊎ (s ≢ blocked)
blocked_or_not s = ground arith

answer_found-Effect :
    (t : Readings) (id text : String) (o : Option Job) (b : Board)
    → find_job id b.jobs ≡ o
    → Effect (answer_job t id text) b (answer_found t id text o b)
unfolding answer_found
answer_found-Effect t id text none b h = missing id
answer_found-Effect t id text (some j) b h =
    Effect-if (closed j) (λ c. refusal (already_ended j.state))
      (λ c.
        Effect-if (is_blocked j.state)
          (λ k.
            person_writes-Effect t "answer" id text j (answering t text j) none b h
              (answered t text refl (ground arith) refl) (SameJob-person t text j).0 (ground arith))
          (λ k. refusal not_blocked))

answer-Effect :
    (t : Readings) (id text : String) (b : Board)
    → Effect (answer_job t id text) b (answer t id text b)
unfolding answer
answer-Effect t id text b = answer_found-Effect t id text (find_job id b.jobs) b refl

chase_found-Effect :
    (t : Readings) (id text : String) (o : Option Job) (b : Board)
    → find_job id b.jobs ≡ o
    → Effect (chase_job t id text) b (chase_found t id text o b)
unfolding chase_found
chase_found-Effect t id text none b h = missing id
chase_found-Effect t id text (some j) b h =
    Effect-if (closed j) (λ c. refusal (already_ended j.state))
      (λ c.
        person_writes-Effect t "chase" id text j (chasing t text j) none b h
          (chased t text refl c refl) (SameJob-person t text j).1 (ground arith))

chase-Effect :
    (t : Readings) (id text : String) (b : Board)
    → Effect (chase_job t id text) b (chase t id text b)
unfolding chase
chase-Effect t id text b = chase_found-Effect t id text (find_job id b.jobs) b refl

drop_found-Effect :
    (t : Readings) (id text : String) (o : Option Job) (b : Board)
    → find_job id b.jobs ≡ o
    → Effect (drop_job t id text) b (drop_found t id text o b)
unfolding drop_found
drop_found-Effect t id text none b h = missing id
drop_found-Effect t id text (some j) b h =
    Effect-if (closed j) (λ c. refusal (already_ended j.state))
      (λ c.
        person_writes-Effect t "drop" id text j (dropping t text j)
          (some (record { id = j.id; state = job_state_name cancelled; result = none })) b h
          (dropped t text refl c refl) (SameJob-person t text j).2 (ground arith))

drop-Effect :
    (t : Readings) (id text : String) (b : Board) → Effect (drop_job t id text) b (drop t id text b)
unfolding drop
drop-Effect t id text b = drop_found-Effect t id text (find_job id b.jobs) b refl

module _ (t : Readings) (id : String) (stamp : Span → String) (r : JobRequest) (b : Board)
    (room : count_open b.jobs < max_open) (to : str_eq (value_or r.to "") "" ≡ false)
    (intent : str_eq (value_or r.intent "") "" ≡ false) where
  new_job-Effect :
      (due : Option String)
      → Effect (posting t id stamp r) b (post_job t (new_job t.first id r due) b)
  new_job-Effect due =
      post_job-Effect t (new_job t.first id r due) b
        (record {
          readings = t;
          id = id;
          stamp = stamp;
          request = r;
          by_post = refl;
          named = refl;
          from = refl;
          to = (refl, to);
          intent = (refl, intent);
          state = refl;
        })
        room

  post_due-Effect :
      (due : Option String) → Effect (posting t id stamp r) b (post_due t id stamp r due b)
  unfolding post_due
  post_due-Effect none = new_job-Effect none
  post_due-Effect (some text) = go (parse_duration (codes text))
    where
      go : (o : Option Span) → Effect (posting t id stamp r) b (post_span t id stamp r text o b)
      go none = refusal (bad_due text)
      go (some span) = new_job-Effect (some (stamp span))

post-Effect :
    (t : Readings) (id : String) (stamp : Span → String) (r : JobRequest) (b : Board)
    → Effect (posting t id stamp r) b (post t id stamp r b)
unfolding post
post-Effect t id stamp r b =
    Effect-if (str_eq (value_or r.to "") "") (λ e. refusal needs_to)
      (λ to.
        Effect-if (str_eq (value_or r.intent "") "") (λ e. refusal needs_intent)
          (λ intent.
            Effect-if (leb max_open (count_open b.jobs)) (λ e. refusal board_full)
              (λ room. post_due-Effect t id stamp r b (ground (arith, room)) to intent r.due)))

-- Whatever a verb is called with, it does one of three things. It throws and leaves the board as it
-- was. It moves the one job that the call names, as `Move` allows that call: the job's holder, to the
-- state that was asked for and never to `cancelled`; a person who answers a blocked job, asks after one
-- that has not closed, or drops it. Or it is a post, and adds the open job that was asked for, with a
-- peer and an intent, to a board with fewer than 32 jobs that have not closed.
pub perform-Effect : (c : Call) (b : Board) → Effect c b (perform c b)
unfolding perform
perform-Effect (posting t id stamp r) b = post-Effect t id stamp r b
perform-Effect (update_job t r) b = update-Effect t r b
perform-Effect (answer_job t id text) b = answer-Effect t id text b
perform-Effect (chase_job t id text) b = chase-Effect t id text b
perform-Effect (drop_job t id text) b = drop-Effect t id text b
