-- ===== src/Board/History.antt =====
-- What happens to one job of src/serve/board.cpp as verbs are called.
use pu_cli.Base.{
  ◌+◌, ◌≤◌, ◌<◌, String, true, Option, some, List, [], ◌∷◌, ◌++◌, ◌≡◌, ◌∙◌, inl, inr, arith, length,
  length-append, str_eq, eq_iff, Bool-cases, subst, ap,
}
use pu_cli.Board.Job.{Job, Result, err, ActionResult, BoardError, closed}
use pu_cli.Board.Store.{Board, max_open, max_closed_kept, record_event, find_job, put_job}
use pu_cli.Board.Calls.{Call, perform, run}
use pu_cli.Board.Lists.{find-put_job, find-put_job_ne, find-append, keep_jobs-small, length-put_job}
use pu_cli.Board.Effect.{Effect, SameJob, Move, Move-not_closed, refused, moved, posted}
use pu_cli.Board.Refines.{perform-Effect}

Effect-error :
    {c : Call} {b : Board} {p : Result ActionResult × Board} (e : BoardError)
    → Effect c b p
    → p.0 ≡ err e
    → p.1 ≡ b
Effect-error e (refused e' q) h = ap (λ r. r.1) q
Effect-error e (moved id j k o en peers found m s x q) h = absurd (cc (ap (λ r. r.0) q))
Effect-error e (posted k en st n q) h = absurd (cc (ap (λ r. r.0) q))

-- A verb that throws has changed nothing of the board: jobs, peers and audit are as they were.
pub perform-error :
    (c : Call) (b : Board) (e : BoardError) → (perform c b).0 ≡ err e → (perform c b).1 ≡ b
perform-error c b e h = Effect-error e (perform-Effect c b) h

-- What one call does to the job that stands under an id.
pub data Fate (c : Call) (id : String) (j : Job) (o : Option Job) : Type 0 where
  untouched : o ≡ some j → Fate c id j o
  stepped : (k : Job) → o ≡ some k → SameJob j k → Move c id j k → Fate c id j o

Effect-Fate :
    {call : Call} {b : Board} {p : Result ActionResult × Board} (id : String) (j : Job)
    → Effect call b p
    → length b.jobs < max_open + max_closed_kept
    → find_job id b.jobs ≡ some j
    → Fate call id j (find_job id p.1.jobs)
unfolding record_event
Effect-Fate id j (refused e q) n f = rw q (untouched f)
Effect-Fate {call} {b} id j (moved id' j' k o e peers found m s c q) n f =
    rw q (elim (Bool-cases (str_eq id' id)) [
      | inr d ↦ untouched (find-put_job_ne id' id j' k b.jobs found s.id d ∙ f)
      | inl y ↦
          let e₁ : id' ≡ id = (eq_iff id' id).0 y in
          let e₂ : j' ≡ j = ground arith in
          stepped k
            (subst (λ x. find_job x (put_job id' k b.jobs) ≡ some k) e₁
              (find-put_job id' j' k b.jobs found s.id))
            (subst (λ x. SameJob x k) e₂ s)
            (subst (λ i. Move call i j k) e₁ (subst (λ x. Move call id' x k) e₂ m))
    ])
Effect-Fate {call} {b} id j (posted k e st m q) n f = rw q (
    untouched (
      rw (keep_jobs-small (b.jobs ++ k ∷ []) (omega (arith, length-append b.jobs (k ∷ []))))
        (find-append id j b.jobs (k ∷ []) f)))

-- While fewer than 160 jobs are kept, a call leaves the job under any id as it is, or it is a call about
-- that job and moves it as `Move` allows that call, and keeps its id, its two parties, its intent and
-- its creation stamp: only its holder updates it, to the state that was asked for and never to
-- `cancelled`, only a blocked job is answered, and only a person who drops it cancels it.
pub perform-Fate :
    (c : Call) (b : Board) (id : String) (j : Job)
    → length b.jobs < max_open + max_closed_kept
    → find_job id b.jobs ≡ some j
    → Fate c id j (find_job id (perform c b).1.jobs)
perform-Fate c b id j n f = Effect-Fate id j (perform-Effect c b) n f

Fate-closed :
    {call : Call} {id : String} {j : Job} {o : Option Job}
    → Fate call id j o
    → closed j ≡ true
    → o ≡ some j
Fate-closed (untouched e) c = e
Fate-closed {call} {id} {j} (stepped k e s m) c = absurd (ground (arith, c, Move-not_closed m))

Effect-length :
    {call : Call} {b : Board} {p : Result ActionResult × Board}
    → Effect call b p
    → length b.jobs < max_open + max_closed_kept
    → length p.1.jobs ≤ length b.jobs + 1
unfolding record_event
Effect-length (refused e q) n = rw q (omega arith)
Effect-length {call} {b} (moved id j k o e peers found m s c q) n =
    rw q (omega (arith, length-put_job id k b.jobs))
Effect-length {call} {b} (posted k e st m q) n = rw q (
    rw (keep_jobs-small (b.jobs ++ k ∷ []) (omega (arith, length-append b.jobs (k ∷ []))))
      (omega (arith, length-append b.jobs (k ∷ []))))

-- A job that has closed is final: no sequence of calls that fits under the cap of 160 jobs changes it.
pub run-closed :
    (cs : List Call) (b : Board) (id : String) (j : Job)
    → length b.jobs + length cs ≤ max_open + max_closed_kept
    → find_job id b.jobs ≡ some j
    → closed j ≡ true
    → find_job id (run cs b).jobs ≡ some j
unfolding run
run-closed [] b id j n f c = f
run-closed (call ∷ cs) b id j n f c =
    run-closed cs (perform call b).1 id j
      (omega (arith, Effect-length (perform-Effect call b) (omega arith)))
      (Fate-closed (perform-Fate call b id j (omega arith) f) c) c
