-- ===== src/Board/Bounds.antt =====
-- How large the board of src/serve/board.cpp grows.
use pu_cli.Base.{◌+◌, ◌≤◌, List, [], ◌∷◌, ◌++◌, arith, length, length-append}
use pu_cli.Board.Job.{Result, ActionResult}
use pu_cli.Board.Store.{Board, max_open, max_audit, max_closed_kept, record_event, count_open}
use pu_cli.Board.Calls.{Call, perform, run}
use pu_cli.Board.Lists.{
  length-trim_audit, length-put_job, count_open-put_job, count_open-snoc, length-keep_jobs,
  count_open-keep_jobs,
}
use pu_cli.Board.Effect.{Effect, refused, moved, posted, Move-not_closed}
use pu_cli.Board.Refines.{perform-Effect}

pub record IsBounded (b : Board) : Type 0 where
  pub audit : length b.audit ≤ max_audit
  pub jobs : length b.jobs ≤ max_open + max_closed_kept
  pub owed : count_open b.jobs ≤ max_open

Effect-IsBounded :
    {c : Call} {b : Board} {p : Result ActionResult × Board}
    → Effect c b p
    → IsBounded b
    → IsBounded p.1
unfolding record_event
Effect-IsBounded (refused e q) v = rw q v
Effect-IsBounded {c} {b} (moved id j k o e peers found m s h q) v = rw q (record {
  audit = length-trim_audit (b.audit ++ e ∷ []);
  jobs = omega (arith, length-put_job id k b.jobs, v.jobs);
  owed = omega (arith, count_open-put_job id j k b.jobs found (Move-not_closed m), v.owed);
})
Effect-IsBounded {c} {b} (posted k e h n q) v = rw q (record {
  audit = length-trim_audit (b.audit ++ e ∷ []);
  jobs = length-keep_jobs (b.jobs ++ k ∷ []) (omega (arith, length-append b.jobs (k ∷ []), v.jobs));
  owed =
      omega (arith, count_open-snoc b.jobs k, count_open-keep_jobs (b.jobs ++ k ∷ []), v.owed, n);
})

-- From a bounded board, whatever verbs are called, at most 64 lines of audit, 160 jobs and 32 jobs
-- that have not closed are ever held.
pub run-IsBounded : (cs : List Call) (b : Board) → IsBounded b → IsBounded (run cs b)
unfolding run
run-IsBounded [] b v = v
run-IsBounded (c ∷ cs) b v =
    run-IsBounded cs (perform c b).1 (Effect-IsBounded (perform-Effect c b) v)
