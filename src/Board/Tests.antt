-- ===== src/Board/Tests.antt =====
-- The board's theorems at concrete boards, and runs of its verbs.
use pu_cli.Base.{
  ℕ, zero, suc, String, none, some, List, [], ◌∷◌, ◌++◌, ◌≡◌, refl, arith, codes, Option,
}
use pu_cli.Board.Job.{
  Job, open_, claimed, blocked, done, JobRequest, ActionResult, ok, not_found, parse_job_state,
  value_or,
}
use pu_cli.Board.Duration.{Span, overflowed, parse_duration, split_digits, digits_value, unit_scale}
use pu_cli.Board.Store.{Board, find_job, count_open, sort_by_age, text_lt}
use pu_cli.Board.Verbs.{Readings, post, update, answer, move, apply_update}
use pu_cli.Board.Calls.{post_job, update_job, answer_job, chase_job, drop_job, perform, run}
use pu_cli.Board.Effect.{Effect}
use pu_cli.Board.Refines.{perform-Effect}
use pu_cli.Board.Bounds.{IsBounded, run-IsBounded}
use pu_cli.Board.History.{Fate, perform-error, perform-Fate, run-closed}
use pu_cli.Board.Eviction.{OlderThanAll, post_evicts_oldest}
use pu_cli.Board.Rules.{update-holder}

abbrev ask_bob : Job
ask_bob = record {
  id = "j1";
  from = "alice";
  to = "bob";
  intent = "review";
  state = open_;
  due_at = none;
  created_at = "2026-01-01T00:00:00Z";
  updated_at = "2026-01-01T00:00:00Z";
  result = none;
  question = none;
  note = "";
  declined_by = none;
  declines = 0;
  chases = 0;
}

abbrev stuck : Job
stuck = record ask_bob { id = "j2"; state = blocked; question = some "which branch?" }

abbrev over : Job
over = record ask_bob {
  id = "j3";
  state = done;
  result = some "fine";
  updated_at = "2026-01-02T00:00:00Z";
}

abbrev office : Board
office = record { jobs = ask_bob ∷ stuck ∷ over ∷ []; peers = []; audit = [] }

abbrev noon : Readings
noon = record { first = "2026-01-03T12:00:00Z"; second = "2026-01-03T12:00:01Z" }

abbrev says : String → JobRequest
says state = record {
  job = some "j1";
  from = some "bob";
  to = none;
  intent = none;
  due = none;
  state = some state;
  result = none;
  question = none;
  note = none;
}

abbrev never_due : Span → String
never_due span = "2026-02-01T00:00:00Z"

abbrev errand : JobRequest
errand = record (says "") { job = none; to = some "bob"; intent = some "build" }

perform-Effect_example :
    Effect
      (update_job noon (says "claimed"))
      office
      (perform (update_job noon (says "claimed")) office)
perform-Effect_example = perform-Effect (update_job noon (says "claimed")) office

run-closed_example :
    find_job "j3" (run (chase_job noon "j3" "?" ∷ drop_job noon "j1" "" ∷ []) office).jobs
    ≡ some over
unfolding find_job
run-closed_example =
    run-closed (chase_job noon "j3" "?" ∷ drop_job noon "j1" "" ∷ []) office "j3" over (omega arith)
      refl refl

perform-Fate_example :
    Fate
      (answer_job noon "j2" "main")
      "j2"
      stuck
      (find_job "j2" (perform (answer_job noon "j2" "main") office).1.jobs)
unfolding find_job
perform-Fate_example =
    perform-Fate (answer_job noon "j2" "main") office "j2" stuck (omega arith) refl

perform-error_example : (perform (answer_job noon "j9" "main") office).1 ≡ office
unfolding perform answer find_job
perform-error_example = perform-error (answer_job noon "j9" "main") office (not_found "j9") refl

office-IsBounded : IsBounded office
unfolding count_open
office-IsBounded = record { audit = omega arith; jobs = omega arith; owed = omega arith }

run-IsBounded_example : IsBounded (run (post_job noon "j4" never_due errand ∷ []) office)
run-IsBounded_example =
    run-IsBounded (post_job noon "j4" never_due errand ∷ []) office office-IsBounded

abbrev taken : ActionResult
taken = record {
  job = record ask_bob { state = claimed; updated_at = "2026-01-03T12:00:00Z" };
  outcome = none;
}

bob_claims : (update noon (says "claimed") office).0 ≡ ok taken
unfolding update find_job apply_update move parse_job_state
bob_claims = refl

update-holder_example : taken.job.to ≡ value_or (says "claimed").from ""
update-holder_example = update-holder noon (says "claimed") office taken bob_claims

abbrev declined_job : ActionResult
declined_job = record {
  job = record ask_bob {
    updated_at = "2026-01-03T12:00:00Z";
    declined_by = some "bob";
    declines = 1;
  };
  outcome = none;
}

bob_declines : (update noon (says "open") office).0 ≡ ok declined_job
unfolding update find_job apply_update move parse_job_state
bob_declines = refl

-- The largest count of days that `from_chars` takes, times a day.
overflow_is_not_refused : parse_duration (codes "9223372036854775807d") ≡ some overflowed
unfolding parse_duration split_digits digits_value unit_scale
overflow_is_not_refused = refl

many : ℕ → List Job
many zero = []
many (suc n) = over ∷ many n

many-OlderThanAll : (n : ℕ) → OlderThanAll ask_bob (many n)
unfolding many
many-OlderThanAll zero = tt
many-OlderThanAll (suc n) = (unfold text_lt in refl, many-OlderThanAll n)

crowded : Board
crowded = record { jobs = ask_bob ∷ many 159; peers = []; audit = [] }

abbrev built : ActionResult
built = record {
  job = record ask_bob {
    id = "j4";
    intent = "build";
    created_at = "2026-01-03T12:00:00Z";
    updated_at = "2026-01-03T12:00:00Z";
  };
  outcome = none;
}

-- Bob still owes the job that is lost.
post_evicts_oldest_example :
    (post noon "j4" never_due (record errand { from = some "alice" }) crowded).1.jobs
    ≡ sort_by_age (many 159 ++ built.job ∷ [])
post_evicts_oldest_example =
    post_evicts_oldest noon "j4" never_due (record errand { from = some "alice" }) crowded built
      ask_bob (many 159) (unfold crowded in refl) (unfold crowded many in refl)
      (many-OlderThanAll 159) (unfold text_lt in refl) (unfold post crowded many count_open in refl)

-- Every stamp is unreadable, and every count is written as "n".
abbrev no_stamp : String → Option ℕ
no_stamp s = none

abbrev some_count : ℕ → String
some_count n = "n"
