-- ===== src/Board/Calls.antt =====
-- The verbs of the board as one type of calls, with the arguments that each takes, and what a history
-- of them does. A refused call is one whose caller sees the exception.
use pu_cli.Base.{String, List, [], ◌∷◌}
use pu_cli.Board.Job.{JobRequest, ActionResult, Result}
use pu_cli.Board.Duration.{Span}
use pu_cli.Board.Store.{Board}
use pu_cli.Board.Verbs.{Readings, post, update, answer, chase, drop}

pub data Call : Type 0 where
  post_job : Readings → String → (Span → String) → JobRequest → Call
  update_job : Readings → JobRequest → Call
  answer_job chase_job drop_job : Readings → String → String → Call

unfoldable pub perform : Call → Board → Result ActionResult × Board
perform (post_job t id stamp r) b = post t id stamp r b
perform (update_job t r) b = update t r b
perform (answer_job t id text) b = answer t id text b
perform (chase_job t id text) b = chase t id text b
perform (drop_job t id text) b = drop t id text b

unfoldable pub run : List Call → Board → Board
run [] b = b
run (c ∷ cs) b = run cs (perform c b).1
