-- ===== src/Serve/Closing.antt =====
-- How a turn is closed on the board (`CloseBoardJob` of src/app/serve_runner.cpp), and when it ends
-- silently.
use pu_cli.Base.{String, Bool, false, not, ◌&&◌, ◌||◌, Option, none, some, if◌then◌else◌, str_eq}
use pu_cli.Board.Job.{JobRequest, done, failed, job_state_name, Result, ok, err, BoardError}
use pu_cli.Board.Store.{Board}
use pu_cli.Board.Verbs.{Readings, update}
use pu_cli.Runtime.Data.{ExecutionResult}
use pu_cli.Serve.Runner.{Job, Connection, SessionRunner, page_of}

abbrev pub is_set : Option Bool → Bool
is_set none = false
is_set (some b) = b

abbrev pub is_attached : Option Connection → Bool
is_attached none = false
is_attached (some p) = p.attached_to_page

-- Whether a turn was cancelled with nobody left to tell.
abbrev pub ends_silently : Job → SessionRunner → Bool
ends_silently j r =
    is_set r.cancel_token && (not r.cancel_requested || not (is_attached (page_of j.conn r.pages)))

abbrev pub thrown_of : {A : Type 0} → Result A → Option BoardError
thrown_of (ok a) = none
thrown_of (err e) = some e

abbrev pub close_on : Readings → JobRequest → Option Board → Option BoardError × Option Board
close_on t request none = (none, none)
close_on t request (some b) = (thrown_of (update t request b).0, some (update t request b).1)

module _ {Amount : Type 0} where
  -- The text a failed turn is told with.
  abbrev pub error_text : ExecutionResult Amount → String
  error_text x = if not (str_eq x.error_message "") then x.error_message else x.content

  abbrev pub close_request : String → String → ExecutionResult Amount → JobRequest
  close_request self job x = record {
    job = some job;
    from = some self;
    to = none;
    intent = none;
    due = none;
    state = some (job_state_name (if x.has_error then failed else done));
    result = some (if x.has_error then error_text x else x.content);
    question = none;
    note = none;
  }

  -- `CloseBoardJob`, with what it throws; `self` is the server's own name, empty without peers.
  unfoldable pub close_board_job :
      Readings
      → String
      → String
      → ExecutionResult Amount
      → Option Board
      → Option BoardError × Option Board
  close_board_job t self job x board =
      if str_eq job "" || str_eq self ""
      then (none, board)
      else close_on t (close_request self job x) board
