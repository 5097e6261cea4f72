-- ===== src/Serve/Worker.antt =====
-- The worker's turns (`WorkerMain`, `RunJob`, `ReportFailedTurn` and `CloseBoardJob` of
-- src/app/serve_runner.cpp), and how the calls of other threads fall between its steps. What
-- `ProcessInput` says and gives is part of the event; so is what `usage` is read to, and what the clock
-- reads for the board. `Attach` and `AppendFrame` are one step each here, though both let go of their
-- locks halfway: what then falls between is in Halves and Races.
use Prim.Native.Nat.{◌-◌}
use pu_cli.Base.{
  ℕ, String, Bool, true, false, not, Option, none, some, List, [], ◌∷◌, ◌++◌, Bytes, length, drop,
  if◌then◌else◌, str_eq,
}
use pu_cli.Board.Job.{BoardError}
use pu_cli.Board.Store.{Board}
use pu_cli.Board.Verbs.{Readings}
use pu_cli.Runtime.Data.{ExecutionResult, no_result}
use pu_cli.Serve.Runner.{
  TurnRecord, Job, Connection, SessionRunner, turns_kept, change_page, append_frame, finish_turn,
  submit_from_peer, stop,
}
use pu_cli.Serve.Closing.{error_text, ends_silently, close_board_job}
use pu_cli.Serve.Joining.{Message, attach_to_page, attach, finish, handle_message}

-- A frame by its `type`, with its payload.
pub data Frame (J : Type 0) : Type 0 where
  chunk thinking notice error : String → Frame J
  approval_ask : String → Frame J
  tool_start : String → String → J → Frame J
  tool_end : String → String → J → String → String → Frame J
  usage : J → Frame J
  done_bare done_empty : Frame J
  done_by : String → Frame J

-- What the worker is at: it waits, it is in `ProcessInput`, or it has the result and says the rest.
pub data Phase (J Amount : Type 0) : Type 0 where
  idle : Phase J Amount
  asking : Job → Phase J Amount
  closing : Job → ExecutionResult Amount → List (Frame J) → Phase J Amount

pub record Serving (J Amount : Type 0) : Type 0 where
  pub runner : SessionRunner
  pub phase : Phase J Amount
  pub board : Option Board

unfoldable pub keep_turns : List TurnRecord → List TurnRecord
keep_turns ts = drop (length ts - turns_kept) ts

abbrev pub new_record : Job → TurnRecord
new_record j = record { id = j.turn_id; finished = false; frames = [] }

abbrev pub nobody_asks : Job → Bool
nobody_asks j = elim j.conn [ none ↦ str_eq j.peer_origin "" | some c ↦ false ]

module _ {J Amount : Type 0} where
  abbrev pub notice_frames : ExecutionResult Amount → List (Frame J)
  notice_frames x = if not (str_eq x.notice "") then notice x.notice ∷ [] else []

  abbrev pub usage_frames : ExecutionResult Amount → J → List (Frame J)
  usage_frames x spent = elim x.usage [ none ↦ [] | some u ↦ usage spent ∷ [] ]

  abbrev pub last_frame : ExecutionResult Amount → Frame J
  last_frame x =
      if x.has_error
      then error (error_text x)
      else if str_eq x.model ""
      then done_bare
      else done_by x.model

  -- What `RunJob` says of a result.
  unfoldable pub result_frames : ExecutionResult Amount → J → List (Frame J)
  result_frames x spent = notice_frames x ++ usage_frames x spent ++ last_frame x ∷ []

-- What can happen next: a call of another thread, or a step of the worker.
pub data Event (J Amount : Type 0) : Type 0 where
  opens : ℕ → String → Event J Amount
  attaches marks finishes : ℕ → Event J Amount
  hears : String → ℕ → Message → Event J Amount
  peer_submits : String → String → String → String → Event J Amount
  stops begins reports : Event J Amount
  says : Frame J → Event J Amount
  returns : ExecutionResult Amount → J → Event J Amount
  throws : Readings → String → Event J Amount
  ends : Readings → Event J Amount

abbrev pub new_page : ℕ → String → Connection
new_page c client = record {
  number = c;
  client_id = client;
  closed = false;
  attached_to_page = false;
  sent = [];
}

-- `serialize` is the JSON library's; `reason` is `what()` of an exception of the board.
module _ {J Amount : Type 0} (resent : Bytes → Bytes) (serialize : Frame J → Bytes) (self : String)
    (reason : BoardError → String) where
  -- `ReportFailedTurn`
  unfoldable pub report_failed_turn : Readings → Job → String → Serving J Amount → Serving J Amount
  unfolding close_board_job
  report_failed_turn t j why s = record {
    runner = finish_turn (
        append_frame (serialize done_empty)
          (append_frame (serialize (error why)) (record s.runner { running = false })));
    phase = idle;
    board = (close_board_job t self j.board_job (no_result {Amount = Amount}) s.board).1;
  }

  -- The start of `RunJob`, up to `ProcessInput`.
  unfoldable pub begin_job : Job → Serving J Amount → Serving J Amount
  unfolding keep_turns
  begin_job j s =
      let r = s.runner in
      let turns = keep_turns (r.turns ++ new_record j ∷ []) in
      if nobody_asks j
      then record s { runner = record r { turns = turns; running = false }; phase = idle }
      else record s {
        runner = record r {
          turns = turns;
          running = true;
          cancel_token = some false;
          cancel_requested = false;
        };
        phase = asking j;
      }

  -- What `RunJob` does when `ProcessInput` has returned, up to its first frame.
  unfoldable pub take_result :
      Job → ExecutionResult Amount → J → Serving J Amount → Serving J Amount
  unfolding result_frames
  take_result j x spent s =
      let r = record s.runner { cancel_token = none; cancel_requested = false } in
      if ends_silently j s.runner
      then record s { runner = finish_turn (record r { running = false }); phase = idle }
      else record s { runner = r; phase = closing j x (result_frames x spent) }

  abbrev pub closed_with :
      Readings → Job → Serving J Amount → Option BoardError × Option Board → Serving J Amount
  closed_with t j s (none, b) = record {
    runner = finish_turn (record s.runner { running = false });
    phase = idle;
    board = b;
  }
  closed_with t j s (some e, b) = report_failed_turn t j (reason e) (record s { board = b })

  -- The end of `RunJob`; what the board throws ends it as `WorkerMain` catches it.
  unfoldable pub end_job :
      Readings → Job → ExecutionResult Amount → Serving J Amount → Serving J Amount
  unfolding close_board_job report_failed_turn
  end_job t j x s = closed_with t j s (close_board_job t self j.board_job x s.board)

  abbrev pub with_runner : Serving J Amount → SessionRunner → Serving J Amount
  with_runner s r = record s { runner = r }

  -- The front of the queue, where the worker waits.
  abbrev pub begun : Phase J Amount → List Job → Serving J Amount → Option (Serving J Amount)
  begun idle (j ∷ js) s = some (begin_job j (with_runner s (record s.runner { jobs = js })))
  begun _ _ s = none

  abbrev pub said : Frame J → Phase J Amount → Serving J Amount → Option (Serving J Amount)
  said f (asking j) s = some (with_runner s (append_frame (serialize f) s.runner))
  said f _ s = none

  abbrev pub returned :
      ExecutionResult Amount → J → Phase J Amount → Serving J Amount → Option (Serving J Amount)
  returned x spent (asking j) s = some (take_result j x spent s)
  returned x spent _ s = none

  abbrev pub thrown :
      Readings → String → Phase J Amount → Serving J Amount → Option (Serving J Amount)
  thrown t why (asking j) s = some (report_failed_turn t j why s)
  thrown t why _ s = none

  abbrev pub reported : Phase J Amount → Serving J Amount → Option (Serving J Amount)
  reported (closing j x (f ∷ fs)) s =
      some (record s { runner = append_frame (serialize f) s.runner; phase = closing j x fs })
  reported _ s = none

  abbrev pub ended : Readings → Phase J Amount → Serving J Amount → Option (Serving J Amount)
  ended t (closing j x []) s = some (end_job t j x s)
  ended t _ s = none

  -- What the server is after an event; none where the event cannot happen.
  unfoldable pub step : Event J Amount → Serving J Amount → Option (Serving J Amount)
  unfolding begin_job take_result report_failed_turn end_job
  step (opens c client) s =
      some (with_runner s (record s.runner { pages = s.runner.pages ++ new_page c client ∷ [] }))
  step (attaches c) s = some (with_runner s (attach resent c s.runner).1)
  step (marks c) s =
      some (with_runner s (record s.runner { pages = change_page c attach_to_page s.runner.pages }))
  step (finishes c) s = some (with_runner s (finish c s.runner))
  step (hears turn_id c m) s = some (with_runner s (handle_message turn_id c m s.runner))
  step (peer_submits turn_id sender text job) s =
      some (with_runner s (submit_from_peer turn_id sender text job s.runner))
  step stops s = some (with_runner s (stop s.runner))
  step begins s = begun s.phase s.runner.jobs s
  step (says f) s = said f s.phase s
  step (returns x spent) s = returned x spent s.phase s
  step (throws t why) s = thrown t why s.phase s
  step reports s = reported s.phase s
  step (ends t) s = ended t s.phase s

  abbrev pub and_then :
      Option (Serving J Amount)
      → (Serving J Amount → Option (Serving J Amount))
      → Option (Serving J Amount)
  and_then none f = none
  and_then (some s) f = f s

  -- A history of events, each of which can happen where it stands.
  unfoldable pub history : List (Event J Amount) → Serving J Amount → Option (Serving J Amount)
  unfolding step
  history [] s = some s
  history (e ∷ es) s = and_then (step e s) (λ t. history es t)
