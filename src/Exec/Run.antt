-- ===== src/Exec/Run.antt =====
-- One run of a command (src/exec/run.cpp, the branch that is not Windows). The pipe, the child and the
-- clock are the operating system's: what each round of the loop sees is an argument, and so are whether
-- the stop token is set in the end and the exit status. `number` is `std::to_string`.
use pu_cli.Base.{
  ℕ, Bool, true, false, not, ◌&&◌, List, [], ◌∷◌, ◌++◌, ℤ, pos, negsuc, Bytes, codes, is_empty,
  if◌then◌else◌, Option, none, some, ◌==◌,
}
use pu_cli.Paging.Data.{Verdict, Captured}
use pu_cli.Exec.Capture.{Keep, Capture, new_capture, append, take_captured}

-- `command` in `working_dir`, as the shell is given it.
abbrev pub shell_command : Bytes → Bytes → Bytes
shell_command working_dir command =
    (if is_empty working_dir
      then command
      else codes "cd \"" ++ (working_dir ++ (codes "\" && (" ++ (command ++ codes ")"))))
    ++ codes " 2>&1"

-- A round of the loop: bytes were read, the pipe was at its end, or nothing came in time; with
-- whether the token was set then.
pub data Round : Type 0 where
  arrived : Bytes → Bool → Round
  closed : Round
  quiet : Bool → Round

unfoldable pub read_rounds : Bool → List Round → Capture → Capture
read_rounds stops [] c = c
read_rounds stops (closed ∷ rounds) c = c
read_rounds stops (quiet stop ∷ rounds) c =
    let rest = read_rounds stops rounds c in if stops && stop then c else rest
read_rounds stops (arrived chunk stop ∷ rounds) c =
    let rest = read_rounds stops rounds (append chunk c) in
    if stops && stop then append chunk c else rest

abbrev pub is_zero : ℤ → Bool
is_zero (pos n) = n == 0
is_zero (negsuc n) = false

abbrev pub is_unknown : ℤ → Bool
is_unknown (pos n) = false
is_unknown (negsuc n) = n == 0

abbrev pub stopped_receipt : Bytes
stopped_receipt =
    codes
      "The user stopped this command while it was running. The turn is still going, so the rest of your plan is unaffected. Do not repeat this command unchanged; either adjust it or continue with something else"

module _ (number : ℤ → Bytes) where
  -- `Settle`
  unfoldable pub settle : Bool → ℤ → Verdict → Verdict
  settle stopped exit_code v = record v {
    stopped = stopped;
    exit_code = exit_code;
    ok = is_zero exit_code && not stopped;
    error =
        if stopped
        then stopped_receipt
        else if not (is_zero exit_code) && not (is_unknown exit_code)
        then codes "Command failed (exit " ++ (number exit_code ++ codes ")")
        else v.error;
  }

  -- `exited` is the status of a child that ended by itself.
  abbrev pub exit_code_of : Bool → Option ℤ → ℤ
  exit_code_of true exited = negsuc 0
  exit_code_of false none = negsuc 0
  exit_code_of false (some code) = code

  -- `Run`, once the child runs.
  unfoldable pub run_command :
      Bytes → Bool → List Round → Bool → Option ℤ → ℕ → Keep → Verdict × Captured
  unfolding settle read_rounds
  run_command command stops rounds token_set exited max_bytes keep =
      let stopped = stops && token_set in
      let blank : Verdict = record {
        command = command;
        ok = false;
        exit_code = pos 0;
        error = [];
        stopped = false;
      } in
      (
        settle stopped (exit_code_of stopped exited) blank,
        take_captured (read_rounds stops rounds (new_capture max_bytes keep)),
      )
