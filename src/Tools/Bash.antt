-- ===== src/Tools/Bash.antt =====
-- Whether a command runs: `BashTool::Execute` of src/tools/bash.cpp, behind the reading of `at`. `number`
-- is `std::to_string`. A channel for approval says yes or no, and what the user adds.
use pu_cli.Base.{
  ℕ, Bool, true, false, not, ◌&&◌, Option, none, some, List, [], ◌∷◌, ◌++◌, Bytes, codes, length,
  is_empty, ltb, if◌then◌else◌,
}
use pu_cli.Runtime.Data.{Refusal, no_refusal, nobody_to_ask}
use pu_cli.Tools.Policy.{
  SecurityPolicy, safe, neutral, approval, dangerous, Assessment, matches_any_pattern, assess,
}

-- What comes of a command: it is refused, or it runs, with a note for the turn.
pub data Gate : Type 0 where
  refused : (message : Bytes) → (blocked : Bool) → Refusal → Gate
  runs : (note : Bytes) → Gate

-- `QuoteJoin` of include/pu/tools/tool.hpp
unfoldable pub quote_join_from : Bytes → List Bytes → Bytes
quote_join_from joined [] = joined
quote_join_from joined (n ∷ ns) =
    quote_join_from
      ((if is_empty joined then joined else joined ++ codes ", ")
        ++ (codes "\"" ++ (n ++ codes "\"")))
      ns

abbrev pub quote_join : List Bytes → Bytes
quote_join names = quote_join_from [] names

module _ (search : Bytes → Bytes → Option Bool) (number : ℕ → Bytes) where
  abbrev pub is_too_long : Bytes → Option SecurityPolicy → Bool
  is_too_long command none = false
  is_too_long command (some p) =
      ltb 0 p.max_command_length && ltb p.max_command_length (length command)

  abbrev pub is_forbidden : Bytes → Option SecurityPolicy → Bool
  is_forbidden command none = false
  is_forbidden command (some p) =
      not (is_empty p.forbidden_patterns) && matches_any_pattern search command p.forbidden_patterns

  abbrev pub longest : Option SecurityPolicy → ℕ
  longest none = 0
  longest (some p) = p.max_command_length

  abbrev pub forbidden_of : Option SecurityPolicy → List Bytes
  forbidden_of none = []
  forbidden_of (some p) = p.forbidden_patterns

  abbrev pub approval_of : Option SecurityPolicy → List Bytes
  approval_of none = []
  approval_of (some p) = p.approval_patterns

  abbrev pub answered : Bool × Bytes → Gate
  answered (true, note) = runs note
  answered (false, note) =
      refused
        (codes "Command rejected by the user"
          ++ (if is_empty note then [] else codes ". The user adds: " ++ note))
        true no_refusal

  abbrev pub ask : Option SecurityPolicy → Option (Bytes → Bool × Bytes) → Bytes → Gate
  ask security none command =
      refused
        (codes "Command needs user approval and no approval channel is open. Rework it to avoid: "
          ++ (quote_join (approval_of security) ++ codes "."))
        true nobody_to_ask
  ask security (some channel) command = answered (channel command)

  abbrev pub by_risk :
      Assessment → Option SecurityPolicy → Option (Bytes → Bool × Bytes) → Bytes → Gate
  by_risk a security channel command = elim a.risk [
    | safe ↦ runs []
    | neutral ↦ runs []
    | approval ↦ ask security channel command
    | dangerous ↦ refused (codes "Command rejected: " ++ a.reason) true no_refusal
  ]

  -- The part of `Execute` that decides on a command.
  unfoldable pub judge : Option SecurityPolicy → Option (Bytes → Bool × Bytes) → Bytes → Gate
  unfolding assess
  judge security channel command =
      if is_empty command
      then refused (codes "'command' is required unless 'at' names a cursor") false no_refusal
      else if is_too_long command security
      then refused
          (codes "command exceeds maximum allowed length ("
            ++ (number (longest security) ++ codes ")"))
          false no_refusal
      else if is_forbidden command security
      then refused
          (codes "Command rejected: contains a forbidden pattern. This sandbox forbids "
            ++ (quote_join (forbidden_of security)
                ++ codes ". Rework the command to stay within them."))
          true no_refusal
      else by_risk (assess search command security) security channel command
