-- ===== src/Tools/Policy.antt =====
-- How a command is judged: src/tools/policy.cpp and include/pu/config/security_policy.hpp. `search` is
-- `std::regex_search` of a pattern that the engine compiles, without regard to case; none where it
-- refuses the pattern. The source's raw strings are written with their backslashes escaped.
use pu_cli.Base.{
  ℕ, Bool, true, false, not, ◌&&◌, Option, none, some, List, [], ◌∷◌, ◌++◌, Bytes, codes, is_empty,
  map, if◌then◌else◌,
}

pub record SecurityPolicy : Type 0 where
  pub max_command_length : ℕ
  pub forbidden_patterns : List Bytes
  pub approval_patterns : List Bytes

pub data Risk : Type 0 where
  safe neutral approval dangerous : Risk

pub record Assessment : Type 0 where
  pub risk : Risk
  pub reason : Bytes

abbrev pub dangerous_patterns : List Bytes
dangerous_patterns = map codes (
    "rm\\s+-rf\\s+/" ∷ "sudo\\b" ∷ "mkfs" ∷ "dd\\s+if=.*of=/dev/sd" ∷ ":\\(\\)\\{ :\\|:&\\};:" ∷ [])

abbrev pub safe_patterns : List Bytes
safe_patterns = map codes (
    "ls" ∷ "pwd" ∷ "cat" ∷ "head" ∷ "tail" ∷ "less" ∷ "more" ∷ "echo" ∷ "date" ∷ "whoami"
    ∷ "hostname" ∷ "uptime" ∷ "which" ∷ "type" ∷ "wc" ∷ "sort" ∷ "uniq" ∷ "cut" ∷ "tr" ∷ "find ."
    ∷ "grep" ∷ "awk" ∷ "sed" ∷ "diff" ∷ "file" ∷ "stat" ∷ "du" ∷ "df" ∷ "free" ∷ "ps" ∷ "top -n"
    ∷ "pgrep" ∷ [])

abbrev pub is_match : Option Bool → Bool
is_match none = false
is_match (some b) = b

module _ (search : Bytes → Bytes → Option Bool) where
  -- `MatchesAny` and the pattern that it hands out
  unfoldable pub first_match : Bytes → List Bytes → Option Bytes
  first_match command [] = none
  first_match command (p ∷ ps) =
      if is_match (search p command) then some p else first_match command ps

  abbrev pub is_found : Option Bytes → Bool
  is_found none = false
  is_found (some p) = true

  -- `MatchesAnyPattern`
  unfoldable pub matches_any_pattern : Bytes → List Bytes → Bool
  matches_any_pattern command [] = false
  matches_any_pattern command (p ∷ ps) =
      if is_match (search p command) then true else matches_any_pattern command ps

  abbrev pub asks_for_approval : Bytes → Option SecurityPolicy → Bool
  asks_for_approval command none = false
  asks_for_approval command (some policy) =
      not (is_empty policy.approval_patterns)
      && matches_any_pattern command policy.approval_patterns

  abbrev pub assess_unless : Option Bytes → Bytes → Option SecurityPolicy → Assessment
  assess_unless (some p) command policy = record {
    risk = dangerous;
    reason = codes "matches dangerous pattern: " ++ p;
  }
  assess_unless none command policy =
      if asks_for_approval command policy then record { risk = approval; reason = [] } else record {
        risk = if is_found (first_match command safe_patterns) then safe else neutral;
        reason = [];
      }

  -- `Assess`
  unfoldable pub assess : Bytes → Option SecurityPolicy → Assessment
  unfolding first_match matches_any_pattern
  assess command policy = assess_unless (first_match command dangerous_patterns) command policy
