-- ===== src/Tools/Tests.antt =====
-- Commands that are judged.
use pu_cli.Base.{Bool, true, not, ◌&&◌, Option, some, [], ◌∷◌, ◌≡◌, Bytes, codes, is_empty}
use pu_cli.Sse.Fields.{bytes_eq}
use pu_cli.Tools.Policy.{SecurityPolicy, dangerous_patterns, matches_any_pattern}
use pu_cli.Tools.Bash.{judge}
use pu_cli.Tools.Allowed.{is_run, is_within, judge-is_run}

-- An engine whose patterns match themselves only.
abbrev search : Bytes → Bytes → Option Bool
search p command = some (bytes_eq p command)

abbrev office : SecurityPolicy
office = record {
  max_command_length = 20;
  forbidden_patterns = codes "curl" ∷ [];
  approval_patterns = codes "git push" ∷ [];
}

abbrev yes : Bytes → Bool × Bytes
yes command = (true, codes "go on")

judge-is_run_example :
    is_run (judge search (λ n. []) (some office) (some yes) (codes "git push")) ≡ (
      not (is_empty (codes "git push"))
      && (not (matches_any_pattern search (codes "git push") dangerous_patterns)
          && is_within search (λ n. []) (some office) (some yes) (codes "git push")))
judge-is_run_example = judge-is_run search (λ n. []) (some office) (some yes) (codes "git push")
