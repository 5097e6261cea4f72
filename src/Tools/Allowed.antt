-- ===== src/Tools/Allowed.antt =====
-- Exactly which commands run (src/tools/bash.cpp, src/tools/policy.cpp).
use pu_cli.Base.{
  ℕ, Bool, true, false, not, ◌&&◌, ◌||◌, Option, none, some, List, [], ◌∷◌, ◌≡◌, inl, inr, refl, ap,
  ◌∙◌, arith, Bytes, length, is_empty, ltb, leb, ◌==◌, if◌then◌else◌, Bool-cases,
}
use pu_cli.Tools.Policy.{
  SecurityPolicy, is_match, first_match, is_found, matches_any_pattern, dangerous_patterns,
  safe_patterns, asks_for_approval, assess_unless, assess,
}
use pu_cli.Tools.Bash.{
  Gate, refused, runs, is_too_long, is_forbidden, answered, ask, by_risk, judge,
}

abbrev pub is_run : Gate → Bool
is_run (refused message blocked why) = false
is_run (runs note) = true

abbrev pub says_yes : Option (Bytes → Bool × Bytes) → Bytes → Bool
says_yes none command = false
says_yes (some channel) command = (channel command).0

module _ (search : Bytes → Bytes → Option Bool) (number : ℕ → Bytes) where
  -- What a policy allows, whatever the built-in patterns say.
  abbrev pub is_within : Option SecurityPolicy → Option (Bytes → Bool × Bytes) → Bytes → Bool
  is_within none channel command = true
  is_within (some p) channel command =
      (p.max_command_length == 0 || leb (length command) p.max_command_length)
      && (not (matches_any_pattern search command p.forbidden_patterns)
          && (not (matches_any_pattern search command p.approval_patterns)
              || says_yes channel command))

  first_match-is_found :
      (command : Bytes) (ps : List Bytes)
      → is_found search (first_match search command ps) ≡ matches_any_pattern search command ps
  unfolding first_match matches_any_pattern
  first_match-is_found command [] = refl
  first_match-is_found command (p ∷ ps) = elim (Bool-cases (is_match (search p command))) [
    | inl e ↦ rw e refl
    | inr e ↦ rw e (first_match-is_found command ps)
  ]

  answered-is_run : (a : Bool × Bytes) → is_run (answered search number a) ≡ a.0
  answered-is_run (true, note) = refl
  answered-is_run (false, note) = refl

  ask-is_run :
      (security : Option SecurityPolicy) (channel : Option (Bytes → Bool × Bytes)) (command : Bytes)
      → is_run (ask search number security channel command) ≡ says_yes channel command
  ask-is_run security none command = refl
  ask-is_run security (some channel) command = answered-is_run (channel command)

  -- Whether an assessment lets a command run.
  by_risk-is_run :
      (found : Option Bytes) (security : Option SecurityPolicy)
      (channel : Option (Bytes → Bool × Bytes)) (command : Bytes)
      → is_run (
          by_risk search number
            (assess_unless search found command security)
            security
            channel
            command)
        ≡ (not (is_found search found)
            && (not (asks_for_approval search command security) || says_yes channel command))
  by_risk-is_run (some p) security channel command = refl
  by_risk-is_run none security channel command =
      elim (Bool-cases (asks_for_approval search command security)) [
        | inl e ↦ rw e (ask-is_run security channel command)
        | inr e ↦ elim (Bool-cases (is_found search (first_match search command safe_patterns))) [
          | inl f ↦ rw (e, f) refl
          | inr f ↦ rw (e, f) refl
        ]
      ]

  nonempty-matches :
      (command : Bytes) (ps : List Bytes)
      → not (is_empty ps) && matches_any_pattern search command ps
        ≡ matches_any_pattern search command ps
  unfolding matches_any_pattern
  nonempty-matches command [] = refl
  nonempty-matches command (p ∷ ps) = refl

  gated :
      (a b c : Bool) (x y z r : Gate)
      → is_run x ≡ false
      → is_run y ≡ false
      → is_run z ≡ false
      → is_run (if a then x else if b then y else if c then z else r)
        ≡ (not a && (not b && (not c && is_run r)))
  gated true b c x y z r h k l = h
  gated false true c x y z r h k l = k
  gated false false true x y z r h k l = l
  gated false false false x y z r h k l = refl

  shuffle :
      (e l f d k : Bool)
      → not e && (l && (not f && (not d && k))) ≡ (not e && (not d && (l && (not f && k))))
  shuffle e l f d k = ground arith

  -- What `Assess` lets run, by the patterns that are dangerous.
  assess-is_run :
      (ds : List Bytes) (security : Option SecurityPolicy) (channel : Option (Bytes → Bool × Bytes))
      (command : Bytes)
      → is_run (
          by_risk search number
            (assess_unless search (first_match search command ds) command security)
            security
            channel
            command)
        ≡ (not (matches_any_pattern search command ds)
            && (not (asks_for_approval search command security) || says_yes channel command))
  assess-is_run ds security channel command =
      by_risk-is_run (first_match search command ds) security channel command
      ∙ ap
          (λ d.
            not d && (not (asks_for_approval search command security) || says_yes channel command))
          (first_match-is_found command ds)

  fits : (m n : ℕ) → not (ltb 0 m && ltb m n) ≡ (m == 0 || leb n m)
  fits m n = ground arith

  within_some :
      (p : SecurityPolicy) (channel : Option (Bytes → Bool × Bytes)) (command : Bytes) (d : Bool)
      → not (is_empty command)
          && (not (is_too_long search number command (some p))
              && (not (is_forbidden search number command (some p))
                  && (not d
                      && (not (asks_for_approval search command (some p))
                          || says_yes channel command))))
        ≡ (not (is_empty command) && (not d && is_within (some p) channel command))
  within_some p channel command d =
      let e = is_empty command in
      let yes = says_yes channel command in
      let forbidden = matches_any_pattern search command p.forbidden_patterns in
      let asks = asks_for_approval search command (some p) in
      let l = p.max_command_length == 0 || leb (length command) p.max_command_length in
      ap
        (λ x.
          not e
          && (x
              && (not (is_forbidden search number command (some p))
                  && (not d && (not asks || yes)))))
        (fits p.max_command_length (length command))
      ∙ ap (λ x. not e && (l && (not x && (not d && (not asks || yes)))))
          (nonempty-matches command p.forbidden_patterns)
      ∙ ap (λ x. not e && (l && (not forbidden && (not d && (not x || yes)))))
          (nonempty-matches command p.approval_patterns)
      ∙ shuffle e l forbidden d
          (not (matches_any_pattern search command p.approval_patterns) || yes)

  judge-gated :
      (security : Option SecurityPolicy) (channel : Option (Bytes → Bool × Bytes)) (command : Bytes)
      → is_run (judge search number security channel command) ≡ (
          not (is_empty command)
          && (not (is_too_long search number command security)
              && (not (is_forbidden search number command security)
                  && is_run (
                      by_risk search number
                        (assess_unless search
                          (first_match search command dangerous_patterns)
                          command
                          security)
                        security
                        channel
                        command))))
  unfolding judge assess
  judge-gated security channel command =
      gated (is_empty command) (is_too_long search number command security)
        (is_forbidden search number command security) _ _ _ _ refl refl refl

  -- The tool runs a command exactly when it is not empty, matches no pattern of the built-in dangerous
  -- ones whoever asks, and, where there is a policy, is no longer than the policy's limit, if it sets
  -- one, matches no forbidden pattern, and matches no pattern that waits for approval unless there is a
  -- channel for it and the user says yes.
  pub judge-is_run :
      (security : Option SecurityPolicy) (channel : Option (Bytes → Bool × Bytes)) (command : Bytes)
      → is_run (judge search number security channel command) ≡ (
          not (is_empty command)
          && (not (matches_any_pattern search command dangerous_patterns)
              && is_within security channel command))
  judge-is_run none channel command =
      judge-gated none channel command
      ∙ ap (λ r. not (is_empty command) && (not false && (not false && r)))
          (assess-is_run dangerous_patterns none channel command)
  judge-is_run (some p) channel command =
      judge-gated (some p) channel command
      ∙ ap
          (λ r.
            not (is_empty command)
            && (not (is_too_long search number command (some p))
                && (not (is_forbidden search number command (some p)) && r)))
          (assess-is_run dangerous_patterns (some p) channel command)
      ∙ within_some p channel command (matches_any_pattern search command dangerous_patterns)
