-- ===== src/Session/RewindTests.antt =====
-- Taking back a turn of a concrete conversation.
use mathlib.Core.Option.{some-injective}
use pu_cli.Base.{
  inl, inr, subst, ℕ, ◌<◌, String, some, [], ◌∷◌, ◌≡◌, refl, sym, ◌∙◌, arith, if◌then◌else◌, str_eq,
  Bool-cases,
}
use pu_cli.Session.Message.{MessageNode, user}
use pu_cli.Session.Graph.{MessageGraph, find_node}
use pu_cli.Session.Conversation.{rewind_before}
use pu_cli.Session.Walks.{IsRanked}
use pu_cli.Session.Rewinding.{IsRewound, rewind_before-IsRewound}

abbrev said : String → String → MessageNode ℕ
said id parent = record {
  id = id;
  timestamp = "";
  payload = user (record { content = "hello"; from_peer = "" });
  parent = parent;
}

abbrev two_turns : MessageGraph ℕ
two_turns = record { nodes = said "a" "" ∷ said "b" "a" ∷ []; leaf = "b" }

abbrev depth : String → ℕ
depth id = if str_eq "a" id then 1 else if str_eq "b" id then 2 else 0

below_two :
    (id : String) (n : MessageNode ℕ)
    → find_node id two_turns.nodes ≡ some n
    → depth n.parent < depth id
unfolding find_node
below_two id n e = elim (Bool-cases (str_eq "a" id)) [
  | inl h ↦
      let same : said "a" "" ≡ n = some-injective (said "a" "") n (sym (rw h refl) ∙ e) in
      subst (λ m. depth m.parent < depth id) same (rw h (omega arith))
  | inr h ↦ elim (Bool-cases (str_eq "b" id)) [
    | inl k ↦
        let same : said "b" "a" ≡ n = some-injective (said "b" "a") n (sym (rw (h, k) refl) ∙ e) in
        subst (λ m. depth m.parent < depth id) same (rw (h, k) (omega arith))
    | inr k ↦ absurd (ground (arith, e, h, k))
  ]
]

two_turns-IsRanked : IsRanked depth two_turns.nodes
unfolding find_node
two_turns-IsRanked = record { unnamed = refl; below = below_two; bounded = λ id. ground arith }

rewind_before-IsRewound_example : IsRewound 2 two_turns (rewind_before 2 two_turns)
rewind_before-IsRewound_example = rewind_before-IsRewound depth two_turns two_turns-IsRanked 2
