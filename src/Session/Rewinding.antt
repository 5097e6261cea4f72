-- ===== src/Session/Rewinding.antt =====
-- What a conversation is after a turn was taken back (src/session/session.cpp,
-- include/pu/session/graph.hpp).
use mathlib.Core.List.{reverse}
use pu_cli.Base.{
  ℕ, zero, suc, ◌-◌, ◌≤◌, ◌<◌, String, true, false, some, List, [], ◌∷◌, ◌++◌, ◌≡◌, ◌⊎◌, inl, inr,
  refl, sym, ap, ◌∙◌, subst, arith, append_assoc, length, length-drop, take, drop, get_elem?,
  take-append-drop, take-length_append, ◌==◌, if◌then◌else◌, Bool-cases,
}
use pu_cli.Session.Message.{MessageNode}
use pu_cli.Session.Graph.{
  MessageGraph, find_node, climb, chain_up, chain, rewind_to, leaf_has_unfinished_tool_calls,
}
use pu_cli.Session.Conversation.{
  Rewound, refused, answered, peer_turn_refusal, pending_refusal, turn_came_from_peer, is_no_turn,
  id_of, rewound, rewind_before,
}
use pu_cli.Session.Walks.{
  reverse-cons, reverse-append, length-reverse, drop_cons, get_elem?-length_append, IsRanked,
  drop-climb,
}

module _ {J : Type 0} where
  -- The conditions under which `RewindBefore` goes on: the turn is no peer's, and no call is pending.
  abbrev pub MayRewind : ℕ → MessageGraph J → Type 0
  MayRewind turn g =
      (turn_came_from_peer turn g ≡ false) × (leaf_has_unfinished_tool_calls g ≡ false)

  -- What `RewindBefore` promises of an outcome.
  abbrev pub IsRewound : ℕ → MessageGraph J → Rewound J → Type 0
  IsRewound turn g (refused why) =
      ((why ≡ peer_turn_refusal) × (turn_came_from_peer turn g ≡ true))
      ⊎ ((why ≡ pending_refusal)
          × (turn_came_from_peer turn g ≡ false)
          × (leaf_has_unfinished_tool_calls g ≡ true))
  IsRewound turn g (answered false h) =
      MayRewind turn g × (h ≡ g) × ((turn ≡ 0) ⊎ (length (chain g) < turn))
  IsRewound turn g (answered true h) =
      MayRewind turn g
      × (1 ≤ turn)
      × (turn ≤ length (chain g))
      × (h.nodes ≡ g.nodes)
      × (chain h ≡ take (turn - 1) (chain g))

  rewind_to-found :
      (id : String) (g : MessageGraph J) (n : MessageNode J)
      → find_node id g.nodes ≡ some n
      → rewind_to id g ≡ (true, record g { leaf = id })
  unfolding rewind_to
  rewind_to-found id g n e = rw e (ground arith)

  module _ (rank : String → ℕ) (g : MessageGraph J) (ranked : IsRanked rank g.nodes) where
    abbrev walk_up : List (MessageNode J)
    walk_up = climb (suc (length g.nodes)) g.nodes (find_node g.leaf g.nodes)

    chain-walk : chain g ≡ reverse walk_up
    unfolding chain chain_up
    chain-walk = refl

    -- A node of the walk up, with the walk split there.
    kept-IsRewound :
        (k : ℕ) (m : MessageNode J) (ys : List (MessageNode J))
        → suc k < length walk_up
        → drop (length walk_up - suc k) walk_up ≡ m ∷ ys
        → (get_elem? (chain g) k ≡ some m)
          × (find_node m.id g.nodes ≡ some m)
          × (chain (record g { leaf = m.id }) ≡ take (suc k) (chain g))
    unfolding chain chain_up
    kept-IsRewound k m ys h d =
        let i = length walk_up - suc k in
        let behind = reverse (take i walk_up) in
        let size : length ys ≡ k = omega (arith, h, ap length d, length-drop i walk_up) in
        let on =
          drop-climb rank g.nodes ranked i (suc (length g.nodes)) g.leaf (find_node g.leaf g.nodes)
            m ys refl (omega (arith, ranked.bounded g.leaf)) d in
        let halves : walk_up ≡ take i walk_up ++ (m ∷ ys) =
          sym (take-append-drop i walk_up) ∙ ap (λ l. take i walk_up ++ l) d in
        let split : chain g ≡ reverse (m ∷ ys) ++ behind =
          ap reverse halves ∙ reverse-append (take i walk_up) (m ∷ ys) in
        let there : chain g ≡ reverse ys ++ m ∷ behind =
          split
          ∙ ap (λ l. l ++ behind) (reverse-cons m ys)
          ∙ append_assoc (reverse ys) (m ∷ []) behind in
        let count : length (reverse ys) ≡ k = length-reverse ys ∙ size in
        let kept : length (reverse (m ∷ ys)) ≡ suc k = length-reverse (m ∷ ys) ∙ ap suc size in
        (
          ap (λ l. get_elem? l k) there
              ∙ ap (λ n. get_elem? (reverse ys ++ m ∷ behind) n) (sym count)
              ∙ get_elem?-length_append (reverse ys) behind m,
          on.found,
          ap (λ o. reverse (climb (suc (length g.nodes)) g.nodes o)) on.found
              ∙ ap reverse on.walk
              ∙ sym (take-length_append (reverse (m ∷ ys)) behind)
              ∙ ap (λ n. take n (reverse (m ∷ ys) ++ behind)) kept
              ∙ ap (take (suc k)) (sym split),
        )

    length-chain : length (chain g) ≡ length walk_up
    unfolding chain chain_up
    length-chain = length-reverse walk_up

    rewind_to-start : rewind_to "" g ≡ (true, record g { leaf = "" })
    unfolding rewind_to
    rewind_to-start = refl

    start-chain : chain (record g { leaf = "" }) ≡ []
    unfolding chain chain_up climb
    start-chain = rw ranked.unnamed refl

    abbrev target : ℕ → String
    target turn = if turn == 1 then "" else id_of (get_elem? (chain g) (turn - 2))

    to_target :
        (turn : ℕ)
        → 1 ≤ turn
        → turn ≤ length (chain g)
        → (rewind_to (target turn) g ≡ (true, record g { leaf = target turn }))
          × (chain (record g { leaf = target turn }) ≡ take (turn - 1) (chain g))
    to_target zero p q = absurd (omega (arith, p))
    to_target (suc zero) p q = (rewind_to-start, start-chain)
    to_target (suc (suc k)) p q =
        let (m, ys, d) =
          drop_cons (length walk_up - suc k) walk_up (omega (arith, q, length-chain)) in
        let (there, found, kept) = kept-IsRewound k m ys (omega (arith, q, length-chain)) d in
        let no : (suc (suc k) == 1) ≡ false = ground arith in
        let back : suc (suc k) - 2 ≡ k = omega arith in
        let less : suc k ≡ suc (suc k) - 1 = omega arith in
        let own : target (suc (suc k)) ≡ m.id = rw (no, back, there) refl in
        subst
          (λ t.
            (rewind_to t g ≡ (true, record g { leaf = t }))
            × (chain (record g { leaf = t }) ≡ take (suc (suc k) - 1) (chain g)))
          (sym own) (rewind_to-found m.id g m found, kept ∙ ap (λ n. take n (chain g)) less)

    to_target-IsRewound :
        (turn : ℕ)
        → 1 ≤ turn
        → turn ≤ length (chain g)
        → MayRewind turn g
        → IsRewound turn g (rewound (rewind_to (target turn) g))
    to_target-IsRewound turn p q may =
        let (there, kept) = to_target turn p q in
        subst (λ r. IsRewound turn g (rewound r)) (sym there) (may, p, q, refl, kept)

    -- `RewindBefore` refuses exactly a turn that came from a peer, and with another text any other
    -- turn while calls of tools are pending; of the rest it answers false, and changes nothing,
    -- where the conversation has no such turn; and else the conversation is afterwards exactly its
    -- messages before that turn, though all its nodes are kept. The links of the graph lead up, and
    -- no node has the empty id.
    pub rewind_before-IsRewound : (turn : ℕ) → IsRewound turn g (rewind_before turn g)
    unfolding rewind_before
    rewind_before-IsRewound turn = elim (Bool-cases (turn_came_from_peer turn g)) [
      | inl e ↦ rw e (inl (refl, e))
      | inr e ↦ elim (Bool-cases (leaf_has_unfinished_tool_calls g)) [
        | inl f ↦ rw (e, f) (inr (refl, e, f))
        | inr f ↦ elim (Bool-cases (is_no_turn turn g)) [
          | inl h ↦ rw (e, f, h) ((e, f), refl, ground arith)
          | inr h ↦ rw (e, f, h) (to_target-IsRewound turn (ground arith) (ground arith) (e, f))
        ]
      ]
    ]
