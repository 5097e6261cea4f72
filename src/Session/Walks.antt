-- ===== src/Session/Walks.antt =====
-- The walk along the parents of a graph of messages, from any node of it
-- (include/pu/session/graph.hpp).
use mathlib.Core.Option.{some-injective}
use mathlib.Core.List.{reverse, reverse_aux}
use pu_cli.Base.{
  ℕ, zero, suc, ◌≤◌, ◌<◌, String, Option, none, some, List, [], ◌∷◌, ◌++◌, ◌≡◌, inl, inr, refl, sym,
  ap, ◌∙◌, subst, arith, append_assoc, append-nil, length, length-append, drop, get_elem?, str_eq,
  eq_iff, Bool-cases,
}
use pu_cli.Session.Message.{MessageNode}
use pu_cli.Session.Graph.{find_node, climb}

module _ {A : Type 0} where
  reverse_aux-eq : (xs r : List A) → reverse_aux xs r ≡ reverse xs ++ r
  reverse_aux-eq [] r = refl
  reverse_aux-eq (x ∷ xs) r =
      reverse_aux-eq xs (x ∷ r)
      ∙ sym (ap (λ l. l ++ r) (reverse_aux-eq xs (x ∷ [])) ∙ append_assoc (reverse xs) (x ∷ []) r)

  pub reverse-cons : (x : A) (xs : List A) → reverse (x ∷ xs) ≡ reverse xs ++ x ∷ []
  reverse-cons x xs = reverse_aux-eq xs (x ∷ [])

  pub reverse-append : (xs ys : List A) → reverse (xs ++ ys) ≡ reverse ys ++ reverse xs
  reverse-append [] ys = sym (append-nil (reverse ys))
  reverse-append (x ∷ xs) ys =
      reverse-cons x (xs ++ ys)
      ∙ ap (λ l. l ++ x ∷ []) (reverse-append xs ys)
      ∙ append_assoc (reverse ys) (reverse xs) (x ∷ [])
      ∙ ap (λ l. reverse ys ++ l) (sym (reverse-cons x xs))

  pub length-reverse : (xs : List A) → length (reverse xs) ≡ length xs
  length-reverse [] = refl
  length-reverse (x ∷ xs) =
      ap length (reverse-cons x xs)
      ∙ length-append (reverse xs) (x ∷ [])
      ∙ omega (arith, length-reverse xs)

  pub drop_cons :
      (i : ℕ) (xs : List A) → i < length xs → (m : A) × (ys : List A) × (drop i xs ≡ m ∷ ys)
  drop_cons i [] h = absurd (omega (arith, h))
  drop_cons zero (x ∷ xs) h = (x, xs, refl)
  drop_cons (suc i) (x ∷ xs) h = drop_cons i xs (omega (arith, h))

  first_or : A → List A → A
  first_or d [] = d
  first_or d (x ∷ xs) = x

  cons_not_nil : (x : A) (xs : List A) → x ∷ xs ≡ [] → ⊥
  cons_not_nil x xs e = ground arith

  drop-nil : (i : ℕ) → ◌≡◌ {A = List A} (drop i []) []
  drop-nil zero = refl
  drop-nil (suc i) = refl

  pub get_elem?-length_append :
      (xs ys : List A) (y : A) → get_elem? (xs ++ y ∷ ys) (length xs) ≡ some y
  get_elem?-length_append [] ys y = refl
  get_elem?-length_append (x ∷ xs) ys y = get_elem?-length_append xs ys y

module _ {J : Type 0} where
  -- The parents of a graph lead up: every node has a rank above its parent's, and no rank is above the
  -- number of nodes. No node has the empty id.
  pub record IsRanked (rank : String → ℕ) (ns : List (MessageNode J)) : Type 0 where
    pub unnamed : find_node "" ns ≡ none
    pub below :
        (id : String) (n : MessageNode J) → find_node id ns ≡ some n → rank n.parent < rank id
    pub bounded : (id : String) → rank id ≤ length ns

  find_node-id :
      (id : String) (ns : List (MessageNode J)) (n : MessageNode J)
      → find_node id ns ≡ some n
      → n.id ≡ id
  unfolding find_node
  find_node-id id [] n e = absurd (ground arith)
  find_node-id id (x ∷ ns) n e = elim (Bool-cases (str_eq x.id id)) [
    | inl h ↦
        let same : x ≡ n = some-injective x n (sym (rw h refl) ∙ e) in
        sym (ap (λ m. m.id) same) ∙ (eq_iff x.id id).0 h
    | inr h ↦ find_node-id id ns n (sym (rw h refl) ∙ e)
  ]

  module _ (rank : String → ℕ) (ns : List (MessageNode J)) (ranked : IsRanked rank ns) where
    climb-enough :
        (f g : ℕ) (id : String) (o : Option (MessageNode J))
        → find_node id ns ≡ o
        → rank id < f
        → rank id < g
        → climb f ns o ≡ climb g ns o
    unfolding climb
    climb-enough zero g id o e p q = absurd (omega (arith, p))
    climb-enough (suc f) zero id o e p q = absurd (omega (arith, q))
    climb-enough (suc f) (suc g) id none e p q = refl
    climb-enough (suc f) (suc g) id (some n) e p q = elim (Bool-cases (str_eq n.parent "")) [
      | inl h ↦ rw h refl
      | inr h ↦ rw h (
          ap (λ l. n ∷ l)
            (climb-enough f g n.parent (find_node n.parent ns) refl
              (omega (arith, p, ranked.below id n e)) (omega (arith, q, ranked.below id n e))))
    ]

    -- A node of the walk up is found under its id, and what is behind it is its own walk up.
    pub record IsOnWalk (m : MessageNode J) (ys : List (MessageNode J)) : Type 0 where
      pub found : find_node m.id ns ≡ some m
      pub walk : climb (suc (length ns)) ns (some m) ≡ m ∷ ys

    pub drop-climb :
        (i f : ℕ) (id : String) (o : Option (MessageNode J)) (m : MessageNode J)
        (ys : List (MessageNode J))
        → find_node id ns ≡ o
        → rank id < f
        → drop i (climb f ns o) ≡ m ∷ ys
        → IsOnWalk m ys
    unfolding climb first_or
    drop-climb i zero id o m ys e p d = absurd (omega (arith, p))
    drop-climb i (suc f) id none m ys e p d = absurd (cons_not_nil m ys (sym d ∙ drop-nil i))
    drop-climb zero (suc f) id (some n) m ys e p d =
        let same : n ≡ m = ap (first_or n) d in
        let own : n.id ≡ id = find_node-id id ns n e in
        let enough =
          climb-enough (suc (length ns)) (suc f) id (some n) e (omega (arith, ranked.bounded id))
            p in
        record {
          found = subst (λ x. find_node x.id ns ≡ some x) same (ap (λ x. find_node x ns) own ∙ e);
          walk = ap (λ x. climb (suc (length ns)) ns (some x)) (sym same) ∙ enough ∙ d;
        }
    drop-climb (suc i) (suc f) id (some n) m ys e p d = elim (Bool-cases (str_eq n.parent "")) [
      | inl h ↦ absurd (cons_not_nil m ys (sym (rw h refl ∙ d) ∙ drop-nil i))
      | inr h ↦
          drop-climb i f n.parent (find_node n.parent ns) m ys refl
            (omega (arith, p, ranked.below id n e)) (sym (rw h refl) ∙ d)
    ]
