-- ===== src/Serve/Watching.antt =====
-- What a page that joins is sent (src/app/serve_runner.cpp).
use mathlib.Core.Option.{some-injective}
use pu_cli.Base.{
  ℕ, zero, suc, ◌-◌, ◌≤◌, true, false, Option, none, some, List, [], ◌∷◌, ◌++◌, ◌≡◌, inl, inr, refl,
  sym, ap, ◌∙◌, subst, arith, append_assoc, append-nil, Bytes, length, length-append, drop, ◌==◌,
  ==_iff, if◌then◌else◌, Bool-cases,
}
use pu_cli.Serve.Runner.{
  TurnRecord, Connection, find_page, change_page, change_last, add_frame, mark_finished, all_frames,
}

pub change_last-append :
    (f : TurnRecord → TurnRecord) (ts : List TurnRecord) (t : TurnRecord)
    → change_last f (ts ++ t ∷ []) ≡ ts ++ f t ∷ []
unfolding change_last
change_last-append f [] t = refl
change_last-append f (u ∷ []) t = refl
change_last-append f (u ∷ v ∷ vs) t = ap (λ l. u ∷ l) (change_last-append f (v ∷ vs) t)

pub drop-append :
    {A : Type 0} (n : ℕ) (xs ys : List A) → n ≤ length xs → drop n (xs ++ ys) ≡ drop n xs ++ ys
drop-append zero xs ys h = refl
drop-append (suc n) [] ys h = absurd (omega (arith, h))
drop-append (suc n) (x ∷ xs) ys h = drop-append n xs ys (omega (arith, h))

all_frames-append :
    (ts us : List TurnRecord) → all_frames (ts ++ us) ≡ all_frames ts ++ all_frames us
unfolding all_frames
all_frames-append [] us = refl
all_frames-append (t ∷ ts) us =
    ap (λ l. t.frames ++ l) (all_frames-append ts us)
    ∙ sym (append_assoc t.frames (all_frames ts) (all_frames us))

-- What `FramesForNextPage` gives of a list of records.
abbrev pub next_frames : List TurnRecord → List Bytes
next_frames ts = all_frames (drop (length ts - 2) ts)

-- The frames of the record before the last.
abbrev earlier_frames : List TurnRecord → List Bytes
earlier_frames ts = all_frames (drop (length ts - 1) ts)

next_frames-append :
    (ts : List TurnRecord) (t : TurnRecord)
    → next_frames (ts ++ t ∷ []) ≡ earlier_frames ts ++ t.frames
unfolding all_frames
next_frames-append ts t =
    let size : length (ts ++ t ∷ []) - 2 ≡ length ts - 1 =
      omega (arith, length-append ts (t ∷ [])) in
    rw (size) (
      ap all_frames (drop-append (length ts - 1) ts (t ∷ []) (omega arith))
      ∙ all_frames-append (drop (length ts - 1) ts) (t ∷ [])
      ∙ ap (λ l. earlier_frames ts ++ l) (append-nil t.frames))

pub next_frames-add_frame :
    (w : Bytes) (ts : List TurnRecord) (t : TurnRecord)
    → next_frames (ts ++ add_frame w t ∷ []) ≡ next_frames (ts ++ t ∷ []) ++ w ∷ []
next_frames-add_frame w ts t =
    next_frames-append ts (add_frame w t)
    ∙ sym (append_assoc (earlier_frames ts) t.frames (w ∷ []))
    ∙ ap (λ l. l ++ w ∷ []) (sym (next_frames-append ts t))

pub next_frames-mark_finished :
    (ts : List TurnRecord) (t : TurnRecord)
    → next_frames (ts ++ mark_finished t ∷ []) ≡ next_frames (ts ++ t ∷ [])
next_frames-mark_finished ts t =
    next_frames-append ts (mark_finished t) ∙ sym (next_frames-append ts t)

find_page-here :
    (c : ℕ) (q : Connection) (ps : List Connection)
    → (q.number == c) ≡ true
    → find_page c (q ∷ ps) ≡ some q
unfolding find_page
find_page-here c q ps h = rw h refl

find_page-past :
    (c : ℕ) (q : Connection) (ps : List Connection)
    → (q.number == c) ≡ false
    → find_page c (q ∷ ps) ≡ find_page c ps
unfolding find_page
find_page-past c q ps h = rw h refl

module _ (f : Connection → Connection) where
  change_page-here :
      (c : ℕ) (q : Connection) (ps : List Connection)
      → (q.number == c) ≡ true
      → change_page c f (q ∷ ps) ≡ f q ∷ ps
  unfolding change_page
  change_page-here c q ps h = rw h refl

  change_page-past :
      (c : ℕ) (q : Connection) (ps : List Connection)
      → (q.number == c) ≡ false
      → change_page c f (q ∷ ps) ≡ q ∷ change_page c f ps
  unfolding change_page
  change_page-past c q ps h = rw h refl

pub not_none : (p : Connection) → ◌≡◌ {A = Option Connection} none (some p) → ⊥
not_none p e = ground arith

-- A change of a page that leaves its number alone.
module _ (f : Connection → Connection) (keeps : (p : Connection) → (f p).number ≡ p.number) where
  still : (c : ℕ) (q : Connection) → ((f q).number == c) ≡ (q.number == c)
  still c q = ap (λ n. n == c) (keeps q)

  pub find_page-change_page :
      (c : ℕ) (ps : List Connection) (p : Connection)
      → find_page c ps ≡ some p
      → find_page c (change_page c f ps) ≡ some (f p)
  unfolding find_page change_page
  find_page-change_page c [] p e = absurd (not_none p e)
  find_page-change_page c (q ∷ ps) p e = elim (Bool-cases (q.number == c)) [
    | inl h ↦
        let same : q ≡ p = some-injective q p (sym (find_page-here c q ps h) ∙ e) in
        ap (find_page c) (change_page-here f c q ps h)
        ∙ find_page-here c (f q) ps (still c q ∙ h)
        ∙ ap (λ r. some (f r)) same
    | inr h ↦
        ap (find_page c) (change_page-past f c q ps h)
        ∙ find_page-past c q (change_page c f ps) h
        ∙ find_page-change_page c ps p (sym (find_page-past c q ps h) ∙ e)
  ]

  pub find_page-change_other :
      (c d : ℕ) (ps : List Connection)
      → (d == c) ≡ false
      → find_page c (change_page d f ps) ≡ find_page c ps
  unfolding find_page change_page
  find_page-change_other c d [] h = refl
  find_page-change_other c d (q ∷ ps) h = elim (Bool-cases (q.number == d)) [
    | inl k ↦
        let other : (q.number == c) ≡ false =
          subst (λ n. (n == c) ≡ false) (sym ((==_iff q.number d).0 k)) h in
        ap (find_page c) (change_page-here f d q ps k)
        ∙ find_page-past c (f q) ps (still c q ∙ other)
        ∙ sym (find_page-past c q ps other)
    | inr k ↦
        ap (find_page c) (change_page-past f d q ps k)
        ∙ ap (λ o. if q.number == c then some q else o) (find_page-change_other c d ps h)
  ]

pub find_page-append :
    (c : ℕ) (ps qs : List Connection) (p : Connection)
    → find_page c ps ≡ some p
    → find_page c (ps ++ qs) ≡ some p
unfolding find_page
find_page-append c [] qs p e = absurd (not_none p e)
find_page-append c (q ∷ ps) qs p e = elim (Bool-cases (q.number == c)) [
  | inl h ↦ find_page-here c q (ps ++ qs) h ∙ sym (find_page-here c q ps h) ∙ e
  | inr h ↦
      find_page-past c q (ps ++ qs) h
      ∙ find_page-append c ps qs p (sym (find_page-past c q ps h) ∙ e)
]
