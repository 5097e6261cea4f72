-- ===== src/Session/Supersession.antt =====
-- Which pages `SupersededPages` (src/session/request.cpp) replaces.
use pu_cli.Base.{
  ℕ, suc, ◌≤◌, ◌<◌, String, true, Option, none, some, List, [], ◌∷◌, ◌++◌, ◌≡◌, ◌⊎◌, inl, inr, refl,
  subst, arith, ltb, if◌then◌else◌, str_eq, eq_iff, All, get_elem?, length, Bool-cases,
}
use pu_cli.Session.Message.{Origin}
use pu_cli.Session.Request.{Newer, newer_of, superseding, newest, superseded_from, superseded_pages}

-- No page of a source is of a newer run than a rank.
abbrev pub IsAtMost : String → ℕ → Option Origin → Type 0
IsAtMost source rank none = Unit
IsAtMost source rank (some p) = p.source ≡ source → p.rank ≤ rank

-- Some page of a source, at a place of the list.
record Run (source : String) (os : List (Option Origin)) (n : Newer) : Type 0 where
  place : ℕ
  page : Origin
  there : get_elem? os place ≡ some (some page)
  same : page.source ≡ source
  rank : page.rank ≡ n.rank
  buffer : page.buffer ≡ n.buffer

record Newest (source : String) (os : List (Option Origin)) (n : Newer) : Type 0 where
  bound : All (IsAtMost source n.rank) os
  run : (n.rank ≡ 0) ⊎ Run source os n

Run-later :
    (source : String) (os : List (Option Origin)) (o : Option Origin) (n : Newer)
    → Run source os n
    → Run source (o ∷ os) n
Run-later source os o n r = record {
  place = suc r.place;
  page = r.page;
  there = r.there;
  same = r.same;
  rank = r.rank;
  buffer = r.buffer;
}

Newest-later :
    (source : String) (os : List (Option Origin)) (o : Option Origin) (n : Newer)
    → Newest source os n
    → IsAtMost source n.rank o
    → Newest source (o ∷ os) n
Newest-later source os o n w a = record {
  bound = (a, w.bound);
  run = elim w.run [ inl z ↦ inl z | inr r ↦ inr (Run-later source os o n r) ];
}

All-IsAtMost :
    (source : String) (low high : ℕ) (os : List (Option Origin))
    → low ≤ high
    → All (IsAtMost source low) os
    → All (IsAtMost source high) os
All-IsAtMost source low high [] h a = a
All-IsAtMost source low high (none ∷ os) h a = (a.0, All-IsAtMost source low high os h a.1)
All-IsAtMost source low high (some p ∷ os) h a =
    ((λ e. omega (arith, a.0 e)), All-IsAtMost source low high os h a.1)

str_eq-≡ : (s t : String) → str_eq s t ≡ true → s ≡ t
str_eq-≡ s t e = ground (arith, eq_iff s t)

newest-Newest :
    (page : Origin) (os : List (Option Origin)) (n : Newer)
    → Newest page.source os n
    → Newest page.source (some page ∷ os) (newest page n)
newest-Newest page os n w = elim (Bool-cases (ltb n.rank page.rank)) [
  | inl newer ↦ rw newer (record {
    bound =
        ((λ e. omega arith), All-IsAtMost page.source n.rank page.rank os (ground arith) w.bound);
    run =
        inr (record {
          place = 0;
          page = page;
          there = refl;
          same = refl;
          rank = refl;
          buffer = refl;
        });
  })
  | inr older ↦ rw older (Newest-later page.source os (some page) n w (λ e. ground arith))
]

newer_of-page :
    (source : String) (page : Origin) (os : List (Option Origin)) (m : List (String × Newer))
    → Newest page.source os (newer_of page.source m)
    → Newest source os (newer_of source m)
    → Newest source (some page ∷ os) (
        if str_eq page.source source
        then newest page (newer_of page.source m)
        else newer_of source m)
newer_of-page source page os m mine its = elim (Bool-cases (str_eq page.source source)) [
  | inl same ↦ rw same (
      subst (λ t. Newest t (some page ∷ os) (newest page (newer_of page.source m)))
        (str_eq-≡ page.source source same) (newest-Newest page os (newer_of page.source m) mine))
  | inr other ↦ rw other (
      Newest-later source os (some page) (newer_of source m) its
        (λ e. absurd (ground (arith, eq_iff page.source source))))
]

newer_of-Newest :
    (source : String) (os : List (Option Origin))
    → Newest source os (newer_of source (superseded_from os).1)
unfolding superseded_from newer_of
newer_of-Newest source [] = record { bound = tt; run = inl refl }
newer_of-Newest source (none ∷ os) =
    Newest-later source os none (newer_of source (superseded_from os).1) (newer_of-Newest source os)
      tt
newer_of-Newest source (some page ∷ os) =
    newer_of-page source page os (superseded_from os).1 (newer_of-Newest page.source os)
      (newer_of-Newest source os)

-- What happens to a page, by the pages that stand after it: it is kept if none of its source is of a
-- newer run; else the newest such run takes its place.
pub data Receipt (page : Origin) (after : List (Option Origin)) : Option String → Type 0 where
  kept : All (IsAtMost page.source page.rank) after → Receipt page after none
  superseded :
      (place : ℕ) (later : Origin)
      → get_elem? after place ≡ some (some later)
      → later.source ≡ page.source
      → page.rank < later.rank
      → All (IsAtMost page.source later.rank) after
      → Receipt page after (some later.buffer)

superseding-Receipt :
    (page : Origin) (after : List (Option Origin)) (n : Newer)
    → Newest page.source after n
    → Receipt page after (superseding page n)
superseding-Receipt page after n w = elim (Bool-cases (ltb page.rank n.rank)) [
  | inl newer ↦ rw newer (elim w.run [
    | inl z ↦ absurd (ground arith)
    | inr r ↦
        subst (λ t. Receipt page after (some t)) r.buffer
          (superseded r.place r.page r.there r.same (ground (arith, r.rank))
            (All-IsAtMost page.source n.rank r.page.rank after (omega (arith, r.rank)) w.bound))
  ])
  | inr older ↦
      rw older (kept (All-IsAtMost page.source n.rank page.rank after (ground arith) w.bound))
]

-- The place of each page in what the walk gives is that of the page in the chain, and what stands
-- there is what happens to the page by the pages that stand after it: `none` if none of its source is
-- of a newer run, and else the buffer of the newest such run.
pub superseded_pages-Receipt :
    (before after : List (Option Origin)) (page : Origin)
    → (o : Option String) × (get_elem?
          (superseded_pages (before ++ some page ∷ after))
          (length before)
        ≡ some o)
      × Receipt page after o
unfolding superseded_pages superseded_from
superseded_pages-Receipt [] after page =
    let n = newer_of page.source (superseded_from after).1 in
    (superseding page n, refl, superseding-Receipt page after n (newer_of-Newest page.source after))
superseded_pages-Receipt (none ∷ before) after page = superseded_pages-Receipt before after page
superseded_pages-Receipt (some p ∷ before) after page = superseded_pages-Receipt before after page
