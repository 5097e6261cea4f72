-- ===== src/Board/Shown.antt =====
-- What a page of the board and a peer's digest leave out (src/serve/board.cpp).
use Prim.Native.String.{◌++◌ as text_append, len}
use text.Mathlib.TextPositions.{len-append}
use pu_cli.Base.{
  ℕ, suc, ◌+◌, ◌≤◌, ◌≡◌, refl, ap, String, Bool, true, false, Option, List, [], ◌∷◌, length, take,
  length-take, arith, map, Bool-cases, inl, inr, str_eq, eq_iff, is_empty, not, ◌&&◌,
}
use pu_cli.Board.Job.{Job}
use pu_cli.Board.Store.{Board, count_open}
use pu_cli.Board.Views.{
  max_settled_shown, insert_newest, sort_newest, open_jobs, settled_jobs, render, page,
}
use pu_cli.Board.Digest.{held_lines, ended_lines, is_held, is_ended, block, digest, concat_texts}

length-map : {A B : Type 0} (f : A → B) (xs : List A) → length (map f xs) ≡ length xs
length-map f [] = refl
length-map f (x ∷ xs) = omega (arith, length-map f xs)

length-insert_newest : (j : Job) (js : List Job) → length (insert_newest j js) ≡ suc (length js)
unfolding insert_newest
length-insert_newest j [] = refl
length-insert_newest j (k ∷ js) = ground (arith, length-insert_newest j js)

length-sort_newest : (js : List Job) → length (sort_newest js) ≡ length js
unfolding sort_newest
length-sort_newest [] = refl
length-sort_newest (j ∷ js) =
    omega (arith, length-sort_newest js, length-insert_newest j (sort_newest js))

length-open_jobs : (js : List Job) → length (open_jobs js) ≡ count_open js
unfolding open_jobs count_open
length-open_jobs [] = refl
length-open_jobs (j ∷ js) = ground (arith, length-open_jobs js)

length-settled_jobs : (js : List Job) → count_open js + length (settled_jobs js) ≡ length js
unfolding settled_jobs count_open
length-settled_jobs [] = refl
length-settled_jobs (j ∷ js) = ground (arith, length-settled_jobs js)

-- A page shows every unfinished job, and at most 3 of the others: all of them if there are no more.
pub page-length :
    (parse_stamp : String → Option ℕ) (now : String) (b : Board)
    → let p = page parse_stamp now b in
      (length p.unfinished ≡ count_open b.jobs)
      × (length p.settled ≤ max_settled_shown)
      × (length b.jobs ≤ count_open b.jobs + max_settled_shown
          → length p.unfinished + length p.settled ≡ length b.jobs)
unfolding page
page-length parse_stamp now b =
    let shown = take max_settled_shown (sort_newest (settled_jobs b.jobs)) in
    let o = length-map (render parse_stamp now) (open_jobs b.jobs) in
    let s = length-map (render parse_stamp now) shown in
    let t = length-take max_settled_shown (sort_newest (settled_jobs b.jobs)) in
    let w = length-sort_newest (settled_jobs b.jobs) in
    let n = length-open_jobs b.jobs in
    let c = length-settled_jobs b.jobs in
    (omega (arith, o, n), omega (arith, s, t), (λ h. omega (arith, o, n, s, t, w, c, h)))

abbrev heading : String
heading = "=== Peer Board ===\n"

str_eq-heading : (t : String) → str_eq (text_append heading t) "" ≡ false
str_eq-heading t = elim (Bool-cases (str_eq (text_append heading t) "")) [
  | inl e ↦
      let same : text_append heading t ≡ "" = (eq_iff (text_append heading t) "").0 e in
      absurd (omega (arith, len-append heading t, ap len same))
  | inr e ↦ e
]

and_false : (a : Bool) → a && false ≡ false
and_false true = refl
and_false false = refl

-- Whether no job of a list is one that a digest tells of.
abbrev pub is_quiet : String → List Job → Bool
is_quiet peer [] = true
is_quiet peer (j ∷ js) = not (is_held peer j) && not (is_ended peer j) && is_quiet peer js

module _ (parse_stamp : String → Option ℕ) (number : ℕ → String) (now : String) where
  lines-is_quiet :
      (peer : String) (js : List Job)
      → is_empty (held_lines parse_stamp number now peer js)
          && is_empty (ended_lines parse_stamp number now peer js)
        ≡ is_quiet peer js
  unfolding held_lines ended_lines
  lines-is_quiet peer [] = refl
  lines-is_quiet peer (j ∷ js) = elim (Bool-cases (is_held peer j)) [
    | inl held ↦ rw held
    | inr apart ↦ elim (Bool-cases (is_ended peer j)) [
      | inl ended ↦
          rw (apart, ended, and_false (is_empty (held_lines parse_stamp number now peer js)))
      | inr other ↦ rw (apart, other, lines-is_quiet peer js)
    ]
  ]

  -- The digest of a named peer is empty just if it holds no unfinished job and none that it handed out
  -- has ended.
  pub digest-is_quiet :
      (peer : String) (b : Board)
      → str_eq peer "" ≡ false
      → str_eq (digest parse_stamp number now peer b) "" ≡ is_quiet peer b.jobs
  unfolding digest concat_texts
  digest-is_quiet peer b n =
      rw (n, lines-is_quiet peer b.jobs)
        (elim (Bool-cases (is_quiet peer b.jobs)) [
          | inl q ↦ rw q
          | inr l ↦ rw l (
              str_eq-heading (
                text_append
                  (block "Jobs you hold, which only you can move:\n"
                    (held_lines parse_stamp number now peer b.jobs))
                  (text_append
                    (block "Jobs you handed out that have since closed:\n"
                      (ended_lines parse_stamp number now peer b.jobs))
                    "")))
        ])
