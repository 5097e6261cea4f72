-- ===== src/Paging/Pages.antt =====
-- What the pages of `Read` (src/paging/paging.cpp) show: never a line out of bounds, the lines from
-- the place asked for on, and, followed by their `later` cursors, the whole output once.
use Prim.Native.Nat.{min}
use pu_cli.Base.{
  ℕ, zero, suc, ◌+◌, ◌-◌, ◌≤◌, ◌<◌, ◌||◌, some, List, [], ◌∷◌, ◌++◌, ◌≡◌, ◌≢◌, refl, sym, ap, ◌∙◌,
  arith, Bytes, length, take, drop, get_elem?, length-drop, append_assoc, append-nil, ==_iff,
  leb→le, ◌==◌, leb, if◌then◌else◌, inl, inr, Bool-cases, size_mod, size_add,
}
use pu_cli.Paging.Data.{newline, Buffer, lines, Anchor, Page, empty_page, skipped}
use pu_cli.Paging.Reading.{
  start_of, page_text, page_of, read_between, read_from, read, later_of, earlier_of,
}
use pu_cli.Paging.Lines.{split_lines, lines_of, IsIndexed, line-eq-get_elem?}

-- Lines as a page shows them: a newline after each.
abbrev pub join_lines : List Bytes → Bytes
join_lines [] = []
join_lines (l ∷ ls) = (l ++ newline ∷ []) ++ join_lines ls

-- A text with a newline at its end, put there if it lacks one.
abbrev pub complete : Bytes → Bytes
complete [] = []
complete (c ∷ []) = if c == newline then c ∷ [] else c ∷ newline ∷ []
complete (c ∷ d ∷ s) = c ∷ complete (d ∷ s)

join-split_lines : (cur s : Bytes) → s ≢ [] → join_lines (split_lines cur s) ≡ cur ++ complete s
unfolding split_lines
join-split_lines cur [] n = absurd (n refl)
join-split_lines cur (c ∷ []) n = elim (Bool-cases (c == newline)) [
  | inl y ↦ rw (y, (==_iff c newline).0 y) (append-nil (cur ++ newline ∷ []))
  | inr o ↦ rw o (simp (append_assoc, append-nil))
]
join-split_lines cur (c ∷ d ∷ s) n = elim (Bool-cases (c == newline)) [
  | inl y ↦
      rw (y, (==_iff c newline).0 y)
        (simp append_assoc (rw (join-split_lines [] (d ∷ s) (λ z. cc))))
  | inr o ↦ rw o (
      join-split_lines (cur ++ c ∷ []) (d ∷ s) (λ z. cc)
      ∙ append_assoc cur (c ∷ []) (complete (d ∷ s)))
]

pub join-lines_of : (s : Bytes) → join_lines (lines_of s) ≡ complete s
unfolding lines_of
join-lines_of [] = unfold split_lines in refl
join-lines_of (c ∷ s) = join-split_lines [] (c ∷ s) (λ z. cc)

drop-get_elem? :
    (ls : List Bytes) (i : ℕ)
    → i < length ls
    → (l : Bytes) × (get_elem? ls i ≡ some l) × (drop i ls ≡ l ∷ drop (suc i) ls)
drop-get_elem? [] i h = absurd (omega arith)
drop-get_elem? (l ∷ ls) zero h = (l, refl, refl)
drop-get_elem? (l ∷ ls) (suc i) h = drop-get_elem? ls i (omega arith)

pub drop-past : (n : ℕ) (ls : List Bytes) → length ls ≤ n → drop n ls ≡ []
drop-past zero [] h = refl
drop-past zero (l ∷ ls) h = absurd (omega arith)
drop-past (suc n) [] h = refl
drop-past (suc n) (l ∷ ls) h = drop-past n ls (omega arith)

pub take-nil : (n : ℕ) → ◌≡◌ {A = List Bytes} (take n []) []
take-nil zero = refl
take-nil (suc n) = refl

-- Taking as many as there are, or more, is the same.
take-all : (k n : ℕ) (ls : List Bytes) → k ≡ min (length ls) n → take k ls ≡ take n ls
take-all k n [] e = take-nil k ∙ sym (take-nil n)
take-all zero zero (l ∷ ls) e = refl
take-all zero (suc n) (l ∷ ls) e = absurd (omega arith)
take-all (suc k) zero (l ∷ ls) e = absurd (omega arith)
take-all (suc k) (suc n) (l ∷ ls) e = ap (λ t. l ∷ t) (take-all k n ls (omega arith))

pub join_lines-append :
    (ls ms : List Bytes) → join_lines (ls ++ ms) ≡ join_lines ls ++ join_lines ms
join_lines-append [] ms = refl
join_lines-append (l ∷ ls) ms = simp (append_assoc, join_lines-append ls ms)

module _ (b : Buffer) (indexed : IsIndexed b) where
  page_text_lem :
      (i count : ℕ)
      → i + count ≤ length (lines_of b.text)
      → page_text b i count ≡ some (join_lines (take count (drop i (lines_of b.text))))
  unfolding page_text
  page_text_lem i zero h = refl
  page_text_lem i (suc count) h =
      let (l, e, d) = drop-get_elem? (lines_of b.text) i (omega arith) in
      rw ((line-eq-get_elem? b i indexed).0, e, page_text_lem (suc i) count (omega arith), d)

  pub lines_count : lines b ≡ length (lines_of b.text)
  lines_count = (line-eq-get_elem? b 0 indexed).1

  -- The page of at most `count` lines from `start` on.
  abbrev pub expected : ℕ → ℕ → Page
  expected start count = if leb (lines b) start || count == 0 then empty_page else record {
    text = join_lines (take count (drop start (lines_of b.text)));
    first = size_add (size_add start 1) (skipped b.extent);
    last = size_add (min (lines b) (start + count)) (skipped b.extent);
    earlier = earlier_of b.id start count;
    later = later_of b.id (min (lines b) (start + count)) (lines b);
  }

  read_between_lem :
      (start end count : ℕ)
      → start ≤ end
      → end ≤ lines b
      → read_between b start end count
        ≡ page_of b start end count
            (some (join_lines (take (end - start) (drop start (lines_of b.text)))))
  unfolding read_between
  read_between_lem start end count h k =
      rw (page_text_lem start (end - start) (omega (arith, lines_count)))

  take-end :
      (start count : ℕ)
      → start < lines b
      → take (min (lines b) (start + count) - start) (drop start (lines_of b.text))
        ≡ take count (drop start (lines_of b.text))
  take-end start count h =
      take-all (min (lines b) (start + count) - start) count (drop start (lines_of b.text))
        (omega (arith, length-drop start (lines_of b.text), lines_count))

  read_from_lem :
      (start count : ℕ)
      → 0 < count
      → lines b + count < size_mod
      → read_from b start count ≡ some (expected start count)
  unfolding read_from
  read_from_lem start count p h = elim (Bool-cases (leb (lines b) start)) [
    | inl past ↦ rw past
    | inr in_range ↦
        let within : start < lines b = ground arith in
        let no_wrap : size_add start count ≡ start + count = omega arith in
        rw (in_range, no_wrap)
          (read_between_lem start (min (lines b) (start + count)) count (omega arith) (omega arith)
            ∙ rw (take-end start count within) (ground arith))
  ]

  pub read_lem :
      (a : Anchor) (count : ℕ)
      → lines b + count < size_mod
      → read b a count ≡ some (expected (start_of a (lines b) count) count)
  unfolding read
  read_lem a count h = ground (arith, read_from_lem (start_of a (lines b) count) count)

  -- What an expected page shows, also where it is empty.
  pub expected-text :
      (start count : ℕ)
      → (expected start count).text ≡ join_lines (take count (drop start (lines_of b.text)))
  expected-text start zero = elim (Bool-cases (leb (lines b) start)) [
    | inl past ↦ rw past
    | inr within ↦ rw within
  ]
  expected-text start (suc count) = elim (Bool-cases (leb (lines b) start)) [
    | inl past ↦ rw (
      past,
      drop-past start (lines_of b.text) (omega (arith, lines_count, leb→le (lines b) start past)),
    )
    | inr within ↦ rw within (ground arith)
  ]

  pub expected-later :
      (start count : ℕ)
      → start < lines b
      → 0 < count
      → (expected start count).later ≡ later_of b.id (min (lines b) (start + count)) (lines b)
  expected-later start count h p = ground arith

-- A page never reads out of bounds, whatever anchor it is asked from; it shows, each with its newline,
-- the lines of the output from the anchor's place on, at most as many as were asked for.
pub read_text :
    (b : Buffer) (a : Anchor) (count : ℕ)
    → IsIndexed b
    → lines b + count < size_mod
    → (p : Page) × (read b a count ≡ some p)
      × (p.text ≡ join_lines (take count (drop (start_of a (lines b) count) (lines_of b.text))))
read_text b a count v h = (
  expected b v (start_of a (lines b) count) count,
  read_lem b v a count h,
  expected-text b v (start_of a (lines b) count) count,
)
