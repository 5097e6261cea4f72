-- ===== src/Exec/Ending.antt =====
-- How much of the end of a text `DropToBudget` leaves (src/exec/run.cpp).
use pu_cli.Base.{
  ℕ, zero, suc, ◌+◌, ◌-◌, ◌≤◌, ◌<◌, some, false, [], ◌∷◌, ◌++◌, ◌≡◌, inl, inr, refl, sym, ap, ◌∙◌,
  arith, append_assoc, Bytes, length, take, drop, length-append, length-drop, take-append-drop,
  drop-length_append, ◌==◌, ==_iff, leb, Bool-cases, Option-cases,
}
use pu_cli.Paging.Data.{newline}
use pu_cli.Exec.Capture.{count_newlines, find_newline, drop_size, drop_rounds}
use pu_cli.Exec.Pieces.{drop_rounds-short, drop_size_bounds}

-- What is kept fills the budget, or would with the line before it, or with a part of that line.
pub data IsFull (n : ℕ) (gone t : Bytes) : Type 0 where
  by_itself : n ≤ length t → IsFull n gone t
  with_line :
      (older line : Bytes)
      → gone ≡ older ++ (line ++ newline ∷ [])
      → count_newlines line ≡ 0
      → n ≤ length line + 1 + length t
      → IsFull n gone t

-- Where the first newline stands, or that there is none.
record IsFirst (s : Bytes) (i : ℕ) : Type 0 where
  line : Bytes
  rest : Bytes
  split : s ≡ line ++ newline ∷ rest
  place : length line ≡ i
  no_newline : count_newlines line ≡ 0

find_newline-IsFirst : (s : Bytes) (i : ℕ) → find_newline s ≡ some i → IsFirst s i
unfolding find_newline count_newlines
find_newline-IsFirst [] i e = absurd (ground arith)
find_newline-IsFirst (b ∷ s) i e = elim (Bool-cases (b == newline)) [
  | inl at ↦ record {
    line = [];
    rest = s;
    split = ap (λ c. c ∷ s) ((==_iff b newline).0 at);
    place = ground arith;
    no_newline = refl;
  }
  | inr past ↦ elim (Option-cases (find_newline s)) [
    | inl f ↦ absurd (ground arith)
    | inr (k, f) ↦
        let later = find_newline-IsFirst s k f in
        record {
          line = b ∷ later.line;
          rest = later.rest;
          split = ap (λ t. b ∷ t) later.split;
          place = ground (arith, later.place);
          no_newline = rw past later.no_newline;
        }
  ]
]

-- One round of the loop.
drop_round-IsFull :
    (n : ℕ) (s : Bytes)
    → n < length s
    → let t = drop (drop_size n s) s in (gone : Bytes) × (gone ++ t ≡ s) × IsFull n gone t
unfolding drop_size
drop_round-IsFull n s h =
    let cut = length s - n in
    let older = take cut s in
    let tail = drop cut s in
    let size : length tail ≡ n = omega (arith, h, length-drop cut s) in
    let front : length older ≡ cut =
      omega (
        arith,
        h,
        length-drop cut s,
        ap length (take-append-drop cut s),
        length-append older tail,
      ) in
    elim (Option-cases (find_newline tail)) [
      | inl e ↦ rw e (older, take-append-drop cut s, by_itself (omega (arith, size)))
      | inr (i, e) ↦
          let f = find_newline-IsFirst tail i e in
          let gone = older ++ (f.line ++ newline ∷ []) in
          let whole : gone ++ f.rest ≡ s =
            append_assoc older (f.line ++ newline ∷ []) f.rest
            ∙ ap (λ t. older ++ t) (append_assoc f.line (newline ∷ []) f.rest ∙ sym f.split)
            ∙ take-append-drop cut s in
          let passed : cut + i + 1 ≡ length gone = omega (
            arith,
            front,
            f.place,
            length-append older (f.line ++ newline ∷ []),
            length-append f.line (newline ∷ []),
          ) in
          let left : drop (cut + i + 1) s ≡ f.rest =
            ap (λ m. drop m s) passed
            ∙ ap (drop (length gone)) (sym whole)
            ∙ drop-length_append gone f.rest in
          let fills : n ≤ length f.line + 1 + length f.rest =
            omega (arith, size, ap length f.split, length-append f.line (newline ∷ f.rest)) in
          rw (e, left) (gone, whole, with_line older f.line refl f.no_newline fills)
    ]

-- What `DropToBudget` leaves of a text over the budget.
pub drop_rounds-IsFull :
    (fuel n : ℕ) (s : Bytes)
    → length s ≤ fuel
    → n < length s
    → let t = drop_rounds fuel n s in (gone : Bytes) × (gone ++ t ≡ s) × IsFull n gone t
unfolding drop_rounds
drop_rounds-IsFull zero n s h k = absurd (omega (arith, h, k))
drop_rounds-IsFull (suc fuel) n s h k =
    let long : leb (length s) n ≡ false = ground (arith, k) in
    let rest = drop (drop_size n s) s in
    let short : drop_rounds fuel n rest ≡ rest =
      drop_rounds-short fuel n rest
        (omega (arith, drop_size_bounds n s, length-drop (drop_size n s) s)) in
    rw (long, short) (drop_round-IsFull n s k)

-- More text behind, or less text kept in front, leaves it full.
pub IsFull-append : (n : ℕ) (gone t chunk : Bytes) → IsFull n gone t → IsFull n gone (t ++ chunk)
IsFull-append n gone t chunk (by_itself h) = by_itself (omega (arith, h, length-append t chunk))
IsFull-append n gone t chunk (with_line older line e z h) =
    with_line older line e z (omega (arith, h, length-append t chunk))

pub IsFull-behind : (n : ℕ) (more gone t : Bytes) → IsFull n gone t → IsFull n (more ++ gone) t
IsFull-behind n more gone t (by_itself h) = by_itself h
IsFull-behind n more gone t (with_line older line e z h) =
    with_line (more ++ older) line
      (ap (λ g. more ++ g) e ∙ sym (append_assoc more older (line ++ newline ∷ []))) z h
