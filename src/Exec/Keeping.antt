-- ===== src/Exec/Keeping.antt =====
-- What a capture of src/exec/run.cpp holds while a stream arrives.
use pu_cli.Base.{
  ℕ, zero, suc, ◌*◌, ◌≤◌, ◌<◌, Bool, true, false, List, [], ◌∷◌, ◌++◌, ◌≡◌, inl, inr, refl, sym,
  subst, ap, ◌∙◌, arith, append_assoc, append-nil, Bytes, length, take, length-append, length-take,
  ltb, Bool-cases,
}
use pu_cli.Paging.Data.{newline}
use pu_cli.Exec.Capture.{
  Keep, head, end, count_newlines, last_of, Capture, new_capture, drop_rounds, drop_to_budget,
  counted, append_head, append_end, append_kept, append, append_all,
}
use pu_cli.Exec.Pieces.{
  concat, count_newlines-append, last_of-append, take-append, drop_rounds_fits,
}
use pu_cli.Exec.Ending.{IsFull, drop_rounds-IsFull, IsFull-append, IsFull-behind}

-- What each mode has of the stream so far.
abbrev pub Holds : Keep → ℕ → Bytes → Bytes → Bool → Type 0
Holds head n s t cut = (t ≡ take n s) × (cut ≡ ltb n (length s))
Holds end n s t cut =
    (gone : Bytes) × (gone ++ t ≡ s)
    × (length t * 4 ≤ n * 5)
    × (cut ≡ false → gone ≡ [])
    × (cut ≡ true → IsFull n gone t)

pub record IsCounting (keep : Keep) (n : ℕ) (s : Bytes) (c : Capture) : Type 0 where
  pub same_budget : c.max_bytes ≡ n
  pub same_keep : c.keep ≡ keep
  pub bytes_seen : c.bytes ≡ length s
  pub newlines_seen : c.newlines ≡ count_newlines s
  pub last_seen : c.last ≡ last_of newline s

-- The text of a capture, with and without a budget.
abbrev pub IsHolding : Keep → ℕ → Bytes → Capture → Type 0
IsHolding keep zero s c = (c.text ≡ s) × (c.truncated ≡ false)
IsHolding keep (suc n) s c = Holds keep (suc n) s c.text c.truncated

counted-IsCounting :
    (keep : Keep) (n : ℕ) (s chunk : Bytes) (c : Capture)
    → IsCounting keep n s c
    → IsCounting keep n (s ++ chunk) (counted chunk c)
counted-IsCounting keep n s chunk c i = record {
  same_budget = i.same_budget;
  same_keep = i.same_keep;
  bytes_seen = omega (arith, i.bytes_seen, length-append s chunk);
  newlines_seen = omega (arith, i.newlines_seen, count_newlines-append s chunk);
  last_seen = ap (λ b. last_of b chunk) i.last_seen ∙ sym (last_of-append newline s chunk);
}

append-unbounded :
    (b : ℕ) (chunk : Bytes) (c : Capture)
    → c.max_bytes ≡ 0
    → append (b ∷ chunk) c ≡ record (counted (b ∷ chunk) c) { text = c.text ++ b ∷ chunk }
unfolding append
append-unbounded b chunk c z = ground arith

append-head :
    (b n : ℕ) (chunk : Bytes) (c : Capture)
    → c.max_bytes ≡ suc n
    → c.keep ≡ head
    → append (b ∷ chunk) c ≡ append_head (b ∷ chunk) (counted (b ∷ chunk) c)
unfolding append
append-head b n chunk c z k = ground arith

pub append-end :
    (b n : ℕ) (chunk : Bytes) (c : Capture)
    → c.max_bytes ≡ suc n
    → c.keep ≡ end
    → append (b ∷ chunk) c ≡ append_end (b ∷ chunk) (counted (b ∷ chunk) c)
unfolding append
append-end b n chunk c z k = ground arith

append_head-Holds :
    (n : ℕ) (s chunk : Bytes) (c : Capture)
    → c.max_bytes ≡ n
    → Holds head n s c.text c.truncated
    → let d = append_head chunk c in Holds head n (s ++ chunk) d.text d.truncated
append_head-Holds n s chunk c z (t, u) = (
  rw (t, z) (sym (take-append n s chunk)),
  rw (t, u, z) (ground (arith, length-take n s, length-append s chunk)),
)

append_end-over :
    (chunk : Bytes) (c : Capture)
    → ltb (c.max_bytes * 5) (length (c.text ++ chunk) * 4) ≡ true
    → (append_end chunk c).text
      ≡ drop_rounds (length (c.text ++ chunk)) c.max_bytes (c.text ++ chunk)
unfolding append_end drop_to_budget
append_end-over chunk c o = rw o

append_end-over_cut :
    (chunk : Bytes) (c : Capture)
    → ltb (c.max_bytes * 5) (length (c.text ++ chunk) * 4) ≡ true
    → (append_end chunk c).truncated ≡ true
unfolding append_end drop_to_budget
append_end-over_cut chunk c o =
    let long : ltb c.max_bytes (length (c.text ++ chunk)) ≡ true = ground (arith, o) in
    rw (o, long) (ground arith)

append_end-within_cut :
    (chunk : Bytes) (c : Capture)
    → ltb (c.max_bytes * 5) (length (c.text ++ chunk) * 4) ≡ false
    → (append_end chunk c).truncated ≡ c.truncated
unfolding append_end drop_to_budget
append_end-within_cut chunk c o = rw o

append_end-within :
    (chunk : Bytes) (c : Capture)
    → ltb (c.max_bytes * 5) (length (c.text ++ chunk) * 4) ≡ false
    → (append_end chunk c).text ≡ c.text ++ chunk
unfolding append_end drop_to_budget
append_end-within chunk c o = rw o

append_end-Holds :
    (n : ℕ) (s chunk : Bytes) (c : Capture)
    → c.max_bytes ≡ n
    → Holds end n s c.text c.truncated
    → let d = append_end chunk c in Holds end n (s ++ chunk) d.text d.truncated
append_end-Holds n s chunk c z (gone, e, h, uncut, full) =
    let all = c.text ++ chunk in
    let whole : gone ++ all ≡ s ++ chunk =
      sym (append_assoc gone c.text chunk) ∙ ap (λ t. t ++ chunk) e in
    elim (Bool-cases (ltb (c.max_bytes * 5) (length all * 4))) [
      | inl over ↦
          let long : c.max_bytes < length all = ground (arith, over) in
          let (more, f, fills) =
            drop_rounds-IsFull (length all) c.max_bytes all (omega arith) long in
          let fits = drop_rounds_fits (length all) c.max_bytes all (omega arith) in
          rw (append_end-over chunk c over, append_end-over_cut chunk c over)
            (
              gone ++ more,
              append_assoc gone more (drop_rounds (length all) c.max_bytes all)
                  ∙ ap (λ t. gone ++ t) f
                  ∙ whole,
              omega (arith, fits, z),
              (λ h. absurd (ground arith)),
              (λ h.
                  subst (λ m. IsFull m (gone ++ more) (drop_rounds (length all) c.max_bytes all)) z
                    (IsFull-behind c.max_bytes gone more _ fills)),
            )
      | inr within ↦
          rw (append_end-within chunk c within, append_end-within_cut chunk c within)
            (gone, whole, ground (arith, z), uncut, λ h. IsFull-append n gone c.text chunk (full h))
    ]

pub record IsKept (keep : Keep) (n : ℕ) (s : Bytes) (c : Capture) : Type 0 where
  pub counts : IsCounting keep n s c
  pub holds : IsHolding keep n s c

new_capture-IsHolding : (keep : Keep) (n : ℕ) → IsHolding keep n [] (new_capture n keep)
new_capture-IsHolding keep zero = (refl, refl)
new_capture-IsHolding head (suc n) = (refl, ground arith)
new_capture-IsHolding end (suc n) =
    ([], refl, omega arith, (λ h. refl), (λ h. absurd (ground arith)))

append-IsHolding :
    (keep : Keep) (n b : ℕ) (s chunk : Bytes) (c : Capture)
    → IsKept keep n s c
    → IsHolding keep n (s ++ b ∷ chunk) (append (b ∷ chunk) c)
append-IsHolding keep zero b s chunk c k =
    rw (append-unbounded b chunk c k.counts.same_budget)
      (ap (λ t. t ++ b ∷ chunk) k.holds.0, k.holds.1)
append-IsHolding head (suc n) b s chunk c k =
    rw (append-head b n chunk c k.counts.same_budget k.counts.same_keep)
      (append_head-Holds (suc n) s (b ∷ chunk) (counted (b ∷ chunk) c) k.counts.same_budget k.holds)
append-IsHolding end (suc n) b s chunk c k =
    rw (append-end b n chunk c k.counts.same_budget k.counts.same_keep)
      (append_end-Holds (suc n) s (b ∷ chunk) (counted (b ∷ chunk) c) k.counts.same_budget k.holds)

abbrev Counts : Type 0
Counts = ℕ × Keep × ℕ × ℕ × ℕ

abbrev counts_of : Capture → Counts
counts_of c = (c.max_bytes, c.keep, c.bytes, c.newlines, c.last)

append_kept-counts_of :
    (keep : Keep) (chunk : Bytes) (c : Capture) → counts_of (append_kept keep chunk c) ≡ counts_of c
unfolding append_end drop_to_budget
append_kept-counts_of head chunk c = refl
append_kept-counts_of end chunk c = ground arith

append-counts_of :
    (b : ℕ) (chunk : Bytes) (c : Capture)
    → counts_of (append (b ∷ chunk) c) ≡ counts_of (counted (b ∷ chunk) c)
unfolding append
append-counts_of b chunk c =
    ground (arith, append_kept-counts_of c.keep (b ∷ chunk) (counted (b ∷ chunk) c))

-- A capture counts a chunk whatever it keeps of it.
append-IsCounting :
    (keep : Keep) (n b : ℕ) (s chunk : Bytes) (c : Capture)
    → IsCounting keep n s c
    → IsCounting keep n (s ++ b ∷ chunk) (append (b ∷ chunk) c)
append-IsCounting keep n b s chunk c i =
    let e = append-counts_of b chunk c in
    let j = counted-IsCounting keep n s (b ∷ chunk) c i in
    record {
      same_budget = ap (λ t. t.0) e ∙ j.same_budget;
      same_keep = ap (λ t. t.1) e ∙ j.same_keep;
      bytes_seen = ap (λ t. t.2) e ∙ j.bytes_seen;
      newlines_seen = ap (λ t. t.3) e ∙ j.newlines_seen;
      last_seen = ap (λ t. t.4) e ∙ j.last_seen;
    }

append-IsKept :
    (keep : Keep) (n : ℕ) (s chunk : Bytes) (c : Capture)
    → IsKept keep n s c
    → IsKept keep n (s ++ chunk) (append chunk c)
append-IsKept keep n s [] c k =
    unfold append in subst (λ t. IsKept keep n t c) (sym (append-nil s)) k
append-IsKept keep n s (b ∷ chunk) c k = record {
  counts = append-IsCounting keep n b s chunk c k.counts;
  holds = append-IsHolding keep n b s chunk c k;
}

pub append_all-IsKept :
    (keep : Keep) (n : ℕ) (chunks : List Bytes) (s : Bytes) (c : Capture)
    → IsKept keep n s c
    → IsKept keep n (s ++ concat chunks) (append_all chunks c)
unfolding append_all
append_all-IsKept keep n [] s c k = subst (λ t. IsKept keep n t c) (sym (append-nil s)) k
append_all-IsKept keep n (chunk ∷ chunks) s c k =
    subst (λ t. IsKept keep n t (append_all chunks (append chunk c)))
      (append_assoc s chunk (concat chunks))
      (append_all-IsKept keep n chunks (s ++ chunk) (append chunk c)
        (append-IsKept keep n s chunk c k))

pub new_capture-IsKept : (keep : Keep) (n : ℕ) → IsKept keep n [] (new_capture n keep)
new_capture-IsKept keep n = record {
  counts = record {
    same_budget = refl;
    same_keep = refl;
    bytes_seen = refl;
    newlines_seen = unfold count_newlines in refl;
    last_seen = refl;
  };
  holds = new_capture-IsHolding keep n;
}
