-- ===== src/Exec/Overrun.antt =====
-- Output of a size between the budget and a quarter more, kept from its end (src/exec/run.cpp).
use pu_cli.Base.{
  ℕ, suc, ◌*◌, ◌≤◌, ◌<◌, false, List, [], ◌∷◌, ◌++◌, ◌≡◌, refl, sym, ap, arith, append_assoc,
  append-nil, Bytes, length, length-append, ltb, subst,
}
use pu_cli.Exec.Capture.{
  end, Capture, new_capture, drop_to_budget, counted, append_end, append, take_captured, append_all,
}
use pu_cli.Exec.Pieces.{concat}
use pu_cli.Exec.Keeping.{append-end}

-- A capture that has kept all of a stream.
record HasAll (n : ℕ) (s : Bytes) (c : Capture) : Type 0 where
  budget : c.max_bytes ≡ suc n
  from_end : c.keep ≡ end
  all : c.text ≡ s
  uncut : c.truncated ≡ false

append_end-short :
    (chunk : Bytes) (c : Capture)
    → ltb (c.max_bytes * 5) (length (c.text ++ chunk) * 4) ≡ false
    → append_end chunk c ≡ record c { text = c.text ++ chunk }
unfolding append_end drop_to_budget
append_end-short chunk c o = rw o

append-HasAll :
    (n : ℕ) (s chunk : Bytes) (c : Capture)
    → HasAll n s c
    → length (s ++ chunk) * 4 ≤ suc n * 5
    → HasAll n (s ++ chunk) (append chunk c)
append-HasAll n s [] c w h = unfold append in subst (λ t. HasAll n t c) (sym (append-nil s)) w
append-HasAll n s (b ∷ chunk) c w h =
    let grown : c.text ++ b ∷ chunk ≡ s ++ b ∷ chunk = ap (λ t. t ++ b ∷ chunk) w.all in
    let size : length (c.text ++ b ∷ chunk) ≡ length (s ++ b ∷ chunk) = ap length grown in
    let short : ltb (c.max_bytes * 5) (length (c.text ++ b ∷ chunk) * 4) ≡ false =
      ground (arith, size, w.budget) in
    rw
      (
        append-end b n chunk c w.budget w.from_end,
        append_end-short (b ∷ chunk) (counted (b ∷ chunk) c) short,
      )
      (record { budget = w.budget; from_end = w.from_end; all = grown; uncut = w.uncut })

append_all-HasAll :
    (n : ℕ) (chunks : List Bytes) (s : Bytes) (c : Capture)
    → HasAll n s c
    → length (s ++ concat chunks) * 4 ≤ suc n * 5
    → HasAll n (s ++ concat chunks) (append_all chunks c)
unfolding append_all
append_all-HasAll n [] s c w h = subst (λ t. HasAll n t c) (sym (append-nil s)) w
append_all-HasAll n (chunk ∷ chunks) s c w h =
    let joined = append_assoc s chunk (concat chunks) in
    let size = ap length joined in
    let first =
      append-HasAll n s chunk c w
        (omega (arith, size, length-append (s ++ chunk) (concat chunks))) in
    subst (λ t. HasAll n t (append_all chunks (append chunk c))) joined
      (append_all-HasAll n chunks (s ++ chunk) (append chunk c) first (omega (arith, size)))

-- Kept from its end, output that exceeds the budget by up to a quarter is handed over whole, in
-- whatever chunks it arrives: `Take` cuts nothing, although it is over the budget.
pub end_exceeds_budget :
    (n : ℕ) (chunks : List Bytes)
    → suc n < length (concat chunks)
    → length (concat chunks) * 4 ≤ suc n * 5
    → let out = take_captured (append_all chunks (new_capture (suc n) end)) in
      (out.text ≡ concat chunks) × (suc n < length out.text)
unfolding take_captured
end_exceeds_budget n chunks over near =
    let w =
      append_all-HasAll n chunks [] (new_capture (suc n) end)
        (record { budget = refl; from_end = refl; all = refl; uncut = refl }) near in
    rw (w.uncut, w.all) (refl, over)
