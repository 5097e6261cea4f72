-- ===== src/Paging/Retention.antt =====
-- What the store of src/paging/paging.cpp keeps, and how much.
use Prim.Native.Nat.{max}
use pu_cli.Base.{
  ℕ, ◌+◌, ◌≤◌, ◌<◌, true, false, List, [], ◌∷◌, ◌++◌, ◌≡◌, ◌⊎◌, refl, ap, arith, Bytes, length,
  length-append, inl, inr, Bool-cases, size_add, size_sub, size_mod,
}
use pu_cli.Paging.Data.{Verdict, Captured, Buffer, bytes}
use pu_cli.Paging.Store.{Budget, Pager, over_budget, evict, stored, store}

abbrev pub total_bytes : List Buffer → ℕ
total_bytes [] = 0
total_bytes (b ∷ bs) = bytes b + total_bytes bs

total_bytes-append :
    (xs ys : List Buffer) → total_bytes (xs ++ ys) ≡ total_bytes xs + total_bytes ys
total_bytes-append [] ys = omega arith
total_bytes-append (x ∷ xs) ys = omega (arith, total_bytes-append xs ys)

-- What the loop leaves is within the budget, counts the bytes that it holds, and is a tail of what
-- there was, with the newest buffer still in it.
pub record IsKept (budget : Budget) (all : List Buffer) (kept : ℕ × List Buffer) : Type 0 where
  pub counted : kept.0 ≡ total_bytes kept.1
  pub few : length kept.1 ≤ max 1 budget.retain_buffers
  pub light : (kept.0 ≤ budget.retain_bytes) ⊎ (length kept.1 ≡ 1)
  pub gone : List Buffer
  pub tail : gone ++ kept.1 ≡ all
  pub some_left : 0 < length kept.1

evict-over :
    (budget : Budget) (retained : ℕ) (b : Buffer) (bs : List Buffer)
    → over_budget budget retained (b ∷ bs) ≡ true
    → evict budget retained (b ∷ bs) ≡ evict budget (size_sub retained (bytes b)) bs
unfolding evict
evict-over budget retained b bs o = rw o

evict-within :
    (budget : Budget) (retained : ℕ) (b : Buffer) (bs : List Buffer)
    → over_budget budget retained (b ∷ bs) ≡ false
    → evict budget retained (b ∷ bs) ≡ (retained, b ∷ bs)
unfolding evict
evict-within budget retained b bs o = rw o

over_budget-more :
    (budget : Budget) (retained : ℕ) (b : Buffer) (bs : List Buffer)
    → over_budget budget retained (b ∷ bs) ≡ true
    → 0 < length bs
over_budget-more budget retained b bs o = ground arith

over_budget-within :
    (budget : Budget) (retained : ℕ) (bs : List Buffer)
    → over_budget budget retained bs ≡ false
    → 0 < length bs
    → (length bs ≤ max 1 budget.retain_buffers)
      × ((retained ≤ budget.retain_bytes) ⊎ (length bs ≡ 1))
over_budget-within budget retained bs o n = ground arith

IsKept-older :
    (budget : Budget) (b : Buffer) (bs : List Buffer) (kept : ℕ × List Buffer)
    → IsKept budget bs kept
    → IsKept budget (b ∷ bs) kept
IsKept-older budget b bs kept k = record {
  counted = k.counted;
  few = k.few;
  light = k.light;
  gone = b ∷ k.gone;
  tail = ap (λ t. b ∷ t) k.tail;
  some_left = k.some_left;
}

evict-IsKept :
    (budget : Budget) (retained : ℕ) (bs : List Buffer)
    → retained ≡ total_bytes bs
    → total_bytes bs < size_mod
    → 0 < length bs
    → IsKept budget bs (evict budget retained bs)
evict-IsKept budget retained [] e f n = absurd (omega arith)
evict-IsKept budget retained (b ∷ bs) e f n =
    elim (Bool-cases (over_budget budget retained (b ∷ bs))) [
      | inl over ↦ rw (evict-over budget retained b bs over) (
          IsKept-older budget b bs (evict budget (size_sub retained (bytes b)) bs) (
            evict-IsKept budget (size_sub retained (bytes b)) bs (omega arith) (omega arith)
              (over_budget-more budget retained b bs over)))
      | inr within ↦
          let facts = over_budget-within budget retained (b ∷ bs) within (omega arith) in
          rw (evict-within budget retained b bs within) (record {
            counted = e;
            few = facts.0;
            light = facts.1;
            gone = [];
            tail = refl;
            some_left = omega arith;
          })
    ]

-- A pager counts the bytes that it holds.
abbrev pub IsCounted : Pager → Type 0
IsCounted p = p.retained_bytes ≡ total_bytes p.buffers

-- After `Store` the pager holds a tail of the outputs that it held and the new one, the new one among
-- them; at most as many as the budget allows and at least one; no more bytes than the budget allows
-- unless one output is left; and it counts the bytes that it holds.
pub store-IsKept :
    (captured : Captured) (verdict : Verdict) (source_key : Bytes) (p : Pager)
    → IsCounted p
    → total_bytes p.buffers + length captured.text < size_mod
    → let q = (store captured verdict source_key p).1 in
      IsKept p.budget
        (p.buffers ++ (store captured verdict source_key p).0 ∷ [])
        (q.retained_bytes, q.buffers)
unfolding store
store-IsKept captured verdict source_key p c h =
    let b = stored captured verdict source_key p in
    evict-IsKept p.budget (size_add p.retained_bytes (bytes b)) (p.buffers ++ b ∷ [])
      (omega (arith, total_bytes-append p.buffers (b ∷ []), c))
      (omega (arith, total_bytes-append p.buffers (b ∷ [])))
      (omega (arith, length-append p.buffers (b ∷ [])))
