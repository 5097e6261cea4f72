-- ===== src/Exec/Pieces.antt =====
-- The lines of a text, and the part of it that a budget leaves (src/exec/run.cpp).
use Prim.Native.Nat.{min}
use pu_cli.Base.{
  ℕ, zero, suc, ◌+◌, ◌-◌, ◌≤◌, List, [], ◌∷◌, ◌++◌, ◌≡◌, inl, inr, refl, ap, ◌∙◌, arith,
  append_assoc, Bytes, length, take, drop, length-drop, take-append-drop, leb, Bool-cases,
}
use pu_cli.Exec.Capture.{count_newlines, last_of, drop_size, drop_rounds}

abbrev pub concat : List Bytes → Bytes
concat [] = []
concat (s ∷ ss) = s ++ concat ss

pub count_newlines-append :
    (s t : Bytes) → count_newlines (s ++ t) ≡ count_newlines s + count_newlines t
unfolding count_newlines
count_newlines-append [] t = omega arith
count_newlines-append (b ∷ s) t = ground (arith, count_newlines-append s t)

pub last_of-append :
    (before : ℕ) (s t : Bytes) → last_of before (s ++ t) ≡ last_of (last_of before s) t
last_of-append before [] t = refl
last_of-append before (b ∷ s) t = last_of-append b s t

take-min : (n : ℕ) (t : Bytes) → take n t ≡ take (min (length t) n) t
take-min zero [] = refl
take-min zero (b ∷ t) = let e : min (suc (length t)) 0 ≡ 0 = omega arith in rw e
take-min (suc n) [] = let e : min 0 (suc n) ≡ 0 = omega arith in rw e
take-min (suc n) (b ∷ t) =
    let e : min (suc (length t)) (suc n) ≡ suc (min (length t) n) = omega arith in
    rw e (ap (λ u. b ∷ u) (take-min n t))

pub take-append :
    (n : ℕ) (s t : Bytes)
    → take n (s ++ t) ≡ take n s ++ take (min (length t) (n - length (take n s))) t
take-append zero s t = let e : min (length t) 0 ≡ 0 = omega arith in rw e
take-append (suc n) [] t = let e : suc n - 0 ≡ suc n = omega arith in rw e (take-min (suc n) t)
take-append (suc n) (b ∷ s) t =
    let e : suc n - suc (length (take n s)) ≡ n - length (take n s) = omega arith in
    rw e (ap (λ u. b ∷ u) (take-append n s t))

pub drop_rounds-short : (fuel n : ℕ) (s : Bytes) → length s ≤ n → drop_rounds fuel n s ≡ s
unfolding drop_rounds
drop_rounds-short zero n s h = refl
drop_rounds-short (suc fuel) n s h = ground arith

pub drop_size_bounds : (n : ℕ) (s : Bytes) → length s - n ≤ drop_size n s
unfolding drop_size
drop_size_bounds n s = ground arith

-- What is left fits, and is the end of what there was.
pub drop_rounds_fits :
    (fuel n : ℕ) (s : Bytes) → length s ≤ fuel → length (drop_rounds fuel n s) ≤ n
unfolding drop_rounds
drop_rounds_fits zero n s h = omega arith
drop_rounds_fits (suc fuel) n s h = ground (
  arith,
  drop_size_bounds n s,
  length-drop (drop_size n s) s,
  drop_rounds-short fuel n (drop (drop_size n s) s),
)

pub drop_rounds_end : (fuel n : ℕ) (s : Bytes) → (gone : Bytes) × (gone ++ drop_rounds fuel n s ≡ s)
unfolding drop_rounds
drop_rounds_end zero n s = ([], refl)
drop_rounds_end (suc fuel) n s = elim (Bool-cases (leb (length s) n)) [
  | inl fits ↦ ([], rw fits)
  | inr long ↦
      let d = drop_size n s in
      let (gone, e) = drop_rounds_end fuel n (drop d s) in
      (
        take d s ++ gone,
        rw long (
            append_assoc (take d s) gone (drop_rounds fuel n (drop d s))
            ∙ ap (λ t. take d s ++ t) e
            ∙ take-append-drop d s),
      )
]
