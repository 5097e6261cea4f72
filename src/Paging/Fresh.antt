-- ===== src/Paging/Fresh.antt =====
-- That `Find` of src/paging/paging.cpp finds the output that `Store` has just stored: its id is new.
use pu_cli.Base.{
  ℕ, ◌+◌, ◌<◌, true, Option, none, some, List, [], ◌∷◌, ◌++◌, ◌≡◌, refl, sym, subst, ap, ◌∙◌, arith,
  Bytes, length, length-append, drop, drop-length_append, inl, inr, Bool-cases, size_add, size_mod,
  All, All-append,
}
use pu_cli.Sse.Fields.{bytes_eq}
use pu_cli.Paging.Data.{Verdict, Captured, Buffer}
use pu_cli.Paging.Decimal.{to_string, read_digits, read-to_string}
use pu_cli.Paging.Store.{Pager, stored, store, find_buffer, find, buffer_id}
use pu_cli.Paging.Retention.{IsCounted, total_bytes, store-IsKept}

bytes_eq_refl : (s : Bytes) → bytes_eq s s ≡ true
unfolding bytes_eq
bytes_eq_refl [] = refl
bytes_eq_refl (c ∷ s) = ground (arith, bytes_eq_refl s)

eq_of_bytes_eq : (s t : Bytes) → bytes_eq s t ≡ true → s ≡ t
unfolding bytes_eq
eq_of_bytes_eq [] [] h = refl
eq_of_bytes_eq [] (d ∷ t) h = cc
eq_of_bytes_eq (c ∷ s) [] h = cc
eq_of_bytes_eq (c ∷ s) (d ∷ t) h = ground (arith, eq_of_bytes_eq s t)

-- Two ids of one generation are equal only if their ordinals are.
buffer_id_injective :
    (g : Bytes) (k m : ℕ) → k < size_mod → m < size_mod → buffer_id g k ≡ buffer_id g m → k ≡ m
unfolding buffer_id
buffer_id_injective g k m h h' e =
    let after_generation =
      sym (drop-length_append (b'o' ∷ g) (b'-' ∷ to_string k))
      ∙ ap (drop (length (b'o' ∷ g))) e
      ∙ drop-length_append (b'o' ∷ g) (b'-' ∷ to_string m) in
    let digits : to_string k ≡ to_string m = ap (drop 1) after_generation in
    let same : ◌≡◌ {A = Option ℕ} (some k) (some m) =
      sym (read-to_string k h) ∙ ap (read_digits 0) digits ∙ read-to_string m h' in
    ground arith

-- The id of a buffer is that of an ordinal that has been given out.
abbrev pub HasOrdinal : Bytes → ℕ → Buffer → Type 0
HasOrdinal g n b = (k : ℕ) × (b.id ≡ buffer_id g k) × (k < n)

abbrev pub IsNumbered : Pager → Type 0
IsNumbered p = All (HasOrdinal p.generation p.next_ordinal) p.buffers

find_buffer-fresh :
    (g : Bytes) (n : ℕ) (bs : List Buffer)
    → n < size_mod
    → All (HasOrdinal g n) bs
    → find_buffer (buffer_id g n) bs ≡ none
unfolding find_buffer
find_buffer-fresh g n [] h a = refl
find_buffer-fresh g n (b ∷ bs) h a = elim (Bool-cases (bytes_eq b.id (buffer_id g n))) [
  | inr d ↦ rw d (find_buffer-fresh g n bs h a.1)
  | inl y ↦
      let (k, e, lt) = a.0 in
      let same : k ≡ n =
        buffer_id_injective g k n (omega arith) h (sym e ∙ eq_of_bytes_eq b.id (buffer_id g n) y) in
      absurd (omega arith)
]

find_buffer-append :
    (id : Bytes) (bs : List Buffer) (b : Buffer)
    → find_buffer id bs ≡ none
    → bytes_eq b.id id ≡ true
    → find_buffer id (bs ++ b ∷ []) ≡ some b
unfolding find_buffer
find_buffer-append id [] b n e = rw e
find_buffer-append id (x ∷ bs) b n e = ground (arith, find_buffer-append id bs b)

find_buffer-rest :
    (id : Bytes) (x : Buffer) (bs : List Buffer)
    → find_buffer id (x ∷ bs) ≡ none
    → find_buffer id bs ≡ none
unfolding find_buffer
find_buffer-rest id x bs h = ground arith

-- What is not found among all is not found in a tail; what stands last among all stands last in a
-- tail that is not empty.
find_buffer-tail :
    (id : Bytes) (gone kept bs : List Buffer) (b : Buffer)
    → gone ++ kept ≡ bs ++ b ∷ []
    → 0 < length kept
    → find_buffer id bs ≡ none
    → bytes_eq b.id id ≡ true
    → find_buffer id kept ≡ some b
find_buffer-tail id [] kept bs b e n f y = rw e (find_buffer-append id bs b f y)
find_buffer-tail id (g ∷ gone) kept [] b e n f y =
    absurd (omega (arith, ap length e, length-append gone kept))
find_buffer-tail id (g ∷ gone) kept (x ∷ bs) b e n f y =
    find_buffer-tail id gone kept bs b (ap (drop 1) e) n (find_buffer-rest id x bs f) y

module _ (P : Buffer → Type 0) where
  All-tail : (gone kept : List Buffer) → All P (gone ++ kept) → All P kept
  All-tail [] kept a = a
  All-tail (g ∷ gone) kept a = All-tail gone kept a.1

HasOrdinal-more :
    (g : Bytes) (n : ℕ) (bs : List Buffer) → All (HasOrdinal g n) bs → All (HasOrdinal g (n + 1)) bs
HasOrdinal-more g n [] a = tt
HasOrdinal-more g n (b ∷ bs) a =
    let (k, e, lt) = a.0 in ((k, e, omega arith), HasOrdinal-more g n bs a.1)

store-IsNumbered :
    (captured : Captured) (verdict : Verdict) (source_key : Bytes) (p : Pager)
    → IsCounted p
    → IsNumbered p
    → total_bytes p.buffers + length captured.text < size_mod
    → p.next_ordinal + 1 < size_mod
    → IsNumbered (store captured verdict source_key p).1
store-IsNumbered captured verdict source_key p c o h n =
    let k = store-IsKept captured verdict source_key p c h in
    let P = HasOrdinal p.generation (p.next_ordinal + 1) in
    let b = stored captured verdict source_key p in
    let no_wrap : size_add p.next_ordinal 1 ≡ p.next_ordinal + 1 = omega arith in
    unfold store in
    rw no_wrap (
      All-tail P k.gone (store captured verdict source_key p).1.buffers (
        subst (All P) (sym k.tail) (
          All-append P p.buffers (b ∷ []) (HasOrdinal-more p.generation p.next_ordinal p.buffers o)
            ((p.next_ordinal, refl, omega arith), tt))))

-- An output that `Store` has stored is found by its id, and the pager that it leaves still counts its
-- bytes and numbers its outputs, so that the next one is found too.
pub find-store :
    (captured : Captured) (verdict : Verdict) (source_key : Bytes) (p : Pager)
    → IsCounted p
    → IsNumbered p
    → total_bytes p.buffers + length captured.text < size_mod
    → p.next_ordinal + 1 < size_mod
    → let r = store captured verdict source_key p in
      (find r.0.id r.1 ≡ some r.0) × IsCounted r.1 × IsNumbered r.1
find-store captured verdict source_key p c o h n =
    let k = store-IsKept captured verdict source_key p c h in
    let q = (store captured verdict source_key p).1 in
    (
      unfold find store in
          find_buffer-tail (buffer_id p.generation p.next_ordinal) k.gone q.buffers p.buffers
            (stored captured verdict source_key p) k.tail k.some_left
            (find_buffer-fresh p.generation p.next_ordinal p.buffers (omega arith) o)
            (bytes_eq_refl (buffer_id p.generation p.next_ordinal)),
      k.counted,
      store-IsNumbered captured verdict source_key p c o h n,
    )
