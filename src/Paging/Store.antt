-- ===== src/Paging/Store.antt =====
-- The store of outputs: `SourceIdFor` and `Pager` of src/paging/paging.cpp. The mutex makes each
-- operation one step; the generation that a new pager draws is an argument.
use Prim.Native.Nat.{bit_xor, max}
use pu_cli.Base.{
  ℕ, zero, suc, ◌+◌, ◌*◌, ◌/◌, ◌%◌, ◌^◌, Bool, ◌&&◌, ◌||◌, Option, none, some, List, [], ◌∷◌, ◌++◌,
  Bytes, length, is_empty, size_add, size_sub, size_mod, ltb, if◌then◌else◌,
}
use pu_cli.Sse.Fields.{bytes_eq}
use pu_cli.Paging.Data.{Verdict, Captured, Buffer, make_buffer, bytes}
use pu_cli.Paging.Decimal.{to_string}

-- One round of FNV-1a, on 64 bits.
unfoldable pub hash_step : ℕ → ℕ → ℕ
hash_step hash c = (bit_xor hash c * 1099511628211) % size_mod

unfoldable pub hash_of : ℕ → Bytes → ℕ
hash_of hash [] = hash
hash_of hash (c ∷ s) = hash_of (hash_step hash c) s

-- `kHex[n]`
unfoldable pub hex_digit : ℕ → ℕ
hex_digit n = if ltb n 10 then b'0' + n else 87 + n

-- `kHex[(hash >> shift) & 0xf]` for the last `count` digits, the highest first.
unfoldable pub hex_digits : ℕ → ℕ → Bytes
hex_digits zero value = []
hex_digits (suc count) value = hex_digit ((value / 2 ^ (4 * count)) % 16) ∷ hex_digits count value

unfoldable pub source_id_for : Bytes → Bytes
source_id_for key = b's' ∷ hex_digits 8 (hash_of 1469598103934665603 key)

-- `NewGeneration`, from the 16 bits that the engine gives.
unfoldable pub generation_of : ℕ → Bytes
generation_of value = hex_digits 4 (value % 2 ^ 16)

pub record Budget : Type 0 where
  pub page_lines : ℕ
  pub max_lines : ℕ
  pub capture_bytes : ℕ
  pub retain_bytes : ℕ
  pub retain_buffers : ℕ

pub record Pager : Type 0 where
  pub buffers : List Buffer
  pub retained_bytes : ℕ
  pub budget : Budget
  pub generation : Bytes
  pub next_ordinal : ℕ
  pub next_rank : ℕ

abbrev pub default_budget : Budget
default_budget = record {
  page_lines = 120;
  max_lines = 400;
  capture_bytes = 262144;
  retain_bytes = 4 * 2 ^ 20;
  retain_buffers = 8;
}

abbrev pub new_pager : Budget → ℕ → Pager
new_pager budget drawn = record {
  buffers = [];
  retained_bytes = 0;
  budget = budget;
  generation = generation_of drawn;
  next_ordinal = 1;
  next_rank = 1;
}

-- `SetBudget`; the outputs that are stored already stay until the next `Store`.
unfoldable pub set_budget : Budget → Pager → Pager
set_budget budget p = record p { budget = budget }

-- `ContinueRankingFrom`
unfoldable pub continue_ranking_from : ℕ → Pager → Pager
continue_ranking_from last_rank p = record p { next_rank = max p.next_rank (size_add last_rank 1) }

-- The condition of the loop that evicts.
abbrev pub over_budget : Budget → ℕ → List Buffer → Bool
over_budget budget retained bs =
    ltb (max 1 budget.retain_buffers) (length bs)
    || (ltb budget.retain_bytes retained && ltb 1 (length bs))

-- The loop that evicts, from the oldest on: what is left, and the bytes that it counts.
unfoldable pub evict : Budget → ℕ → List Buffer → ℕ × List Buffer
evict budget retained [] = (retained, [])
evict budget retained (b ∷ bs) =
    let rest = evict budget (size_sub retained (bytes b)) bs in
    if over_budget budget retained (b ∷ bs) then rest else (retained, b ∷ bs)

unfoldable pub buffer_id : Bytes → ℕ → Bytes
buffer_id generation ordinal = (b'o' ∷ generation) ++ b'-' ∷ to_string ordinal

-- The buffer that `Store` makes.
abbrev pub stored : Captured → Verdict → Bytes → Pager → Buffer
stored captured verdict source_key p =
    make_buffer (buffer_id p.generation p.next_ordinal)
      (if is_empty source_key then [] else source_id_for source_key) verdict captured.text
      captured.extent p.next_rank

abbrev pub with_buffer : Buffer → Pager → Pager
with_buffer b p =
    let kept = evict p.budget (size_add p.retained_bytes (bytes b)) (p.buffers ++ b ∷ []) in
    record p {
      buffers = kept.1;
      retained_bytes = kept.0;
      next_ordinal = size_add p.next_ordinal 1;
      next_rank = size_add p.next_rank 1;
    }

-- `Store`
unfoldable pub store : Captured → Verdict → Bytes → Pager → Buffer × Pager
unfolding evict
store captured verdict source_key p =
    let b = stored captured verdict source_key p in (b, with_buffer b p)

unfoldable pub find_buffer : Bytes → List Buffer → Option Buffer
find_buffer id [] = none
find_buffer id (b ∷ bs) = if bytes_eq b.id id then some b else find_buffer id bs

-- `Find`
unfoldable pub find : Bytes → Pager → Option Buffer
unfolding find_buffer
find id p = find_buffer id p.buffers
