-- ===== src/Exec/Window.antt =====
-- Which part of a stream `Take` hands over, and what it counts (src/exec/run.cpp).
use pu_cli.Base.{
  ℕ, zero, suc, ◌*◌, ◌≤◌, ◌<◌, none, some, ◌++◌, ◌≡◌, ◌⊎◌, Bytes, length, if◌then◌else◌,
}
use pu_cli.Paging.Data.{Captured, newline}
use pu_cli.Exec.Capture.{
  Keep, head, end, count_newlines, last_of, count_lines, Capture, drop_to_budget, whole_lines,
  trim_head, settled_text,
}
use pu_cli.Exec.Ending.{IsFull}

-- A text from which only an end was taken.
pub record IsFront (s t : Bytes) : Type 0 where
  pub rest : Bytes
  pub joined : t ++ rest ≡ s

-- Nothing but whole lines, or no line that is whole.
abbrev pub IsWhole : Bytes → Type 0
IsWhole t = ((before : ℕ) → last_of before t ≡ newline) ⊎ (count_newlines t ≡ 0)

record Lines (s t : Bytes) : Type 0 where
  found : whole_lines s ≡ some t
  front : IsFront s t
  ends : (before : ℕ) → last_of before t ≡ newline

abbrev HasLines : Bytes → Type 0
HasLines s = ((whole_lines s ≡ none) × (count_newlines s ≡ 0)) ⊎ ((t : Bytes) × Lines s t)

-- The part of a stream that is kept.
abbrev pub Part : Keep → ℕ → Bytes → Bytes → Type 0
Part keep zero s t = t ≡ s
Part head (suc n) s t =
    IsFront s t × (length t ≤ suc n) × ((length s ≤ suc n → t ≡ s) × (suc n < length s → IsWhole t))
Part end (suc n) s t =
    ((t ≡ s) × (length t * 4 ≤ suc n * 5))
    ⊎ ((length t ≤ suc n) × ((gone : Bytes) × (gone ++ t ≡ s) × IsFull (suc n) gone t))

pub record IsWindow (keep : Keep) (n : ℕ) (s : Bytes) (out : Captured) : Type 0 where
  pub printed : out.extent.bytes ≡ length s
  pub lines : out.extent.lines ≡ count_lines s
  pub retained : out.extent.retained ≡ count_lines out.text
  pub part : Part keep n s out.text

-- The text that `Take` hands over.
taken_text : Capture → Bytes
unfolding trim_head drop_to_budget
taken_text c = if c.truncated then settled_text c.keep c else c.text
