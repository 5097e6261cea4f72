-- ===== src/Exec/Capture.antt =====
-- What is kept of a command's output: `CountLines` and `Capture` (src/exec/run.cpp). Sizes are far
-- below 2 ^ 61, so no product wraps. A loop that shortens the text takes the text's length as fuel.
use pu_cli.Base.{
  ℕ, zero, suc, ◌+◌, ◌-◌, ◌*◌, Bool, true, false, not, ◌&&◌, ◌||◌, Option, none, some, List, [],
  ◌∷◌, ◌++◌, Bytes, length, take, drop, is_empty, ltb, leb, ◌==◌, if◌then◌else◌,
}
use Prim.Native.Nat.{min}
use pu_cli.Text.Utf8.{ends_with_partial_sequence}
use pu_cli.Paging.Data.{Captured, newline}

pub data Keep : Type 0 where
  head end : Keep

unfoldable pub count_newlines : Bytes → ℕ
count_newlines [] = 0
count_newlines (b ∷ s) = if b == newline then suc (count_newlines s) else count_newlines s

-- `back()`, of a text that may be empty.
abbrev pub last_of : ℕ → Bytes → ℕ
last_of before [] = before
last_of before (b ∷ s) = last_of b s

-- `CountLines`
unfoldable pub count_lines : Bytes → ℕ
unfolding count_newlines
count_lines s =
    if is_empty s
    then 0
    else if last_of newline s == newline
    then count_newlines s
    else count_newlines s + 1

pub record Capture : Type 0 where
  pub bytes : ℕ
  pub text : Bytes
  pub max_bytes : ℕ
  pub keep : Keep
  pub newlines : ℕ
  pub last : ℕ
  pub truncated : Bool

abbrev pub new_capture : ℕ → Keep → Capture
new_capture max_bytes keep = record {
  bytes = 0;
  text = [];
  max_bytes = max_bytes;
  keep = keep;
  newlines = 0;
  last = newline;
  truncated = false;
}

-- `find('\n')`
unfoldable pub find_newline : Bytes → Option ℕ
find_newline [] = none
find_newline (b ∷ s) =
    if b == newline then some 0 else elim (find_newline s) [ none ↦ none | some i ↦ some (suc i) ]

abbrev pub drop_after : ℕ → Option ℕ → ℕ
drop_after cut none = cut
drop_after cut (some i) = cut + i + 1

-- How much one round of `DropToBudget` drops.
unfoldable pub drop_size : ℕ → Bytes → ℕ
unfolding find_newline
drop_size max_bytes text =
    let cut = length text - max_bytes in drop_after cut (find_newline (drop cut text))

unfoldable pub drop_rounds : ℕ → ℕ → Bytes → Bytes
unfolding drop_size
drop_rounds zero max_bytes text = text
drop_rounds (suc fuel) max_bytes text =
    let rest = drop_rounds fuel max_bytes (drop (drop_size max_bytes text) text) in
    if leb (length text) max_bytes then text else rest

-- `DropToBudget`
unfoldable pub drop_to_budget : Capture → Capture
unfolding drop_rounds
drop_to_budget c = record c {
  text = drop_rounds (length c.text) c.max_bytes c.text;
  truncated = c.truncated || ltb c.max_bytes (length c.text);
}

abbrev pub counted : Bytes → Capture → Capture
counted chunk c = record c {
  bytes = c.bytes + length chunk;
  newlines = c.newlines + count_newlines chunk;
  last = last_of c.last chunk;
}

abbrev pub append_head : Bytes → Capture → Capture
append_head chunk c =
    let kept = min (length chunk) (c.max_bytes - length c.text) in
    record c {
      text = c.text ++ take kept chunk;
      truncated = c.truncated || ltb kept (length chunk);
    }

unfoldable pub append_end : Bytes → Capture → Capture
unfolding drop_to_budget
append_end chunk c =
    let longer = record c { text = c.text ++ chunk } in
    if ltb (c.max_bytes * 5) (length longer.text * 4) then drop_to_budget longer else longer

abbrev pub append_kept : Keep → Bytes → Capture → Capture
append_kept head chunk c = append_head chunk c
append_kept end chunk c = append_end chunk c

-- `Append`
unfoldable pub append : Bytes → Capture → Capture
unfolding append_end count_newlines
append chunk c =
    if is_empty chunk
    then c
    else if c.max_bytes == 0
    then record (counted chunk c) { text = c.text ++ chunk }
    else append_kept c.keep chunk (counted chunk c)

abbrev pub drop_last : Bytes → Bytes
drop_last [] = []
drop_last (b ∷ []) = []
drop_last (b ∷ c ∷ s) = b ∷ drop_last (c ∷ s)

-- The loop that takes the bytes of a cut character off.
unfoldable pub pop_partial : ℕ → Bytes → Bytes
pop_partial zero text = text
pop_partial (suc fuel) text =
    let rest = pop_partial fuel (drop_last text) in
    if not (is_empty text) && ends_with_partial_sequence text then rest else text

-- What stands before the last newline and the newline itself, if there is one.
unfoldable pub whole_lines : Bytes → Option Bytes
whole_lines [] = none
whole_lines (b ∷ s) = elim (whole_lines s) [
  | some t ↦ some (b ∷ t)
  | none ↦ if b == newline then some (b ∷ []) else none
]

abbrev pub or_else : Bytes → Option Bytes → Bytes
or_else text none = text
or_else text (some t) = t

unfoldable pub trim_head : Bytes → Bytes
unfolding pop_partial whole_lines
trim_head text = let t = pop_partial (length text) text in or_else t (whole_lines t)

abbrev pub settled_text : Keep → Capture → Bytes
settled_text head c = trim_head c.text
settled_text end c = (drop_to_budget c).text

-- `Take`
unfoldable pub take_captured : Capture → Captured
unfolding count_lines trim_head drop_to_budget
take_captured c =
    let text = if c.truncated then settled_text c.keep c else c.text in
    record {
      text = text;
      extent = record {
        lines = c.newlines + (if ltb 0 c.bytes && not (c.last == newline) then 1 else 0);
        bytes = c.bytes;
        retained = count_lines text;
        from_end = elim c.keep [ head ↦ false | end ↦ true ];
      };
    }

-- The chunks of a stream, one after the other.
unfoldable pub append_all : List Bytes → Capture → Capture
append_all [] c = c
append_all (chunk ∷ chunks) c = append_all chunks (append chunk c)
