-- ===== src/Mcp/Reader.antt =====
-- How lines are cut from what a server writes (`ReaderLoop` of src/mcp/stdio_transport.cpp). A line that
-- is handed on is the bytes before `FromPipedOutput`.
use pu_cli.Base.{
  ℕ, zero, suc, Option, none, some, List, [], ◌∷◌, ◌++◌, Bytes, length, is_empty, ◌==◌,
  if◌then◌else◌,
}

abbrev pub add_before : ℕ → Option (Bytes × Bytes) → Option (Bytes × Bytes)
add_before c none = none
add_before c (some (line, rest)) = some (c ∷ line, rest)

-- The bytes before the first newline and those behind it.
unfoldable pub cut : Bytes → Option (Bytes × Bytes)
cut [] = none
cut (c ∷ s) = if c == b'\n' then some ([], s) else add_before c (cut s)

abbrev pub keep_line : Bytes → List Bytes → List Bytes
keep_line line lines = if is_empty line then lines else line ∷ lines

abbrev pub lines_and : Bytes → List Bytes × Bytes → List Bytes × Bytes
lines_and line (lines, leftover) = (keep_line line lines, leftover)

-- The inner loop: the lines that a chunk ends, and what is left over. A round removes a byte at least.
unfoldable pub take_lines : ℕ → Bytes → Bytes → List Bytes × Bytes
unfolding cut
take_lines zero leftover chunk = ([], leftover ++ chunk)
take_lines (suc fuel) leftover chunk = elim (cut chunk) [
  | none ↦ ([], leftover ++ chunk)
  | some p ↦ lines_and (leftover ++ p.0) (take_lines fuel [] p.1)
]

-- One round of `ReaderLoop`, with a chunk that was read.
unfoldable pub take_chunk : Bytes → Bytes → List Bytes × Bytes
unfolding take_lines
take_chunk leftover chunk = take_lines (length chunk) leftover chunk

abbrev pub then_lines : List Bytes → List Bytes × Bytes → List Bytes × Bytes
then_lines lines (more, leftover) = (lines ++ more, leftover)

-- `ReaderLoop`, over the chunks that it reads.
unfoldable pub reader_loop : Bytes → List Bytes → List Bytes × Bytes
unfolding take_chunk
reader_loop leftover [] = ([], leftover)
reader_loop leftover (chunk ∷ chunks) =
    then_lines (take_chunk leftover chunk).0 (reader_loop (take_chunk leftover chunk).1 chunks)
