-- ===== src/Mcp/Cutting.antt =====
-- The lines are those of the whole text, however it is cut into chunks
-- (src/mcp/stdio_transport.cpp).
use pu_cli.Base.{
  ℕ, zero, suc, ◌≤◌, true, false, Option, none, some, List, [], ◌∷◌, ◌++◌, ◌≡◌, inl, inr, refl, sym,
  ap, ◌∙◌, subst, arith, append_assoc, append-nil, Bytes, length, ◌==◌, if◌then◌else◌, Bool-cases,
  if_true, if_false,
}
use pu_cli.Mcp.Reader.{add_before, cut, lines_and, take_lines, take_chunk, then_lines, reader_loop}

-- The lines of a text, byte by byte: what is before the first newline comes behind `open_line`, empty
-- lines are left out, and what is behind the last newline is left over.
unfoldable pub lines_of : Bytes → Bytes → List Bytes × Bytes
lines_of open_line [] = ([], open_line)
lines_of open_line (c ∷ s) =
    if c == b'\n' then lines_and open_line (lines_of [] s) else lines_of (open_line ++ c ∷ []) s

abbrev pub flat : List Bytes → Bytes
flat [] = []
flat (s ∷ ss) = s ++ flat ss

lines_of-newline :
    (open_line s : Bytes) (c : ℕ)
    → (c == b'\n') ≡ true
    → lines_of open_line (c ∷ s) ≡ lines_and open_line (lines_of [] s)
unfolding lines_of
lines_of-newline open_line s c h = rw h refl

lines_of-byte :
    (open_line s : Bytes) (c : ℕ)
    → (c == b'\n') ≡ false
    → lines_of open_line (c ∷ s) ≡ lines_of (open_line ++ c ∷ []) s
unfolding lines_of
lines_of-byte open_line s c h = rw h refl

abbrev unended : Bytes → List Bytes × Bytes
unended l = ([], l)

-- Where a text is cut, its lines go on behind the cut.
abbrev IsCut : Bytes → Bytes → Option (Bytes × Bytes) → Type 0
IsCut open_line s none = lines_of open_line s ≡ ([], open_line ++ s)
IsCut open_line s (some p) =
    (lines_of open_line s ≡ lines_and (open_line ++ p.0) (lines_of [] p.1))
    × (suc (length p.1) ≤ length s)

later-IsCut :
    (open_line s : Bytes) (c : ℕ) (o : Option (Bytes × Bytes))
    → (c == b'\n') ≡ false
    → IsCut (open_line ++ c ∷ []) s o
    → IsCut open_line (c ∷ s) (add_before c o)
later-IsCut open_line s c none k h =
    lines_of-byte open_line s c k ∙ h ∙ ap unended (append_assoc open_line (c ∷ []) s)
later-IsCut open_line s c (some p) k h = (
  lines_of-byte open_line s c k
      ∙ h.0
      ∙ ap (λ l. lines_and l (lines_of [] p.1)) (append_assoc open_line (c ∷ []) p.0),
  omega (arith, h.1),
)

cut-IsCut : (open_line s : Bytes) → IsCut open_line s (cut s)
unfolding lines_of cut
cut-IsCut open_line [] = ap unended (sym (append-nil open_line))
cut-IsCut open_line (c ∷ s) = elim (Bool-cases (c == b'\n')) [
  | inl h ↦ subst (IsCut open_line (c ∷ s)) (sym (if_true (c == b'\n') (some ([], s)) _ h)) (
    lines_of-newline open_line s c h
        ∙ ap (λ l. lines_and l (lines_of [] s)) (sym (append-nil open_line)),
    omega arith,
  )
  | inr h ↦
      subst (IsCut open_line (c ∷ s)) (sym (if_false (c == b'\n') (some ([], s)) _ h))
        (later-IsCut open_line s c (cut s) h (cut-IsCut (open_line ++ c ∷ []) s))
]

take_lines-lines_of :
    (fuel : ℕ) (leftover chunk : Bytes)
    → length chunk ≤ fuel
    → take_lines fuel leftover chunk ≡ lines_of leftover chunk
unfolding take_lines lines_of
take_lines-lines_of zero leftover [] h = ap unended (append-nil leftover)
take_lines-lines_of zero leftover (c ∷ s) h = absurd (omega (arith, h))
take_lines-lines_of (suc fuel) leftover chunk h =
    by_cut (cut chunk) (cut-IsCut leftover chunk)
      (λ s k. take_lines-lines_of fuel [] s (omega (arith, h, k)))
  where
    by_cut :
        (o : Option (Bytes × Bytes))
        → IsCut leftover chunk o
        → ((s : Bytes) → suc (length s) ≤ length chunk → take_lines fuel [] s ≡ lines_of [] s)
        → elim o [
          | none ↦ ([], leftover ++ chunk)
          | some p ↦ lines_and (leftover ++ p.0) (take_lines fuel [] p.1)
        ]
          ≡ lines_of leftover chunk
    by_cut none k rest = sym k
    by_cut (some p) k rest = ap (lines_and (leftover ++ p.0)) (rest p.1 k.1) ∙ sym k.0

-- The lines of two texts, one behind the other.
lines_and-then :
    (line : Bytes) (p : List Bytes × Bytes) (f : Bytes → List Bytes × Bytes)
    → then_lines (lines_and line p).0 (f (lines_and line p).1)
      ≡ lines_and line (then_lines p.0 (f p.1))
lines_and-then [] p f = refl
lines_and-then (c ∷ line) p f = refl

lines_of-append :
    (open_line s t : Bytes)
    → lines_of open_line (s ++ t)
      ≡ then_lines (lines_of open_line s).0 (lines_of (lines_of open_line s).1 t)
unfolding lines_of
lines_of-append open_line [] t = refl
lines_of-append open_line (c ∷ s) t = elim (Bool-cases (c == b'\n')) [
  | inl h ↦
      lines_of-newline open_line (s ++ t) c h
      ∙ ap (lines_and open_line) (lines_of-append [] s t)
      ∙ sym (lines_and-then open_line (lines_of [] s) (λ l. lines_of l t))
      ∙ ap (λ (p : List Bytes × Bytes). then_lines p.0 (lines_of p.1 t))
          (sym (lines_of-newline open_line s c h))
  | inr h ↦
      lines_of-byte open_line (s ++ t) c h
      ∙ lines_of-append (open_line ++ c ∷ []) s t
      ∙ ap (λ (p : List Bytes × Bytes). then_lines p.0 (lines_of p.1 t))
          (sym (lines_of-byte open_line s c h))
]

-- In whatever chunks the text of a server is read, the lines that are handed on are those of the whole
-- text, its lines that are not empty, in order, and what is left over is what is behind its last newline.
pub reader_loop-lines_of :
    (leftover : Bytes) (chunks : List Bytes)
    → reader_loop leftover chunks ≡ lines_of leftover (flat chunks)
unfolding reader_loop take_chunk lines_of
reader_loop-lines_of leftover [] = refl
reader_loop-lines_of leftover (chunk ∷ chunks) =
    let first = take_lines-lines_of (length chunk) leftover chunk (omega arith) in
    ap (λ (p : List Bytes × Bytes). then_lines p.0 (reader_loop p.1 chunks)) first
    ∙ ap (then_lines (lines_of leftover chunk).0)
        (reader_loop-lines_of (lines_of leftover chunk).1 chunks)
    ∙ sym (lines_of-append leftover chunk (flat chunks))
