-- ===== src/Text/Space.antt =====
-- The whitespace functions of include/pu/core/text.hpp, over the bytes of a text: `Trim`,
-- `CollapseWhitespace`, and `ReadableError`.
use pu_cli.Base.{
  ℕ, Bool, true, false, not, ◌&&◌, ◌||◌, Option, none, some, [], ◌∷◌, ◌++◌, ◌≡◌, refl, arith, Bytes,
  is_empty, ◌==◌, if◌then◌else◌,
}

-- " \t\r\n"
abbrev pub is_whitespace : ℕ → Bool
is_whitespace c = c == 32 || c == 9 || c == 13 || c == 10

unfoldable pub trim_start : Bytes → Bytes
trim_start [] = []
trim_start (c ∷ cs) = if is_whitespace c then trim_start cs else c ∷ cs

unfoldable pub trim_end : (Bytes → Bytes)
trim_end [] = []
trim_end (c ∷ cs) =
    let rest = trim_end cs in if is_whitespace c && is_empty rest then [] else c ∷ rest

-- `Trim`
unfoldable pub trim : Bytes → Bytes
unfolding trim_start trim_end
trim text = trim_end (trim_start text)

-- The loop of `CollapseWhitespace`: whether `out` has something in it, and `pending_space`.
unfoldable pub collapse_from : Bool → Bool → Bytes → Bytes
collapse_from started pending_space [] = []
collapse_from started pending_space (c ∷ cs) =
    if is_whitespace c
    then collapse_from started started cs
    else if pending_space
    then 32 ∷ c ∷ collapse_from true false cs
    else c ∷ collapse_from true false cs

-- `CollapseWhitespace`
unfoldable pub collapse_whitespace : Bytes → Bytes
unfolding collapse_from
collapse_whitespace text = collapse_from false false text

-- What stands before the first place of a byte, and what stands after it.
unfoldable pub split_at_byte : ℕ → Bytes → Option (Bytes × Bytes)
split_at_byte b [] = none
split_at_byte b (c ∷ cs) =
    if c == b
    then some ([], cs)
    else elim (split_at_byte b cs) [ none ↦ none | some s ↦ some (c ∷ s.0, s.1) ]

-- Without the spaces and colons at the end.
unfoldable pub drop_separators : Bytes → Bytes
drop_separators [] = []
drop_separators (c ∷ cs) =
    let rest = drop_separators cs in if (c == 32 || c == 58) && is_empty rest then [] else c ∷ rest

unfoldable pub skip_blanks : Bytes → Bytes
skip_blanks [] = []
skip_blanks (c ∷ cs) = if c == 32 then skip_blanks cs else c ∷ cs

abbrev pub join_rest : Bytes → Bytes → Bytes
join_rest kept [] = kept
join_rest kept (c ∷ cs) = (if is_empty kept then kept else kept ++ 32 ∷ []) ++ c ∷ cs

-- `ReadableError`
unfoldable pub readable_error : Bytes → Bytes
unfolding split_at_byte drop_separators skip_blanks
readable_error what = elim (split_at_byte 91 what) [
  | none ↦ what
  | some opened ↦ elim (split_at_byte 93 opened.1) [
    | none ↦ what
    | some closed ↦ join_rest (drop_separators opened.0) (skip_blanks closed.1)
  ]
]

-- The bytes of a text that are no whitespace.
abbrev pub strip : Bytes → Bytes
strip [] = []
strip (c ∷ cs) = if is_whitespace c then strip cs else c ∷ strip cs

-- Whether each whitespace is one space between two words; the flag says that a word has just ended.
abbrev pub is_tidy : Bool → Bytes → Bool
is_tidy word [] = true
is_tidy word (c ∷ cs) =
    if is_whitespace c
    then word && c == 32 && not (is_empty cs) && is_tidy false cs
    else is_tidy true cs

strip-collapse_from :
    (started pending_space : Bool) (text : Bytes)
    → strip (collapse_from started pending_space text) ≡ strip text
unfolding collapse_from
strip-collapse_from started pending_space [] = refl
strip-collapse_from started pending_space (c ∷ cs) =
    ground (arith, strip-collapse_from started started cs, strip-collapse_from true false cs)

is_tidy-collapse_from :
    (started pending_space : Bool) (text : Bytes)
    → (pending_space ≡ true → started ≡ true)
    → is_tidy started (collapse_from started pending_space text) ≡ true
unfolding collapse_from
is_tidy-collapse_from started pending_space [] h = refl
is_tidy-collapse_from started pending_space (c ∷ cs) h =
    let spaced = is_tidy-collapse_from started started cs (λ e. e) in
    let worded = is_tidy-collapse_from true false cs (λ e. refl) in
    ground (arith, spaced, worded, h)

-- `CollapseWhitespace` keeps the bytes that are no whitespace, in their order, and in what it gives
-- each whitespace is a single space with a word before it and a word behind it.
pub collapse_whitespace_lem :
    (text : Bytes)
    → (strip (collapse_whitespace text) ≡ strip text)
      × (is_tidy false (collapse_whitespace text) ≡ true)
unfolding collapse_whitespace
collapse_whitespace_lem text =
    (strip-collapse_from false false text, is_tidy-collapse_from false false text (λ e. e))
