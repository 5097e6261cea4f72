-- ===== src/Paging/Tests.antt =====
-- Pages, cursors and the store on concrete outputs.
use pu_cli.Base.{
  suc, ◌+◌, ◌<◌, true, false, some, [], ◌∷◌, ◌≡◌, refl, codes, arith, pos, take, drop, length,
  get_elem?, size_mod,
}
use pu_cli.Paging.Data.{
  Extent, Verdict, Captured, Buffer, make_buffer, lines, line, head, tail, Page, index_lines,
  starts_from,
}
use pu_cli.Paging.Cursors.{cursor_to_string, parse_cursor, parse-cursor_to_string}
use pu_cli.Paging.Decimal.{to_string, digits_of}
use pu_cli.Paging.Reading.{read, start_of}
use pu_cli.Paging.Lines.{lines_of, line-eq-get_elem?, split_lines}
use pu_cli.Paging.Pages.{join_lines, read_text}
use pu_cli.Paging.Walk.{walk, walk-head}
use pu_cli.Paging.Store.{
  Pager, default_budget, new_pager, store, find, source_id_for, hash_of, hex_digits, hex_digit,
}
use pu_cli.Paging.Retention.{IsKept, IsCounted, store-IsKept}
use pu_cli.Paging.Fresh.{IsNumbered, find-store}

abbrev went_well : Verdict
went_well = record {
  command = codes "ls";
  ok = true;
  exit_code = pos 0;
  error = [];
  stopped = false;
}

abbrev small : Extent
small = record { lines = 3; bytes = 5; retained = 3; from_end = false }

-- "a", an empty line, and "bc" with no newline behind it.
abbrev listing : Buffer
listing = make_buffer (codes "o1f2e-1") [] went_well (codes "a\n\nbc") small 1

listing_lines : lines_of (codes "a\n\nbc") ≡ codes "a" ∷ [] ∷ codes "bc" ∷ []
unfolding lines_of split_lines
listing_lines = refl

line-eq-get_elem?_example :
    (line listing 2 ≡ get_elem? (lines_of (codes "a\n\nbc")) 2)
    × (lines listing ≡ length (lines_of (codes "a\n\nbc")))
line-eq-get_elem?_example = line-eq-get_elem? listing 2 refl

listing_fits : lines listing + 2 < size_mod
unfolding index_lines starts_from
listing_fits = omega arith

read_text_example :
    (p : Page) × (read listing tail 2 ≡ some p)
    × (p.text
        ≡ join_lines (take 2 (drop (start_of tail (lines listing) 2) (lines_of (codes "a\n\nbc")))))
read_text_example = read_text listing tail 2 refl listing_fits

walk-head_example : walk (suc (lines listing)) listing head 2 ≡ some (codes "a\n\nbc\n")
walk-head_example = walk-head listing 2 refl (omega arith) listing_fits

parse-cursor_to_string_example :
    parse_cursor (cursor_to_string (record { buffer = codes "o1f2e-1"; line = 240 }))
    ≡ some (record { buffer = codes "o1f2e-1"; line = 240 })
parse-cursor_to_string_example =
    parse-cursor_to_string (record { buffer = codes "o1f2e-1"; line = 240 }) (λ e. cc) (omega arith)

cursor_text : cursor_to_string (record { buffer = codes "o1"; line = 240 }) ≡ codes "o1:240"
unfolding cursor_to_string to_string digits_of
cursor_text = refl

abbrev printed : Captured
printed = record { text = codes "a\n\nbc"; extent = small }

abbrev fresh_pager : Pager
fresh_pager = new_pager default_budget 7

store-IsKept_example :
    let q = (store printed went_well (codes "ls") fresh_pager).1 in
    IsKept default_budget
      ((store printed went_well (codes "ls") fresh_pager).0 ∷ [])
      (q.retained_bytes, q.buffers)
store-IsKept_example = store-IsKept printed went_well (codes "ls") fresh_pager refl (omega arith)

find-store_example :
    let r = store printed went_well (codes "ls") fresh_pager in
    (find r.0.id r.1 ≡ some r.0) × IsCounted r.1 × IsNumbered r.1
find-store_example =
    find-store printed went_well (codes "ls") fresh_pager refl tt (omega arith) (omega arith)

-- The id of the empty key is the low half of the number that the hash starts from.
source_of_nothing : source_id_for [] ≡ codes "s739d0383"
unfolding source_id_for hash_of hex_digits hex_digit
source_of_nothing = refl
