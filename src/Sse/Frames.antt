-- ===== src/Sse/Frames.antt =====
-- The lines of a frame, as a sender writes them, and what `Feed` of src/core/sse.cpp makes of them.
use pu_cli.Base.{
  suc, Bool, true, false, none, some, List, [], ◌∷◌, ◌++◌, map, ◌≡◌, ◌≢◌, refl, ap, ◌∙◌, arith,
  Bytes, codes, length, length-append, append-nil, All,
}
use pu_cli.Text.Utf8.{ends_with_partial_sequence}
use pu_cli.Sse.Fields.{
  bytes_eq, split_field, around_colon, drop_space, starts_a_field, strip_prefix, begins_with_colon,
}
use pu_cli.Sse.Parser.{
  no_event, Emission, event, Frame, SseParser, split_line, chop_cr, next_line, dispatch,
  handle_data, handle_line, drain, feed, parses_as_one_value,
}
use pu_cli.Sse.Chunks.{feed-append, drain-none, drain-some, drain-fuel}

-- A line that the transport hands on whole: no newline in it, no carriage return at its end, and no
-- half of a character.
pub record IsLine (l : Bytes) : Type 0 where
  pub one_line : All (λ c. c ≢ b'\n') l
  pub no_cr : chop_cr l ≡ l
  pub whole : ends_with_partial_sequence l ≡ false

split_line-newline :
    (l rest : Bytes) → All (λ c. c ≢ b'\n') l → split_line (l ++ b'\n' ∷ rest) ≡ some (l, rest)
unfolding split_line
split_line-newline [] rest a = ground arith
split_line-newline (c ∷ l) rest a = ground (arith, split_line-newline l rest a.1)

next_line-newline : (l : Bytes) → IsLine l → next_line (l ++ b'\n' ∷ []) ≡ some (l, [])
unfolding next_line
next_line-newline l v = rw (split_line-newline l [] v.one_line, next_line) (rw (v.no_cr, v.whole))

next_line-nil : next_line [] ≡ none
unfolding next_line split_line
next_line-nil = refl

-- Every line with its newline.
abbrev pub unlines : List Bytes → Bytes
unlines [] = []
unlines (l ∷ ls) = (l ++ b'\n' ∷ []) ++ unlines ls

module _ (parses : Bytes → Bool) where
  unfoldable pub handle_lines : List Bytes → Frame → List Emission × Frame
  handle_lines [] f = ([], f)
  handle_lines (l ∷ ls) f =
      let m = handle_line parses l f in let rest = handle_lines ls m.1 in (m.0 ++ rest.0, rest.1)

  abbrev pub at_rest : List Emission × Frame → List Emission × SseParser
  at_rest m = (m.0, record { buffer = []; frame = m.1 })

  feed-line :
      (l : Bytes) (f : Frame)
      → IsLine l
      → feed parses (l ++ b'\n' ∷ []) (record { buffer = []; frame = f })
        ≡ at_rest (handle_line parses l f)
  unfolding feed
  feed-line l f v =
      drain-fuel parses (length (l ++ b'\n' ∷ [])) (suc (length l)) (l ++ b'\n' ∷ []) f
        (omega arith) (omega (arith, length-append l (b'\n' ∷ [])))
      ∙ drain-some parses (length l) (l ++ b'\n' ∷ []) l [] f (next_line-newline l v)
      ∙ rw (drain-none parses (length l) [] (handle_line parses l f).1 next_line-nil)
          (rw append-nil)

  feed-nil :
      (f : Frame)
      → feed parses [] (record { buffer = []; frame = f }) ≡ ([], record { buffer = []; frame = f })
  unfolding feed drain
  feed-nil f = refl

  -- Whole lines are handled one after the other, and nothing stays in the buffer.
  pub feed-unlines :
      (ls : List Bytes) (f : Frame)
      → All IsLine ls
      → feed parses (unlines ls) (record { buffer = []; frame = f }) ≡ at_rest (handle_lines ls f)
  unfolding handle_lines
  feed-unlines [] f v = feed-nil f
  feed-unlines (l ∷ ls) f v =
      feed-append parses (l ++ b'\n' ∷ []) (unlines ls) (record { buffer = []; frame = f })
      ∙ rw (feed-line l f v.0, feed-unlines ls (handle_line parses l f).1 v.1)

abbrev pub event_line : Bytes → Bytes
event_line name = codes "event: " ++ name

abbrev pub id_line : Bytes → Bytes
id_line id = codes "id: " ++ id

abbrev pub data_line : Bytes → Bytes
data_line d = codes "data: " ++ d

-- The `data:` lines of a payload, joined by the newlines that they were split at.
abbrev pub joined : Bytes → List Bytes → Bytes
joined acc [] = acc
joined acc (d ∷ ds) = joined ((acc ++ b'\n' ∷ []) ++ d) ds

-- The lines of one frame: its name, its id, its data, and the blank line that ends it.
abbrev pub frame_lines : Bytes → Bytes → Bytes → List Bytes → List Bytes
frame_lines name id d ds = event_line name ∷ id_line id ∷ data_line d ∷ map data_line ds ++ [] ∷ []

-- A parser that has read no line of a frame.
abbrev pub fresh : Bool → Bool → Frame
fresh bare listens = record {
  bare_lines_are_events = bare;
  listens_to_retry = listens;
  pending = no_event;
  has_data = false;
}

abbrev named : Bool → Bool → Bytes → Frame
named bare listens name = record (fresh bare listens) { pending = record no_event { event = name } }

module _ (parses : Bytes → Bool) where
  -- No payload is one value before its last line.
  abbrev pub Unfinished : Bytes → List Bytes → Type 0
  Unfinished acc [] = Unit
  Unfinished acc (d ∷ ds) =
      (parses_as_one_value parses acc ≡ false) × Unfinished ((acc ++ b'\n' ∷ []) ++ d) ds

  handle-data_line :
      (d : Bytes) (f : Frame) → handle_line parses (data_line d) f ≡ handle_data parses d f
  unfolding handle_line split_field around_colon drop_space bytes_eq starts_a_field strip_prefix
      begins_with_colon
  handle-data_line d f = ground arith

  handle-event_line :
      (name : Bytes) (f : Frame)
      → handle_line parses (event_line name) f
        ≡ ([], record f { pending = record f.pending { event = name } })
  unfolding handle_line split_field around_colon drop_space bytes_eq starts_a_field strip_prefix
      begins_with_colon
  handle-event_line name f = ground arith

  handle-id_line :
      (id : Bytes) (f : Frame)
      → handle_line parses (id_line id) f
        ≡ ([], record f { pending = record f.pending { id = id } })
  unfolding handle_line split_field around_colon drop_space bytes_eq starts_a_field strip_prefix
      begins_with_colon
  handle-id_line id f = ground arith

  handle_data-more :
      (d : Bytes) (f : Frame)
      → f.has_data ≡ true
      → parses_as_one_value parses f.pending.payload ≡ false
      → handle_data parses d f ≡ (
        [],
        record f {
          pending = record f.pending { payload = (f.pending.payload ++ b'\n' ∷ []) ++ d };
          has_data = true;
        },
      )
  unfolding handle_data
  handle_data-more d f h u = ground arith

  handle-data_lines :
      (ds : List Bytes) (f : Frame)
      → f.has_data ≡ true
      → Unfinished f.pending.payload ds
      → handle_lines parses (map data_line ds ++ [] ∷ []) f ≡ (
        event (record f.pending { payload = joined f.pending.payload ds }) ∷ [],
        record f { pending = no_event; has_data = false },
      )
  unfolding handle_lines
  handle-data_lines [] f h u = unfold handle_line dispatch in ground arith
  handle-data_lines (d ∷ ds) f h u =
      rw (handle-data_line d f, handle_data-more d f h u.0)
        (handle-data_lines ds
          (record f {
            pending = record f.pending { payload = (f.pending.payload ++ b'\n' ∷ []) ++ d };
            has_data = true;
          })
          refl u.1)

  handle-frame_lines :
      (name id d : Bytes) (ds : List Bytes) (bare listens : Bool)
      → Unfinished d ds
      → handle_lines parses (frame_lines name id d ds) (fresh bare listens)
        ≡ (event (record { event = name; id = id; payload = joined d ds }) ∷ [], fresh bare listens)
  unfolding handle_lines handle_data
  handle-frame_lines name id d ds bare listens u =
      rw (handle-event_line name (fresh bare listens)) (
        rw (handle-id_line id (named bare listens name)) (
          rw
            (handle-data_line d (record (named bare listens name) {
              pending = record { event = name; id = id; payload = [] };
            }))
            (handle-data_lines ds
              (record (named bare listens name) {
                pending = record { event = name; id = id; payload = d };
                has_data = true;
              })
              refl u)))

  -- A frame written line by line is read back: a fresh parser that is fed an `event:` line, an `id:`
  -- line, one or more `data:` lines and the blank line emits exactly one event, with that name, that
  -- id and the data joined by newlines, and is fresh again. The lines are whole lines, and no proper
  -- prefix of the data is already one value.
  pub feed-frame_lines :
      (name id d : Bytes) (ds : List Bytes) (bare listens : Bool)
      → All IsLine (frame_lines name id d ds)
      → Unfinished d ds
      → feed parses
          (unlines (frame_lines name id d ds))
          (record { buffer = []; frame = fresh bare listens })
        ≡ (
          event (record { event = name; id = id; payload = joined d ds }) ∷ [],
          record { buffer = []; frame = fresh bare listens },
        )
  feed-frame_lines name id d ds bare listens v u =
      feed-unlines parses (frame_lines name id d ds) (fresh bare listens) v
      ∙ ap (at_rest parses) (handle-frame_lines name id d ds bare listens u)
