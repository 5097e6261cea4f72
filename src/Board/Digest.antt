-- ===== src/Board/Digest.antt =====
-- The text that tells a peer of its jobs: `Digest` of src/serve/board.cpp.
use Prim.Native.String.{◌++◌ as text_append}
use pu_cli.Base.{
  ℕ, String, Bool, not, ◌&&◌, Option, none, some, List, [], ◌∷◌, ◌++◌, is_empty, ltb, if◌then◌else◌,
  str_eq,
}
use pu_cli.Board.Job.{Job, job_state_name, closed}
use pu_cli.Board.Store.{Board}
use pu_cli.Board.Views.{is_past}

unfoldable pub concat_texts : List String → String
concat_texts [] = ""
concat_texts (s ∷ ss) = text_append s (concat_texts ss)

-- Each line with the newline that `oss << line << "\n"` writes.
unfoldable pub line_texts : List String → String
line_texts [] = ""
line_texts (s ∷ ss) = text_append s (text_append "\n" (line_texts ss))

abbrev pub asking : Option String → String
asking none = ""
asking (some question) = text_append ", asking: " question

abbrev pub answered_with : Option String → String
answered_with none = ""
answered_with (some result) = text_append ", answered: " result

abbrev pub is_held : String → Job → Bool
is_held peer j = str_eq j.to peer && not (closed j)

abbrev pub is_ended : String → Job → Bool
is_ended peer j = str_eq j.from peer && closed j

abbrev pub block : String → List String → String
block heading lines = if is_empty lines then "" else text_append heading (line_texts lines)

-- `number` writes a count in decimal (`std::to_string`).
module _ (parse_stamp : String → Option ℕ) (number : ℕ → String) (now : String) where
  unfoldable pub held_line : Job → String
  held_line j = concat_texts (
      "- "
      ∷ j.id
      ∷ " from "
      ∷ (if str_eq j.from "" then "a person" else j.from)
      ∷ ": "
      ∷ j.intent
      ∷ " ["
      ∷ job_state_name j.state
      ∷ (if is_past parse_stamp now j.due_at then ", overdue" else "")
      ∷ asking j.question
      ∷ (if ltb 0 j.chases then concat_texts (", re-asked " ∷ number j.chases ∷ "x" ∷ []) else "")
      ∷ "]"
      ∷ [])

  unfoldable pub closed_line : Job → String
  closed_line j = concat_texts (
      "- "
      ∷ j.id
      ∷ " to "
      ∷ j.to
      ∷ ": "
      ∷ j.intent
      ∷ " ["
      ∷ job_state_name j.state
      ∷ answered_with j.result
      ∷ "]"
      ∷ [])

  abbrev pub note_line : Job → List String
  note_line j =
      if str_eq j.note "" then [] else text_append "  what the poster last said: " j.note ∷ []

  -- The two lists that the loop fills.
  unfoldable pub held_lines : String → List Job → List String
  held_lines peer [] = []
  held_lines peer (j ∷ js) =
      if is_held peer j
      then held_line j ∷ (note_line j ++ held_lines peer js)
      else held_lines peer js

  unfoldable pub ended_lines : String → List Job → List String
  ended_lines peer [] = []
  ended_lines peer (j ∷ js) =
      if is_held peer j
      then ended_lines peer js
      else if is_ended peer j
      then closed_line j ∷ ended_lines peer js
      else ended_lines peer js

  -- `Digest`
  unfoldable pub digest : String → Board → String
  unfolding held_lines ended_lines
  digest peer b =
      let held = held_lines peer b.jobs in
      let ended = ended_lines peer b.jobs in
      if str_eq peer ""
      then ""
      else if is_empty held && is_empty ended
      then ""
      else concat_texts (
          "=== Peer Board ===\n"
          ∷ block "Jobs you hold, which only you can move:\n" held
          ∷ block "Jobs you handed out that have since closed:\n" ended
          ∷ [])
