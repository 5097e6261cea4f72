-- ===== src/Serve/Halves.antt =====
-- A page that joins while the worker says a frame: `Attach` and `AppendFrame` of
-- src/app/serve_runner.cpp, cut where they let go of their locks.
use pu_cli.Base.{ℕ, false, Option, none, some, List, [], ◌∷◌, ◌++◌, ◌≡◌, ◌⊎◌, All, Bytes}
use pu_cli.Serve.Runner.{
  TurnRecord, Connection, SessionRunner, find_page, change_page, send_text, wire_of, record_frame,
  delivered,
}
use pu_cli.Serve.Watching.{next_frames}

-- Where the worker is in `AppendFrame`: in none, behind the record of a frame, or behind its read of
-- the attached page.
pub data Way : Type 0 where
  free : Way
  recorded : Bytes → Way
  addressed : Bytes → Option ℕ → Way

-- A page between the two halves of `Attach`, with the frames that it has still to be sent.
pub record Meeting : Type 0 where
  pub runner : SessionRunner
  pub pending : List Bytes
  pub way : Way

pub data Half : Type 0 where
  records : Bytes → Half
  reads_page delivers hands : Half

module _ (resent : Bytes → Bytes) (c : ℕ) where
  abbrev pub sent_on : Way → Meeting → Option Meeting
  sent_on (addressed w o) m = some (record m { runner = delivered w m.runner o; way = free })
  sent_on _ m = none

  abbrev pub read_on : Way → Meeting → Option Meeting
  read_on (recorded w) m = some (record m { way = addressed w m.runner.attached })
  read_on _ m = none

  abbrev pub recorded_on : Bytes → Way → Meeting → Option Meeting
  recorded_on w free m = some (record m { runner = record_frame w m.runner; way = recorded w })
  recorded_on w _ m = none

  abbrev pub handed_on : List Bytes → Meeting → Option Meeting
  handed_on [] m = none
  handed_on (w ∷ ws) m = some (record m {
    runner = record m.runner { pages = change_page c (send_text (resent w)) m.runner.pages };
    pending = ws;
  })

  -- One half of one call; none where it is not its turn.
  unfoldable pub half_step : Half → Meeting → Option Meeting
  unfolding record_frame change_page
  half_step (records text) m = recorded_on (wire_of text) m.way m
  half_step reads_page m = read_on m.way m
  half_step delivers m = sent_on m.way m
  half_step hands m = handed_on m.pending m

  abbrev pub half_then : Option Meeting → (Meeting → Option Meeting) → Option Meeting
  half_then none f = none
  half_then (some m) f = f m

  unfoldable pub halves : List Half → Meeting → Option Meeting
  unfolding half_step
  halves [] m = some m
  halves (e ∷ es) m = half_then (half_step e m) (λ n. halves es n)

  -- A frame stands somewhere in a list.
  abbrev pub Among : Bytes → List Bytes → Type 0
  Among w ws = (front : List Bytes) × (back : List Bytes) × (ws ≡ front ++ (w ∷ back))

  abbrev pub WasSent : List Bytes → Bytes → Type 0
  WasSent more w = Among w more ⊎ Among (resent w) more

  -- A frame that the worker is about to send to the page.
  abbrev Comes : Bytes → Way → Type 0
  Comes w free = ⊥
  Comes w (recorded v) = w ≡ v
  Comes w (addressed v o) = (w ≡ v) × (o ≡ some c)

  abbrev IsCared : List Bytes → List Bytes → Way → Bytes → Type 0
  IsCared more pending way w = WasSent more w ⊎ (Among w pending ⊎ Comes w way)

  record IsMeeting (base : List Bytes) (m : Meeting) : Type 0 where
    here : m.runner.attached ≡ some c
    page : Connection
    found : find_page c m.runner.pages ≡ some page
    is_open : page.closed ≡ false
    before : List TurnRecord
    newest : TurnRecord
    turns : m.runner.turns ≡ before ++ newest ∷ []
    more : List Bytes
    told : page.sent ≡ base ++ more
    cared : All (IsCared more m.pending m.way) (next_frames m.runner.turns)
