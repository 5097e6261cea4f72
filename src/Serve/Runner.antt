-- ===== src/Serve/Runner.antt =====
-- The turn runner's state and what it does under its locks (`SessionRunner` of
-- src/app/serve_runner.cpp and src/app/serve_internal.hpp). A connection is its number; a page that is
-- gone is not among the pages. Bytes that are posted to an open connection count as sent.
use pu_cli.Base.{
  ℕ, ◌-◌, String, Bool, true, false, Option, none, some, List, [], ◌∷◌, ◌++◌, Bytes, length, drop,
  ◌==◌, if◌then◌else◌, str_eq,
}
use pu_cli.Text.Utf8.{is_valid_utf8, sanitize_utf8}

pub record TurnRecord : Type 0 where
  pub id : String
  pub finished : Bool
  pub frames : List Bytes

pub record Job : Type 0 where
  pub text : String
  pub conn : Option ℕ
  pub peer_origin : String
  pub turn_id : String
  pub board_job : String

-- `WebSocketConnection`, as far as the runner reads it, and what was sent on it.
pub record Connection : Type 0 where
  pub number : ℕ
  pub client_id : String
  pub closed : Bool
  pub attached_to_page : Bool
  pub sent : List Bytes

pub record SessionRunner : Type 0 where
  pub turns : List TurnRecord
  pub jobs : List Job
  pub stopping : Bool
  pub running : Bool
  pub attached : Option ℕ
  pub cancel_token : Option Bool
  pub cancel_requested : Bool
  pub pages : List Connection

abbrev pub turns_kept : ℕ
turns_kept = 8

unfoldable pub find_page : ℕ → List Connection → Option Connection
find_page c [] = none
find_page c (p ∷ ps) = if p.number == c then some p else find_page c ps

unfoldable pub change_page : ℕ → (Connection → Connection) → List Connection → List Connection
change_page c f [] = []
change_page c f (p ∷ ps) = if p.number == c then f p ∷ ps else p ∷ change_page c f ps

-- `attached_.lock()`
abbrev pub page_of : Option ℕ → List Connection → Option Connection
page_of none ps = none
page_of (some c) ps = find_page c ps

abbrev pub same_page : ℕ → Option ℕ → Bool
same_page c none = false
same_page c (some d) = d == c

-- `SendText`
abbrev pub send_text : Bytes → Connection → Connection
send_text wire p = if p.closed then p else record p { sent = p.sent ++ wire ∷ [] }

unfoldable pub send_all : List Bytes → Connection → Connection
send_all [] p = p
send_all (wire ∷ wires) p = send_all wires (send_text wire p)

unfoldable pub change_last : (TurnRecord → TurnRecord) → List TurnRecord → List TurnRecord
change_last f [] = []
change_last f (t ∷ []) = f t ∷ []
change_last f (t ∷ u ∷ us) = t ∷ change_last f (u ∷ us)

abbrev pub add_frame : Bytes → TurnRecord → TurnRecord
add_frame wire t = record t { frames = t.frames ++ wire ∷ [] }

abbrev pub mark_finished : TurnRecord → TurnRecord
mark_finished t = record t { finished = true }

-- What `AppendFrame` makes of a frame that is serialised.
abbrev pub wire_of : Bytes → Bytes
wire_of text = if is_valid_utf8 text then text else sanitize_utf8 text

-- The two parts of `AppendFrame`: the frame is recorded, and then sent to the page that is there.
unfoldable pub record_frame : Bytes → SessionRunner → SessionRunner
unfolding change_last
record_frame wire r = record r { turns = change_last (add_frame wire) r.turns }

abbrev pub delivered : Bytes → SessionRunner → Option ℕ → SessionRunner
delivered wire r none = r
delivered wire r (some c) = record r { pages = change_page c (send_text wire) r.pages }

unfoldable pub deliver_frame : Bytes → SessionRunner → SessionRunner
unfolding change_page
deliver_frame wire r = delivered wire r r.attached

-- `AppendFrame`
unfoldable pub append_frame : Bytes → SessionRunner → SessionRunner
unfolding record_frame deliver_frame
append_frame text r = deliver_frame (wire_of text) (record_frame (wire_of text) r)

-- `FinishTurn`
unfoldable pub finish_turn : SessionRunner → SessionRunner
unfolding change_last
finish_turn r = record r { turns = change_last mark_finished r.turns }

unfoldable pub find_turn : String → List TurnRecord → Option TurnRecord
find_turn id [] = none
find_turn id (t ∷ ts) = elim (find_turn id ts) [
  | some u ↦ some u
  | none ↦ if str_eq t.id id then some t else none
]

-- `RecordOf`, which looks from the newest record on.
abbrev pub record_of : String → SessionRunner → Option TurnRecord
record_of id r = find_turn id r.turns

unfoldable pub all_frames : List TurnRecord → List Bytes
all_frames [] = []
all_frames (t ∷ ts) = t.frames ++ all_frames ts

-- `FramesForNextPage`
unfoldable pub frames_for_next_page : SessionRunner → List Bytes
unfolding all_frames
frames_for_next_page r = all_frames (drop (length r.turns - 2) r.turns)

-- `Submit`; `turn_id` is what `NewMessageId` draws.
unfoldable pub submit : String → String → Option ℕ → SessionRunner → SessionRunner
submit turn_id text conn r = record r {
  jobs =
      r.jobs
      ++ record { text = text; conn = conn; peer_origin = ""; turn_id = turn_id; board_job = "" }
        ∷ [];
}

-- `SubmitFromPeer`; the turn it answers with is `turn_id`.
unfoldable pub submit_from_peer : String → String → String → String → SessionRunner → SessionRunner
submit_from_peer turn_id sender text job r = record r {
  jobs =
      r.jobs
      ++ record {
        text = text;
        conn = none;
        peer_origin = sender;
        turn_id = turn_id;
        board_job = job;
      }
        ∷ [];
}

abbrev pub set_token : Option Bool → Option Bool
set_token none = none
set_token (some b) = some true

-- `Stop`, up to where it waits for the worker.
unfoldable pub stop : SessionRunner → SessionRunner
stop r =
    if r.stopping
    then r
    else record r { stopping = true; jobs = []; cancel_token = set_token r.cancel_token }

abbrev pub requested : Bool → Option Bool → Bool → Bool
requested by_page none before = before
requested by_page (some b) before = if by_page then true else before

-- `RequestCancel`
unfoldable pub request_cancel : Bool → SessionRunner → SessionRunner
request_cancel by_page r = record r {
  cancel_token = set_token r.cancel_token;
  cancel_requested = requested by_page r.cancel_token r.cancel_requested;
}

-- `CancelTurn`
abbrev pub cancel_turn : SessionRunner → SessionRunner
cancel_turn r = request_cancel true r

-- `Detach`
unfoldable pub detach : ℕ → SessionRunner → SessionRunner
unfolding request_cancel
detach c r =
    if same_page c r.attached then request_cancel false (record r { attached = none }) else r
