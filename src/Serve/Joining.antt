-- ===== src/Serve/Joining.antt =====
-- How a page takes the session and lets it go: `Attach` of src/app/serve_runner.cpp, and `Start`,
-- `Finish` and `HandleMessage` of src/app/serve_websocket.cpp around it.
use pu_cli.Base.{
  ℕ, String, Bool, true, false, not, ◌&&◌, ◌||◌, Option, none, some, List, Bytes, map, ◌==◌,
  if◌then◌else◌, str_eq,
}
use pu_cli.Serve.Runner.{
  Connection, SessionRunner, find_page, change_page, page_of, send_all, frames_for_next_page,
  submit, cancel_turn, detach,
}

abbrev pub client_of : Option Connection → String
client_of none = ""
client_of (some p) = p.client_id

-- Whether a live page keeps the session from another connection, whose page has a name or none.
abbrev pub keeps_out : ℕ → String → Option Connection → Bool
keeps_out c client none = false
keeps_out c client (some p) =
    not (p.number == c)
    && not p.closed
    && p.attached_to_page
    && (str_eq client "" || not (str_eq client p.client_id))

abbrev pub mark_detached : Connection → Connection
mark_detached p = record p { attached_to_page = false }

abbrev pub detached_before : ℕ → Option Connection → List Connection → List Connection
detached_before c none ps = ps
detached_before c (some p) ps = if p.number == c then ps else change_page p.number mark_detached ps

-- `Attach` under its lock: refused, or the page is the attached one and these are its frames. The
-- connection that it replaces is closed by a task that is posted for it.
unfoldable pub take_session : ℕ → SessionRunner → Option (List Bytes × SessionRunner)
unfolding frames_for_next_page
take_session c r =
    let current = page_of r.attached r.pages in
    if keeps_out c (client_of (find_page c r.pages)) current
    then none
    else some (
      frames_for_next_page r,
      record r { attached = some c; pages = detached_before c current r.pages },
    )

-- `resent` is the text of a frame that was parsed and serialised again.
module _ (resent : Bytes → Bytes) where
  -- `Attach` behind its lock.
  unfoldable pub hand_over : ℕ → List Bytes → SessionRunner → SessionRunner
  unfolding send_all
  hand_over c pending r = record r { pages = change_page c (send_all (map resent pending)) r.pages }

  abbrev pub attached_as :
      ℕ → SessionRunner → Option (List Bytes × SessionRunner) → Bool × SessionRunner
  attached_as c r none = (false, r)
  attached_as c r (some (pending, taken)) = (true, hand_over c pending taken)

  -- `Attach`, with nothing between its lock and the sending behind it.
  unfoldable pub attach : ℕ → SessionRunner → Bool × SessionRunner
  unfolding take_session hand_over
  attach c r = attached_as c r (take_session c r)

-- `AttachToPage`
abbrev pub attach_to_page : Connection → Connection
attach_to_page p = record p { attached_to_page = true }

abbrev pub mark_closed : Connection → Connection
mark_closed p = record p { closed = true; attached_to_page = false }

abbrev pub open_page : Option Connection → Bool
open_page none = false
open_page (some p) = not p.closed

-- `WebSocketConnection::Finish`
unfoldable pub finish : ℕ → SessionRunner → SessionRunner
unfolding detach
finish c r =
    if open_page (find_page c r.pages)
    then detach c (record r { pages = change_page c mark_closed r.pages })
    else r

-- The frames of `HandleMessage` that reach the runner.
pub data Message : Type 0 where
  run : String → Message
  cancel : Message

unfoldable pub handle_message : String → ℕ → Message → SessionRunner → SessionRunner
unfolding submit
handle_message turn_id c (run text) r = if str_eq text "" then r else submit turn_id text (some c) r
handle_message turn_id c cancel r = cancel_turn r
