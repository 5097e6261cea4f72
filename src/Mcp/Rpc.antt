-- ===== src/Mcp/Rpc.antt =====
-- Requests and the promises of their replies (`JsonRpcClient` of src/mcp/client.cpp). A promise that is
-- no longer pending stands among the settled ones with what its future gives. `int_of` is the value of
-- an `int64` that is an `int` and not negative: no id that is drawn is negative.
-- An id is drawn and registered in one step, though the source draws it before it takes the mutex: two
-- threads that draw at once are not modelled, nor are more requests than an `int` counts.
use pu_cli.Base.{
  ℕ, suc, String, Bool, true, false, Option, none, some, List, [], ◌∷◌, ◌++◌, ◌==◌, if◌then◌else◌,
}
use pu_cli.Session.Json.{JsonValue, member, members}

-- What a future gives: the reply, or the text of the exception.
pub data Settled (J : Type 0) : Type 0 where
  value : J → Settled J
  exception : String → Settled J

pub record JsonRpcClient (J : Type 0) : Type 0 where
  pub next_id : ℕ
  pub pending : List ℕ
  pub settled : List (ℕ × Settled J)
  pub written : List J

unfoldable pub contains : ℕ → List ℕ → Bool
contains id [] = false
contains id (k ∷ ks) = if k == id then true else contains id ks

unfoldable pub erase : ℕ → List ℕ → List ℕ
erase id [] = []
erase id (k ∷ ks) = if k == id then erase id ks else k ∷ erase id ks

module _ {J : Type 0} where
  unfoldable pub find_settled : ℕ → List (ℕ × Settled J) → Option (Settled J)
  find_settled id [] = none
  find_settled id (p ∷ ps) = if p.0 == id then some p.1 else find_settled id ps

  -- A promise that is pending is settled and erased.
  unfoldable pub settle : ℕ → Settled J → JsonRpcClient J → JsonRpcClient J
  unfolding contains erase
  settle id out c =
      if contains id c.pending
      then record c { pending = erase id c.pending; settled = (id, out) ∷ c.settled }
      else c

module _ {J : Type 0} (json : JsonValue J) (int_of : J → Option ℕ) (serialize : J → String) where
  abbrev pub params_member : J → List (String × J)
  params_member params = if json.is_null params then [] else ("params", params) ∷ []

  -- The request that is written.
  abbrev pub request : ℕ → String → J → J
  request id method params = json.of_object (
      ("jsonrpc", json.of_text "2.0")
      ∷ ("id", json.of_count id)
      ∷ ("method", json.of_text method)
      ∷ params_member params)

  -- The client with the promise of a new request, and the request written.
  abbrev pub issued : String → J → JsonRpcClient J → JsonRpcClient J
  issued method params c = record c {
    next_id = suc c.next_id;
    pending = c.next_id ∷ erase c.next_id c.pending;
    written = c.written ++ request c.next_id method params ∷ [];
  }

  abbrev pub unless_written : Bool → ℕ → JsonRpcClient J → JsonRpcClient J
  unless_written true id c = c
  unless_written false id c = settle id (exception "Write failed") c

  -- `SendRequest`; `is_written` is what `WriteLine` says.
  unfoldable pub send_request : String → J → Bool → JsonRpcClient J → JsonRpcClient J
  unfolding settle erase
  send_request method params is_written c =
      unless_written is_written c.next_id (issued method params c)

  abbrev pub int_found : Option J → Option ℕ
  int_found none = none
  int_found (some j) = int_of j

  abbrev pub id_in : J → Option ℕ
  id_in j = int_found (member "id" (members json j))

  abbrev pub reply_with : J → Option J → Settled J
  reply_with j none = value j
  reply_with j (some e) = exception (serialize e)

  -- What a message settles a promise with.
  abbrev pub reply_of : J → Settled J
  reply_of j = reply_with j (member "error" (members json j))

  abbrev pub heard : Option ℕ → J → JsonRpcClient J → JsonRpcClient J
  heard none j c = c
  heard (some id) j c = settle id (reply_of j) c

  -- `OnMessage`, of a line that was parsed; none where the parser throws.
  unfoldable pub on_message : Option J → JsonRpcClient J → JsonRpcClient J
  unfolding settle
  on_message none c = c
  on_message (some j) c = heard (id_in j) j c

-- What passes between a client and its server, in the order in which the client's lock lets it.
pub data Traffic (J : Type 0) : Type 0 where
  sends : String → J → Bool → Traffic J
  hears : Option J → Traffic J

module _ {J : Type 0} (json : JsonValue J) (int_of : J → Option ℕ) (serialize : J → String) where
  unfoldable pub pass : List (Traffic J) → JsonRpcClient J → JsonRpcClient J
  unfolding send_request on_message
  pass [] c = c
  pass (sends method params is_written ∷ ts) c =
      pass ts (send_request json int_of serialize method params is_written c)
  pass (hears m ∷ ts) c = pass ts (on_message json int_of serialize m c)
