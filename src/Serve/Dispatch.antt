-- ===== src/Serve/Dispatch.antt =====
-- How a request is answered (`HandlePeerMessage` and `DispatchHttpRequest` of
-- src/app/serve_http_routes.cpp). The state of the conversation is `R`; its handlers, the files of the
-- page and the JSON library's parser are arguments.
use Prim.Native.String.{◌++◌ as text_append}
use pu_cli.Base.{
  ℕ, String, Bool, true, false, not, ◌&&◌, Option, none, some, [], Bytes, is_empty, if◌then◌else◌,
  str_eq,
}
use pu_cli.Board.Store.{Board, touch_peer}
use pu_cli.Session.Json.{JsonValue}
use pu_cli.Serve.Peers.{PeerConfig}
use pu_cli.Serve.Runner.{SessionRunner, submit_from_peer}
use pu_cli.Serve.Routes.{
  Audience, peer_token, Admission, allowed, Verb, SessionHandler, Handler, of_session, of_board,
  peer_message, Route, routes, find_route, bearer_token, admit, peer_for_token,
}
use pu_cli.Serve.Handlers.{
  Draws, Thrown, request_refused, runtime_error, Answer, accepted, Outcome, gives, throws,
  error_status, text_in, on_board, self_of, is_stranger, claim_job,
}

-- What the routes share: the board, the runner once there is one, and the conversation.
pub record Server (R : Type 0) : Type 0 where
  pub board : Option Board
  pub runner : Option SessionRunner
  pub runtime : R

pub record Request : Type 0 where
  pub target : String
  pub method : Verb
  pub authorization : Option Bytes
  pub body : Bytes
  pub address : Bytes

pub data Response (J : Type 0) : Type 0 where
  page_file : String → Response J
  refusal : Admission → String → Response J
  no_board : Response J
  answered : (status : ℕ) (key : String) → Answer J → Response J
  failed : (status : ℕ) → Thrown → Response J
  no_route : Response J

abbrev pub is_none : {A : Type 0} → Option A → Bool
is_none none = true
is_none (some a) = false

abbrev pub is_allowed : Admission → Bool
is_allowed allowed = true
is_allowed _ = false

abbrev pub is_for_peers : Audience → Bool
is_for_peers peer_token = true
is_for_peers _ = false

abbrev pub touched : String → String → Option Board → Option Board
touched now peer none = none
touched now peer (some b) = some (touch_peer now peer "" b)

module _ {J R : Type 0} (json : JsonValue J) (parse : Bytes → Option J)
    (is_page_file : String → Bool) (of_conversation : SessionHandler → J → R → Outcome J × R)
    (agent_of model_of : R → String) where
  -- The turn that a message becomes, once the job it names is claimed.
  abbrev pub queued :
      Draws
      → String
      → (sender message job : String) → SessionRunner
      → Server R
      → Option Thrown × Option Board
      → Outcome J × Server R
  queued d self sender message job r s (some why, b) = (throws why, record s { board = b })
  queued d self sender message job r s (none, b) = (
    gives (accepted self d.turn_id (agent_of s.runtime) (model_of s.runtime)),
    record s { board = b; runner = some (submit_from_peer d.turn_id sender message job r) },
  )

  abbrev pub message_from :
      Draws
      → Option PeerConfig
      → (sender message job : String) → Option SessionRunner
      → Server R
      → Outcome J × Server R
  message_from d peers sender message job none s =
      (throws (runtime_error "This server cannot accept a peer turn"), s)
  message_from d peers sender message job (some r) s =
      if is_stranger sender peers
      then (throws (request_refused (text_append "Unknown peer: " sender)), s)
      else if str_eq sender ""
      then (throws (request_refused "Missing or invalid 'from'"), s)
      else if str_eq message ""
      then (throws (request_refused "Missing or invalid 'message'"), s)
      else queued d (self_of peers) sender message job r s (claim_job d (self_of peers) job s.board)

  -- `HandlePeerMessage`
  unfoldable pub handle_peer_message :
      J → Draws → Option PeerConfig → Server R → Outcome J × Server R
  unfolding claim_job
  handle_peer_message body d peers s =
      message_from d peers (text_in json body "from") (text_in json body "message")
        (text_in json body "job") s.runner s

  -- The call of a row's handler.
  unfoldable pub handle : Handler → J → Draws → Option PeerConfig → Server R → Outcome J × Server R
  unfolding on_board handle_peer_message
  handle (of_session h) body d peers s = (
    (of_conversation h body s.runtime).0,
    record s { runtime = (of_conversation h body s.runtime).1 },
  )
  handle (of_board h) body d peers s =
      ((on_board json h body d s.board).0, record s { board = (on_board json h body d s.board).1 })
  handle peer_message body d peers s = handle_peer_message body d peers s

  -- `ParseBody` of a row that has a body; none where it throws.
  unfoldable pub body_of : Bool → Bytes → Option J
  body_of false bytes = some json.null
  body_of true bytes = if is_empty bytes then some (json.of_object []) else parse bytes

  abbrev pub respond : Route → Outcome J → Response J
  respond row (gives a) = answered row.status row.key a
  respond row (throws e) = failed (error_status e) e

  abbrev pub handled :
      Route → Draws → Option PeerConfig → Server R → Option J → Response J × Server R
  handled row d peers s none = (failed 400 (request_refused "Invalid JSON"), s)
  handled row d peers s (some body) =
      (respond row (handle row.handler body d peers s).0, (handle row.handler body d peers s).1)

  -- A peer's read of the board is how it is heard from.
  abbrev pub heard_from : Route → Draws → String → Server R → Server R
  heard_from row d peer s =
      if is_for_peers row.audience && row.needs_board && not (str_eq peer "")
      then record s { board = touched d.now peer s.board }
      else s

  -- What the loop does at the row of a request.
  unfoldable pub answer_row :
      Route → Request → Draws → Option PeerConfig → Server R → Response J × Server R
  unfolding handle body_of
  answer_row row q d peers s =
      let token = bearer_token q.authorization in
      let admission = admit row.audience q.address token peers in
      if not (is_allowed admission)
      then (refusal admission row.target, s)
      else if row.needs_board && is_none s.board
      then (no_board, s)
      else handled row d peers (heard_from row d (peer_for_token token peers) s)
          (body_of row.has_body q.body)

  abbrev pub at_row :
      Option Route → Request → Draws → Option PeerConfig → Server R → Response J × Server R
  at_row none q d peers s = (no_route, s)
  at_row (some row) q d peers s = answer_row row q d peers s

  -- `DispatchHttpRequest`
  unfoldable pub dispatch_http_request :
      Request → Draws → Option PeerConfig → Server R → Response J × Server R
  unfolding answer_row
  dispatch_http_request q d peers s =
      if is_page_file q.target
      then (page_file q.target, s)
      else at_row (find_route q.target q.method routes) q d peers s
