-- ===== src/Serve/Routes.antt =====
-- The routes of the server and who each answers (src/app/serve_http_routes.cpp,
-- src/app/serve_internal.hpp). Addresses, tokens and header values are bytes.
use pu_cli.Base.{
  ℕ, String, Bool, true, false, not, ◌&&◌, ◌||◌, Option, none, some, List, [], ◌∷◌, Bytes, codes,
  length, take, drop, is_empty, leb, ◌==◌, if◌then◌else◌, str_eq,
}
use pu_cli.Serve.Peers.{PeerConfig, accepts}

pub data Audience : Type 0 where
  anyone loopback peer_token : Audience

pub data Admission : Type 0 where
  allowed not_from_here no_topology wrong_token : Admission

-- `http::verb`, as far as the table names it.
pub data Verb : Type 0 where
  get post patch other : Verb

-- The handlers, by their names.
pub data SessionHandler : Type 0 where
  session history agents agent_switch rewind settings set_setting reset_settings servers :
      SessionHandler

pub data BoardHandler : Type 0 where
  board jobs_get jobs_post jobs_patch jobs_answer jobs_chase jobs_drop : BoardHandler

pub data Handler : Type 0 where
  of_session : SessionHandler → Handler
  of_board : BoardHandler → Handler
  peer_message : Handler

pub record Route : Type 0 where
  pub target : String
  pub method : Verb
  pub handler : Handler
  pub key : String
  pub audience : Audience
  pub status : ℕ
  pub has_body : Bool
  pub needs_board : Bool
  pub board_only : Bool

-- A row of the conversation's routes, and one of the board's.
abbrev pub session_route : String → Verb → SessionHandler → String → Audience → Bool → Route
session_route target method handler key audience has_body = record {
  target = target;
  method = method;
  handler = of_session handler;
  key = key;
  audience = audience;
  status = 200;
  has_body = has_body;
  needs_board = false;
  board_only = false;
}

abbrev pub board_route : String → Verb → BoardHandler → Audience → Bool → Route
board_route target method handler audience has_body = record {
  target = target;
  method = method;
  handler = of_board handler;
  key = "";
  audience = audience;
  status = 200;
  has_body = has_body;
  needs_board = true;
  board_only = true;
}

abbrev pub message_route : Route
message_route = record {
  target = "/api/peer/message";
  method = post;
  handler = peer_message;
  key = "";
  audience = peer_token;
  status = 202;
  has_body = true;
  needs_board = false;
  board_only = false;
}

-- `kRoutes`
abbrev pub routes : List Route
routes =
    session_route "/api/session" get session "" anyone false
    ∷ session_route "/api/history" get history "messages" anyone false
    ∷ session_route "/api/agents" get agents "agents" anyone false
    ∷ session_route "/api/agent/switch" post agent_switch "" anyone true
    ∷ session_route "/api/rewind" post rewind "" anyone true
    ∷ session_route "/api/settings" get settings "" anyone false
    ∷ session_route "/api/settings" post set_setting "" anyone true
    ∷ session_route "/api/settings/reset" post reset_settings "" anyone false
    ∷ session_route "/api/servers" get servers "servers" loopback false
    ∷ board_route "/api/board" get board loopback false
    ∷ board_route "/api/jobs" get jobs_get peer_token false
    ∷ board_route "/api/jobs" post jobs_post peer_token true
    ∷ board_route "/api/jobs" patch jobs_patch peer_token true
    ∷ board_route "/api/jobs/answer" post jobs_answer peer_token true
    ∷ board_route "/api/jobs/chase" post jobs_chase peer_token true
    ∷ board_route "/api/jobs/drop" post jobs_drop peer_token true
    ∷ message_route
    ∷ []

abbrev pub same_verb : Verb → Verb → Bool
same_verb get get = true
same_verb post post = true
same_verb patch patch = true
same_verb _ _ = false

-- The row that the loop of `DispatchHttpRequest` stops at.
unfoldable pub find_route : String → Verb → List Route → Option Route
find_route target method [] = none
find_route target method (r ∷ rs) =
    if str_eq r.target target && same_verb r.method method
    then some r
    else find_route target method rs

unfoldable pub same_bytes : Bytes → Bytes → Bool
same_bytes [] [] = true
same_bytes [] (y ∷ ys) = false
same_bytes (x ∷ xs) [] = false
same_bytes (x ∷ xs) (y ∷ ys) = (x == y) && same_bytes xs ys

-- `IsLoopback`
unfoldable pub is_loopback : Bytes → Bool
unfolding same_bytes
is_loopback address =
    same_bytes (take 4 address) (codes "127.")
    || same_bytes address (codes "::1")
    || same_bytes address (codes "::ffff:127.0.0.1")

abbrev pub bearer_prefix : Bytes
bearer_prefix = codes "Bearer "

-- `BearerToken`, of the `Authorization` header.
unfoldable pub bearer_token : Option Bytes → Bytes
unfolding same_bytes
bearer_token none = []
bearer_token (some value) =
    if leb (length value) 7 || not (same_bytes (take 7 value) bearer_prefix)
    then []
    else drop 7 value

abbrev pub admit_peer : Bytes → Option PeerConfig → Admission
admit_peer token none = no_topology
admit_peer token (some c) = if is_empty token || not (accepts token c) then wrong_token else allowed

-- `Admit`
unfoldable pub admit : Audience → Bytes → Bytes → Option PeerConfig → Admission
unfolding is_loopback
admit anyone address token peers = allowed
admit loopback address token peers = if is_loopback address then allowed else not_from_here
admit peer_token address token peers = admit_peer token peers

-- `PeerForToken`
unfoldable pub peer_for_token : Bytes → Option PeerConfig → String
peer_for_token token none = ""
peer_for_token token (some c) = if is_empty token || not (accepts token c) then "" else c.self_name
