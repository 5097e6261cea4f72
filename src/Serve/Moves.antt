-- ===== src/Serve/Moves.antt =====
-- How far one request can move the board (src/app/serve_http_routes.cpp).
use pu_cli.Base.{
  ◌≤◌, String, Bool, true, false, not, ◌&&◌, ◌||◌, Option, none, some, List, [], ◌∷◌, ◌≡◌, ◌⊎◌, inl,
  inr, refl, sym, ap, ◌∙◌, subst, arith, Bytes, length, is_empty, if◌then◌else◌, str_eq,
}
use pu_cli.Board.Store.{Board, touch_peer}
use pu_cli.Board.Calls.{Call, post_job, update_job, answer_job, chase_job, drop_job, perform, run}
use pu_cli.Board.Verbs.{Readings}
use pu_cli.Session.Json.{JsonValue}
use pu_cli.Serve.Peers.{PeerConfig, accepts}
use pu_cli.Serve.Runner.{SessionRunner}
use pu_cli.Serve.Routes.{
  SessionHandler, BoardHandler, board, jobs_get, jobs_post, jobs_patch, jobs_answer, jobs_chase,
  jobs_drop, Handler, of_session, of_board, peer_message, Route, routes, find_route, bearer_token,
  admit, peer_for_token,
}
use pu_cli.Serve.Handlers.{
  Draws, Thrown, Outcome, text_in, job_from, person_verb, handle_board, on_board, self_of,
  is_stranger, claim_of, claim_job,
}
use pu_cli.Serve.Dispatch.{
  Server, Request, Response, is_none, is_allowed, is_for_peers, touched, queued, message_from,
  handle_peer_message, handled, handle, heard_from, body_of, answer_row, at_row,
  dispatch_http_request,
}

-- A board that at most one call of its verbs was made on.
abbrev pub IsMoved : Board → Option Board → Type 0
IsMoved b o = (cs : List Call) × (length cs ≤ 1) × (o ≡ some (run cs b))

IsMoved-nothing : (b : Board) → IsMoved b (some b)
unfolding run
IsMoved-nothing b = ([], omega arith, refl)

IsMoved-call : (c : Call) (b : Board) → IsMoved b (some (perform c b).1)
unfolding run
IsMoved-call c b = (c ∷ [], omega arith, refl)

either : {A : Type 0} (P : A → Type 0) (c : Bool) (x y : A) → P x → P y → P (if c then x else y)
either P true x y h k = h
either P false x y h k = k

claim_job-IsMoved :
    (d : Draws) (self job : String) (b : Board) → IsMoved b (claim_job d self job (some b)).1
unfolding claim_job
claim_job-IsMoved d self job b =
    either (λ (p : Option Thrown × Option Board). IsMoved b p.1) (str_eq job "") _ _
      (IsMoved-nothing b) (IsMoved-call (update_job d.readings (claim_of self job)) b)

module _ {J : Type 0} (json : JsonValue J) where
  person_verb-IsMoved :
      (verb : Readings → String → String → Call) (missing id text : String) (d : Draws) (b : Board)
      → IsMoved b (some (person_verb json verb missing id text d b).1)
  person_verb-IsMoved verb missing id text d b =
      let P : Outcome J × Board → Type 0 = λ p. IsMoved b (some p.1) in
      either P (str_eq id "") _ _ (IsMoved-nothing b) (
        either P (str_eq text "") _ _ (IsMoved-nothing b)
          (IsMoved-call (verb d.readings id text) b))

  on_board-IsMoved :
      (h : BoardHandler) (body : J) (d : Draws) (b : Board)
      → IsMoved b (on_board json h body d (some b)).1
  unfolding on_board handle_board
  on_board-IsMoved board body d b = IsMoved-nothing b
  on_board-IsMoved jobs_get body d b = IsMoved-nothing b
  on_board-IsMoved jobs_post body d b =
      IsMoved-call (post_job d.readings d.job_id d.stamp (job_from json body false)) b
  on_board-IsMoved jobs_patch body d b =
      IsMoved-call (update_job d.readings (job_from json body true)) b
  on_board-IsMoved jobs_answer body d b =
      person_verb-IsMoved answer_job "an answer needs the 'answer' text to send back"
        (text_in json body "job") (text_in json body "answer") d b
  on_board-IsMoved jobs_chase body d b =
      person_verb-IsMoved chase_job "asking about a job needs the 'note' to send"
        (text_in json body "job") (text_in json body "note") d b
  on_board-IsMoved jobs_drop body d b =
      person_verb-IsMoved drop_job "taking a job back needs the 'note' that says why"
        (text_in json body "job") (text_in json body "note") d b

-- A caller is named after the server itself, or not at all.
peer_for_token_self :
    (token : Bytes) (peers : Option PeerConfig)
    → (peer_for_token token peers ≡ "") ⊎ (peer_for_token token peers ≡ self_of peers)
unfolding peer_for_token
peer_for_token_self token none = inl refl
peer_for_token_self token (some c) =
    either (λ n. (n ≡ "") ⊎ (n ≡ c.self_name)) (is_empty token || not (accepts token c)) ""
      c.self_name (inl refl) (inr refl)

touch-nobody : (now : String) (b : Board) → touch_peer now "" "" b ≡ b
unfolding touch_peer
touch-nobody now b = refl

module _ {J R : Type 0} (json : JsonValue J) (parse : Bytes → Option J)
    (is_page_file : String → Bool) (of_conversation : SessionHandler → J → R → Outcome J × R)
    (agent_of model_of : R → String) where
  queued-IsMoved :
      (d : Draws) (self sender message job : String) (r : SessionRunner) (s : Server R) (b : Board)
      (p : Option Thrown × Option Board)
      → IsMoved b p.1
      → IsMoved b
          (queued json parse is_page_file of_conversation agent_of model_of d self sender message
            job r s p).1.board
  queued-IsMoved d self sender message job r s b (none, o) h = h
  queued-IsMoved d self sender message job r s b (some why, o) h = h

  message-IsMoved :
      (d : Draws) (peers : Option PeerConfig) (sender message job : String)
      (o : Option SessionRunner) (s : Server R) (b : Board)
      → s.board ≡ some b
      → IsMoved b
          (message_from json parse is_page_file of_conversation agent_of model_of d peers sender
            message job o s).1.board
  message-IsMoved d peers sender message job none s b e =
      subst (IsMoved b) (sym e) (IsMoved-nothing b)
  message-IsMoved d peers sender message job (some r) s b e =
      let still = subst (IsMoved b) (sym e) (IsMoved-nothing b) in
      let claimed =
        subst (λ o. IsMoved b (claim_job d (self_of peers) job o).1) (sym e)
          (claim_job-IsMoved d (self_of peers) job b) in
      let turn =
        queued-IsMoved d (self_of peers) sender message job r s b
          (claim_job d (self_of peers) job s.board) claimed in
      let P : Outcome J × Server R → Type 0 = λ p. IsMoved b p.1.board in
      either P (is_stranger sender peers) _ _ still
        (either P (str_eq sender "") _ _ still (either P (str_eq message "") _ _ still turn))

  handle-IsMoved :
      (h : Handler) (body : J) (d : Draws) (peers : Option PeerConfig) (s : Server R) (b : Board)
      → s.board ≡ some b
      → IsMoved b
          (handle json parse is_page_file of_conversation agent_of model_of h body d peers
            s).1.board
  unfolding handle handle_peer_message
  handle-IsMoved (of_session h) body d peers s b e = subst (IsMoved b) (sym e) (IsMoved-nothing b)
  handle-IsMoved (of_board h) body d peers s b e =
      subst (λ o. IsMoved b (on_board json h body d o).1) (sym e) (on_board-IsMoved json h body d b)
  handle-IsMoved peer_message body d peers s b e =
      message-IsMoved d peers (text_in json body "from") (text_in json body "message")
        (text_in json body "job") s.runner s b e

  handled-IsMoved :
      (row : Route) (d : Draws) (peers : Option PeerConfig) (s : Server R) (body : Option J)
      (b : Board)
      → s.board ≡ some b
      → IsMoved b
          (handled json parse is_page_file of_conversation agent_of model_of row d peers s
            body).1.board
  handled-IsMoved row d peers s none b e = subst (IsMoved b) (sym e) (IsMoved-nothing b)
  handled-IsMoved row d peers s (some body) b e = handle-IsMoved row.handler body d peers s b e

  -- The board as a request finds it: as it was, or with the server's own name as heard from.
  abbrev pub IsMovedBy : Draws → Option PeerConfig → Board → Option Board → Type 0
  IsMovedBy d peers b o =
      (a : Board) × ((a ≡ b) ⊎ (a ≡ touch_peer d.now (self_of peers) "" b)) × IsMoved a o

  heard_from-IsHeard :
      (row : Route) (d : Draws) (token : Bytes) (peers : Option PeerConfig) (s : Server R)
      (b : Board)
      → s.board ≡ some b
      → (a : Board) × ((a ≡ b) ⊎ (a ≡ touch_peer d.now (self_of peers) "" b))
        × ((heard_from json parse is_page_file of_conversation agent_of model_of row d
              (peer_for_token token peers)
              s).board
            ≡ some a)
  heard_from-IsHeard row d token peers s b e =
      let P : Server R → Type 0 = λ u.
        (a : Board) × ((a ≡ b) ⊎ (a ≡ touch_peer d.now (self_of peers) "" b))
        × (u.board ≡ some a) in
      let peer = peer_for_token token peers in
      let there : touched d.now peer s.board ≡ some (touch_peer d.now peer "" b) =
        ap (touched d.now peer) e in
      let at_name : (n : String)
          → peer ≡ n
          → touched d.now peer s.board ≡ some (touch_peer d.now n "" b) =
        λ n h. there ∙ ap (λ m. some (touch_peer d.now m "" b)) h in
      either P (is_for_peers row.audience && row.needs_board && not (str_eq peer "")) _ s
        (elim (peer_for_token_self token peers) [
          | inl h ↦ (b, inl refl, at_name "" h ∙ ap some (touch-nobody d.now b))
          | inr h ↦ (touch_peer d.now (self_of peers) "" b, inr refl, at_name (self_of peers) h)
        ])
        (b, inl refl, e)

  answer_row-IsMovedBy :
      (row : Route) (q : Request) (d : Draws) (peers : Option PeerConfig) (s : Server R) (b : Board)
      → s.board ≡ some b
      → IsMovedBy d peers b
          (answer_row json parse is_page_file of_conversation agent_of model_of row q d peers
            s).1.board
  unfolding answer_row
  answer_row-IsMovedBy row q d peers s b e =
      let token = bearer_token q.authorization in
      let P : Response J × Server R → Type 0 = λ p. IsMovedBy d peers b p.1.board in
      let still : IsMovedBy d peers b s.board =
        (b, inl refl, subst (IsMoved b) (sym e) (IsMoved-nothing b)) in
      let (a, from, there) = heard_from-IsHeard row d token peers s b e in
      let moved =
        handled-IsMoved row d peers
          (heard_from json parse is_page_file of_conversation agent_of model_of row d
            (peer_for_token token peers) s)
          (body_of json parse is_page_file of_conversation agent_of model_of row.has_body q.body) a
          there in
      either P (not (is_allowed (admit row.audience q.address token peers))) _ _ still
        (either P (row.needs_board && is_none s.board) _ _ still (a, from, moved))

  at_row-IsMovedBy :
      (o : Option Route) (q : Request) (d : Draws) (peers : Option PeerConfig) (s : Server R)
      (b : Board)
      → s.board ≡ some b
      → IsMovedBy d peers b
          (at_row json parse is_page_file of_conversation agent_of model_of o q d peers s).1.board
  at_row-IsMovedBy none q d peers s b e =
      (b, inl refl, subst (IsMoved b) (sym e) (IsMoved-nothing b))
  at_row-IsMovedBy (some row) q d peers s b e = answer_row-IsMovedBy row q d peers s b e

  -- Whatever a request is, it moves the board by at most one call of the board's verbs, on the board as
  -- it was or on the board with the server's own name as heard from, and with no other name.
  pub dispatch-IsMovedBy :
      (q : Request) (d : Draws) (peers : Option PeerConfig) (s : Server R) (b : Board)
      → s.board ≡ some b
      → IsMovedBy d peers b
          (dispatch_http_request json parse is_page_file of_conversation agent_of model_of q d peers
            s).1.board
  unfolding dispatch_http_request
  dispatch-IsMovedBy q d peers s b e =
      let P : Response J × Server R → Type 0 = λ p. IsMovedBy d peers b p.1.board in
      either P (is_page_file q.target) _ _
        (b, inl refl, subst (IsMoved b) (sym e) (IsMoved-nothing b))
        (at_row-IsMovedBy (find_route q.target q.method routes) q d peers s b e)
