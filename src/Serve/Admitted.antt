-- ===== src/Serve/Admitted.antt =====
-- Who can move the board and queue a turn (src/app/serve_http_routes.cpp).
use mathlib.Core.Option.{some-injective}
use pu_cli.Base.{
  ◌⊎◌, ◌≢◌, ◌<◌, All, length, if_true, if_false, String, Bool, true, false, not, ◌&&◌, ◌||◌, Option,
  none, some, List, [], ◌∷◌, ◌≡◌, inl, inr, refl, sym, ap, ◌∙◌, subst, arith, Bytes, str_eq,
  Bool-cases,
}
use pu_cli.Board.Store.{Board}
use pu_cli.Session.Json.{JsonValue}
use pu_cli.Serve.Peers.{PeerConfig, accepts, constant_time_equals}
use pu_cli.Serve.Secret.{IsByte, constant_time_equals-eq}
use pu_cli.Serve.Routes.{
  Audience, anyone, loopback, peer_token, Verb, SessionHandler, board, jobs_get, jobs_post,
  jobs_patch, jobs_answer, jobs_chase, jobs_drop, Handler, of_session, of_board, peer_message,
  Route, routes, same_verb, find_route, bearer_token, admit_peer, admit, peer_for_token,
}
use pu_cli.Serve.Handlers.{Draws, Outcome, on_board, handle_board}
use pu_cli.Serve.Dispatch.{
  Server, Request, Response, is_none, is_allowed, is_for_peers, heard_from, handled, handle,
  body_of, answer_row, at_row, dispatch_http_request,
}

-- Whether a handler leaves the board and the runner alone.
abbrev only_reads : Handler → Bool
only_reads (of_session h) = true
only_reads (of_board board) = true
only_reads _ = false

-- Whether a row's handler does no more, or the row answers peers alone.
abbrev is_guarded : Route → Bool
is_guarded row = is_for_peers row.audience || only_reads row.handler

abbrev pub every : (Route → Bool) → List Route → Bool
every p [] = true
every p (r ∷ rs) = p r && every p rs

all_guarded : every is_guarded routes ≡ true
all_guarded = refl

pub find_route-every :
    (p : Route → Bool) (target : String) (method : Verb) (rs : List Route) (row : Route)
    → every p rs ≡ true
    → find_route target method rs ≡ some row
    → p row ≡ true
unfolding find_route
find_route-every p target method [] row h e = absurd (ground arith)
find_route-every p target method (r ∷ rs) row h e =
    let here = str_eq r.target target && same_verb r.method method in
    elim (Bool-cases here) [
      | inl k ↦
          subst (λ x. p x ≡ true) (some-injective r row (sym (if_true here _ _ k) ∙ e))
            (ground (arith, h))
      | inr k ↦
          find_route-every p target method rs row (ground (arith, h))
            (sym (if_false here _ _ k) ∙ e)
    ]

admit-peers :
    (audience : Audience) (address token : Bytes) (peers : Option PeerConfig)
    → is_for_peers audience ≡ true
    → admit audience address token peers ≡ admit_peer token peers
unfolding admit
admit-peers anyone address token peers e = absurd (ground arith)
admit-peers loopback address token peers e = absurd (ground arith)
admit-peers peer_token address token peers e = refl

-- Whoever presents no token, or speaks with a server that has none, or presents another token than the
-- server's; both are bytes, and less than 256 of them.
abbrev pub IsOutsider : Bytes → Option PeerConfig → Type 0
IsOutsider token none = Unit
IsOutsider token (some c) =
    (token ≡ [])
    ⊎ (c.token ≡ [])
    ⊎ ((token ≢ c.token)
        × (All IsByte token × All IsByte c.token)
        × (length token < 256)
        × (length c.token < 256))

unequal :
    (a b : Bytes)
    → a ≢ b
    → All IsByte a
    → All IsByte b
    → length a < 256
    → length b < 256
    → constant_time_equals b a ≡ false
unequal a b apart ha hb p q = elim (Bool-cases (constant_time_equals b a)) [
  | inl e ↦ absurd (apart (sym ((constant_time_equals-eq b a hb ha q p).0 e)))
  | inr e ↦ e
]

outsider_is_refused :
    (token : Bytes) (peers : Option PeerConfig)
    → IsOutsider token peers
    → is_allowed (admit_peer token peers) ≡ false
unfolding accepts
outsider_is_refused token none h = refl
outsider_is_refused token (some c) (inl e) = rw e refl
outsider_is_refused token (some c) (inr (inl e)) = rw e (ground arith)
outsider_is_refused token (some c) (inr (inr (apart, (ht, hc), p, q))) =
    ground (arith, unequal token c.token apart ht hc p q)

module _ {J R : Type 0} (json : JsonValue J) (parse : Bytes → Option J)
    (is_page_file : String → Bool) (of_conversation : SessionHandler → J → R → Outcome J × R)
    (agent_of model_of : R → String) where
  abbrev pub IsKept : Server R → Response J × Server R → Type 0
  IsKept s p = (p.1.board ≡ s.board) × (p.1.runner ≡ s.runner)

  on_board-kept : (body : J) (d : Draws) (b : Option Board) → (on_board json board body d b).1 ≡ b
  unfolding on_board handle_board
  on_board-kept body d none = refl
  on_board-kept body d (some b) = refl

  handle-kept :
      (h : Handler) (body : J) (d : Draws) (peers : Option PeerConfig) (s : Server R)
      → only_reads h ≡ true
      → ((handle json parse is_page_file of_conversation agent_of model_of h body d peers s).1.board
          ≡ s.board)
        × ((handle json parse is_page_file of_conversation agent_of model_of h body d peers
              s).1.runner
            ≡ s.runner)
  unfolding handle
  handle-kept (of_session h) body d peers s e = (refl, refl)
  handle-kept (of_board board) body d peers s e = (on_board-kept body d s.board, refl)
  handle-kept (of_board jobs_get) body d peers s e = absurd (ground arith)
  handle-kept (of_board jobs_post) body d peers s e = absurd (ground arith)
  handle-kept (of_board jobs_patch) body d peers s e = absurd (ground arith)
  handle-kept (of_board jobs_answer) body d peers s e = absurd (ground arith)
  handle-kept (of_board jobs_chase) body d peers s e = absurd (ground arith)
  handle-kept (of_board jobs_drop) body d peers s e = absurd (ground arith)
  handle-kept peer_message body d peers s e = absurd (ground arith)

  handled-IsKept :
      (row : Route) (d : Draws) (peers : Option PeerConfig) (s : Server R) (body : Option J)
      → only_reads row.handler ≡ true
      → IsKept s
          (handled json parse is_page_file of_conversation agent_of model_of row d peers s body)
  handled-IsKept row d peers s none e = (refl, refl)
  handled-IsKept row d peers s (some body) e = handle-kept row.handler body d peers s e

  heard_from-other :
      (row : Route) (d : Draws) (peer : String) (s : Server R)
      → is_for_peers row.audience ≡ false
      → heard_from json parse is_page_file of_conversation agent_of model_of row d peer s ≡ s
  heard_from-other row d peer s e =
      let heard = is_for_peers row.audience && row.needs_board && not (str_eq peer "") in
      if_false heard _ s (ground (arith, e))

  -- A row that answers peers alone refuses a caller without the token; any other row only reads.
  answer_row-IsKept :
      (row : Route) (q : Request) (d : Draws) (peers : Option PeerConfig) (s : Server R)
      → is_guarded row ≡ true
      → is_allowed (admit_peer (bearer_token q.authorization) peers) ≡ false
      → IsKept s
          (answer_row json parse is_page_file of_conversation agent_of model_of row q d peers s)
  unfolding answer_row
  answer_row-IsKept row q d peers s g outside =
      let token = bearer_token q.authorization in
      let refused = not (is_allowed (admit row.audience q.address token peers)) in
      let bare = row.needs_board && is_none s.board in
      let body =
        body_of json parse is_page_file of_conversation agent_of model_of row.has_body q.body in
      elim (Bool-cases (is_for_peers row.audience)) [
        | inl e ↦
            let turned =
              ap is_allowed (admit-peers row.audience q.address token peers e) ∙ outside in
            subst (IsKept s) (sym (if_true refused _ _ (ap not turned))) (refl, refl)
        | inr e ↦
            let heard = heard_from-other row d (peer_for_token token peers) s e in
            let kept =
              subst
                (λ u. IsKept s (
                  handled json parse is_page_file of_conversation agent_of model_of row d peers u
                    body))
                (sym heard) (handled-IsKept row d peers s body (ground (arith, g, e))) in
            elim (Bool-cases refused) [
              | inl a ↦ subst (IsKept s) (sym (if_true refused _ _ a)) (refl, refl)
              | inr a ↦ subst (IsKept s) (sym (if_false refused _ _ a)) (elim (Bool-cases bare) [
                | inl b ↦ subst (IsKept s) (sym (if_true bare _ _ b)) (refl, refl)
                | inr b ↦ subst (IsKept s) (sym (if_false bare _ _ b)) kept
              ])
            ]
      ]

  at_row-IsKept :
      (o : Option Route) (q : Request) (d : Draws) (peers : Option PeerConfig) (s : Server R)
      → find_route q.target q.method routes ≡ o
      → is_allowed (admit_peer (bearer_token q.authorization) peers) ≡ false
      → IsKept s (at_row json parse is_page_file of_conversation agent_of model_of o q d peers s)
  at_row-IsKept none q d peers s found outside = (refl, refl)
  at_row-IsKept (some row) q d peers s found outside =
      answer_row-IsKept row q d peers s
        (find_route-every is_guarded q.target q.method routes row all_guarded found) outside

  -- A request that presents no token, or another than the server's, leaves the board and the queue of
  -- turns as they were, whatever it asks and from wherever it comes; so does any request to a server
  -- that has no token or no peers. The tokens are bytes, and less than 256 of them.
  pub dispatch-IsKept :
      (q : Request) (d : Draws) (peers : Option PeerConfig) (s : Server R)
      → IsOutsider (bearer_token q.authorization) peers
      → IsKept s (
          dispatch_http_request json parse is_page_file of_conversation agent_of model_of q d peers
            s)
  unfolding dispatch_http_request
  dispatch-IsKept q d peers s h =
      let outside = outsider_is_refused (bearer_token q.authorization) peers h in
      elim (Bool-cases (is_page_file q.target)) [
        | inl e ↦ subst (IsKept s) (sym (if_true (is_page_file q.target) _ _ e)) (refl, refl)
        | inr e ↦
            subst (IsKept s) (sym (if_false (is_page_file q.target) _ _ e))
              (at_row-IsKept (find_route q.target q.method routes) q d peers s refl outside)
      ]
