-- ===== src/Serve/Between.antt =====
-- What calls of other threads leave alone while the worker is between two steps
-- (src/app/serve_runner.cpp, src/app/serve_websocket.cpp).
use pu_cli.Base.{
  if_true, if_false, ℕ, String, Bool, true, false, some, List, [], ◌∷◌, ◌≡◌, inl, inr, refl, sym,
  subst, Bytes, str_eq, arith, Bool-cases,
}
use pu_cli.Board.Job.{BoardError}
use pu_cli.Serve.Runner.{
  SessionRunner, find_page, page_of, change_page, submit, stop, request_cancel, detach, same_page,
  submit_from_peer,
}
use pu_cli.Serve.Joining.{
  Message, run, cancel, handle_message, take_session, hand_over, attached_as, attach, keeps_out,
  client_of, finish, open_page, mark_closed,
}
use pu_cli.Serve.Worker.{
  Frame, Serving, Event, opens, attaches, marks, finishes, hears, peer_submits, stops, begins,
  reports, says, returns, throws, ends, step,
}

-- The records are the same, and so is whether a turn runs.
abbrev IsSame : SessionRunner → SessionRunner → Type 0
IsSame r q = (q.turns ≡ r.turns) × (q.running ≡ r.running)

detach-IsSame : (d : ℕ) (r : SessionRunner) → IsSame r (detach d r)
unfolding detach request_cancel
detach-IsSame d r = elim (Bool-cases (same_page d r.attached)) [
  | inl e ↦ subst (IsSame r) (sym (if_true (same_page d r.attached) _ r e)) (refl, refl)
  | inr e ↦ subst (IsSame r) (sym (if_false (same_page d r.attached) _ r e)) (refl, refl)
]

finish-IsSame : (d : ℕ) (r : SessionRunner) → IsSame r (finish d r)
unfolding finish
finish-IsSame d r =
    let gone = record r { pages = change_page d mark_closed r.pages } in
    elim (Bool-cases (open_page (find_page d r.pages))) [
      | inl e ↦
          subst (IsSame r) (sym (if_true (open_page (find_page d r.pages)) _ r e))
            (detach-IsSame d gone)
      | inr e ↦
          subst (IsSame r) (sym (if_false (open_page (find_page d r.pages)) _ r e)) (refl, refl)
    ]

stop-IsSame : (r : SessionRunner) → IsSame r (stop r)
unfolding stop
stop-IsSame r = elim (Bool-cases r.stopping) [
  | inl e ↦ subst (IsSame r) (sym (if_true r.stopping r _ e)) (refl, refl)
  | inr e ↦ subst (IsSame r) (sym (if_false r.stopping r _ e)) (refl, refl)
]

hears-IsSame :
    (id : String) (d : ℕ) (m : Message) (r : SessionRunner) → IsSame r (handle_message id d m r)
unfolding handle_message submit request_cancel
hears-IsSame id d (run text) r = elim (Bool-cases (str_eq text "")) [
  | inl e ↦ subst (IsSame r) (sym (if_true (str_eq text "") r _ e)) (refl, refl)
  | inr e ↦ subst (IsSame r) (sym (if_false (str_eq text "") r _ e)) (refl, refl)
]
hears-IsSame id d cancel r = (refl, refl)

attach-IsSame :
    (resent : Bytes → Bytes) (c : ℕ) (r : SessionRunner) → IsSame r (attach resent c r).1
unfolding attach take_session hand_over
attach-IsSame resent c r =
    let current = page_of r.attached r.pages in
    let kept = keeps_out c (client_of (find_page c r.pages)) current in
    elim (Bool-cases kept) [
      | inl e ↦
          subst (λ o. IsSame r (attached_as resent c r o).1) (sym (if_true kept _ _ e)) (refl, refl)
      | inr e ↦
          subst (λ o. IsSame r (attached_as resent c r o).1) (sym (if_false kept _ _ e))
            (refl, refl)
    ]

module _ {J Amount : Type 0} where
  -- Whether an event is a step of the worker.
  abbrev pub is_own : Event J Amount → Bool
  is_own begins = true
  is_own reports = true
  is_own (says f) = true
  is_own (returns x spent) = true
  is_own (throws t why) = true
  is_own (ends t) = true
  is_own _ = false

  abbrev pub add_own : Bool → Event J Amount → List (Event J Amount) → List (Event J Amount)
  add_own true e es = e ∷ es
  add_own false e es = es

  -- The steps of the worker among events.
  abbrev pub own_steps : List (Event J Amount) → List (Event J Amount)
  own_steps [] = []
  own_steps (e ∷ es) = add_own (is_own e) e (own_steps es)

  -- A server that is for the worker as it was.
  pub record IsAsBefore (s u : Serving J Amount) : Type 0 where
    pub phase : u.phase ≡ s.phase
    pub board : u.board ≡ s.board
    pub runner : IsSame s.runner u.runner

  module _ (resent : Bytes → Bytes) (serialize : Frame J → Bytes) (self : String)
      (reason : BoardError → String) where
    abbrev pub LeavesAlone : Event J Amount → Serving J Amount → Type 0
    LeavesAlone e s =
        (u : Serving J Amount) × (step resent serialize self reason e s ≡ some u) × IsAsBefore s u

    changes :
        (s : Serving J Amount) (r : SessionRunner)
        → IsSame s.runner r
        → IsAsBefore s (record s { runner = r })
    changes s r h = record { phase = refl; board = refl; runner = h }

    -- Any other event can happen at any time, and leaves the worker alone.
    pub other_step :
        (e : Event J Amount) (s : Serving J Amount) → is_own e ≡ false → LeavesAlone e s
    unfolding step submit_from_peer
    other_step (opens d client) s q = (_, refl, changes s _ (refl, refl))
    other_step (attaches d) s q = (_, refl, changes s _ (attach-IsSame resent d s.runner))
    other_step (marks d) s q = (_, refl, changes s _ (refl, refl))
    other_step (finishes d) s q = (_, refl, changes s _ (finish-IsSame d s.runner))
    other_step (hears id d m) s q = (_, refl, changes s _ (hears-IsSame id d m s.runner))
    other_step (peer_submits id sender text job) s q = (_, refl, changes s _ (refl, refl))
    other_step stops s q = (_, refl, changes s _ (stop-IsSame s.runner))
    other_step begins s q = absurd (ground arith)
    other_step reports s q = absurd (ground arith)
    other_step (says f) s q = absurd (ground arith)
    other_step (returns x spent) s q = absurd (ground arith)
    other_step (throws t why) s q = absurd (ground arith)
    other_step (ends t) s q = absurd (ground arith)
