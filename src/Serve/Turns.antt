-- ===== src/Serve/Turns.antt =====
-- What holds of the turn runner at all times (src/app/serve_runner.cpp).
use pu_cli.Base.{
  if_true, if_false, ℕ, suc, ◌-◌, ◌≤◌, String, Bool, true, false, Option, none, some, List, [], ◌∷◌,
  ◌++◌, ◌≡◌, inl, inr, refl, sym, ap, ◌∙◌, subst, arith, Bytes, length, length-append, length-drop,
  drop, str_eq, Bool-cases,
}
use pu_cli.Serve.Runner.{
  TurnRecord, SessionRunner, Job, find_page, page_of, wire_of, delivered, record_frame,
  deliver_frame, append_frame, finish_turn, add_frame, mark_finished, change_last, change_page,
  mark_finished, set_token, submit, stop, request_cancel, detach, same_page, turns_kept,
}
use pu_cli.Serve.Joining.{
  Message, run, cancel, handle_message, take_session, hand_over, attached_as, attach, keeps_out,
  client_of, finish, open_page, mark_closed,
}
use pu_cli.Serve.Worker.{Phase, idle, asking, closing, keep_turns, new_record}
use pu_cli.Serve.Watching.{change_last-append, drop-append}

-- The newest record is that of a job, and its turn has not finished.
abbrev pub IsCurrent : Job → List TurnRecord → Type 0
IsCurrent j turns =
    (before : List TurnRecord) × (t : TurnRecord) × (turns ≡ before ++ t ∷ [])
    × (t.id ≡ j.turn_id)
    × (t.finished ≡ false)

length-change_last :
    (f : TurnRecord → TurnRecord) (ts : List TurnRecord) → length (change_last f ts) ≡ length ts
unfolding change_last
length-change_last f [] = refl
length-change_last f (t ∷ []) = refl
length-change_last f (t ∷ u ∷ us) = ap suc (length-change_last f (u ∷ us))

pub add_frame-IsCurrent :
    (w : Bytes) (j : Job) (ts : List TurnRecord)
    → IsCurrent j ts
    → IsCurrent j (change_last (add_frame w) ts)
add_frame-IsCurrent w j ts h =
    let (before, t, e, own, live) = h in
    (
      before,
      add_frame w t,
      ap (change_last (add_frame w)) e ∙ change_last-append (add_frame w) before t,
      own,
      live,
    )

-- A turn that ends leaves the runner waiting.
pub finish_turn-few :
    (r : SessionRunner)
    → length r.turns ≤ turns_kept
    → r.running ≡ false
    → (length (finish_turn r).turns ≤ turns_kept) × ((finish_turn r).running ≡ false)
unfolding finish_turn
finish_turn-few r few over = (omega (arith, few, length-change_last mark_finished r.turns), over)

-- A turn that begins is the newest record.
pub keep_turns-IsCurrent :
    (j : Job) (ts : List TurnRecord)
    → length ts ≤ turns_kept
    → (length (keep_turns (ts ++ new_record j ∷ [])) ≤ turns_kept)
      × IsCurrent j (keep_turns (ts ++ new_record j ∷ []))
unfolding keep_turns
keep_turns-IsCurrent j ts few =
    let all = ts ++ new_record j ∷ [] in
    let size = length-append ts (new_record j ∷ []) in
    (
      omega (arith, length-drop (length all - turns_kept) all),
      (
        drop (length all - turns_kept) ts,
        new_record j,
        drop-append (length all - turns_kept) ts (new_record j ∷ []) (omega (arith, size, few)),
        refl,
        refl,
      ),
    )

module _ {J Amount : Type 0} where
  -- The runner counts as running, can be cancelled and records the turn, as what the worker is at.
  abbrev pub IsAt : Phase J Amount → Bool → Option Bool → List TurnRecord → Type 0
  IsAt idle running token turns = running ≡ false
  IsAt (asking j) running token turns =
      (running ≡ true) × ((b : Bool) × (token ≡ some b)) × IsCurrent j turns
  IsAt (closing j x fs) running token turns = (running ≡ true) × (token ≡ none) × IsCurrent j turns

  -- At most eight turns are kept, and the runner is as what the worker is at.
  abbrev pub IsSteady : Phase J Amount → SessionRunner → Type 0
  IsSteady ph r = (length r.turns ≤ turns_kept) × IsAt ph r.running r.cancel_token r.turns

  set_token-IsAt :
      (ph : Phase J Amount) (running : Bool) (token : Option Bool) (turns : List TurnRecord)
      → IsAt ph running token turns
      → IsAt ph running (set_token token) turns
  set_token-IsAt idle running token turns h = h
  set_token-IsAt (asking j) running token turns h =
      let (live, (b, e), now) = h in (live, (true, ap set_token e), now)
  set_token-IsAt (closing j x fs) running token turns h =
      let (live, e, now) = h in (live, ap set_token e, now)

  -- Recording a frame keeps the records as many as they were.
  add_frame-IsAt :
      (w : Bytes) (ph : Phase J Amount) (running : Bool) (token : Option Bool)
      (ts : List TurnRecord)
      → IsAt ph running token ts
      → IsAt ph running token (change_last (add_frame w) ts)
  add_frame-IsAt w idle running token ts h = h
  add_frame-IsAt w (asking j) running token ts h =
      let (live, t, now) = h in (live, t, add_frame-IsCurrent w j ts now)
  add_frame-IsAt w (closing j x fs) running token ts h =
      let (live, t, now) = h in (live, t, add_frame-IsCurrent w j ts now)

  -- What is delivered changes pages only.
  delivered-IsSteady :
      (w : Bytes) (ph : Phase J Amount) (r : SessionRunner) (o : Option ℕ)
      → IsSteady ph r
      → IsSteady ph (delivered w r o)
  delivered-IsSteady w ph r none h = h
  delivered-IsSteady w ph r (some c) h = h

  pub append_frame-IsSteady :
      (text : Bytes) (ph : Phase J Amount) (r : SessionRunner)
      → IsSteady ph r
      → IsSteady ph (append_frame text r)
  unfolding append_frame record_frame deliver_frame
  append_frame-IsSteady text ph r h =
      let w = wire_of text in
      delivered-IsSteady w ph (record_frame w r) r.attached (
        omega (arith, h.0, length-change_last (add_frame w) r.turns),
        add_frame-IsAt w ph r.running r.cancel_token r.turns h.1,
      )

  detach-IsSteady :
      (d : ℕ) (ph : Phase J Amount) (r : SessionRunner) → IsSteady ph r → IsSteady ph (detach d r)
  unfolding detach request_cancel
  detach-IsSteady d ph r h = elim (Bool-cases (same_page d r.attached)) [
    | inl e ↦
        subst (IsSteady ph) (sym (if_true (same_page d r.attached) _ r e))
          (h.0, set_token-IsAt ph r.running r.cancel_token r.turns h.1)
    | inr e ↦ subst (IsSteady ph) (sym (if_false (same_page d r.attached) _ r e)) h
  ]

  pub finish-IsSteady :
      (d : ℕ) (ph : Phase J Amount) (r : SessionRunner) → IsSteady ph r → IsSteady ph (finish d r)
  unfolding finish
  finish-IsSteady d ph r h =
      let gone = record r { pages = change_page d mark_closed r.pages } in
      elim (Bool-cases (open_page (find_page d r.pages))) [
        | inl e ↦
            subst (IsSteady ph) (sym (if_true (open_page (find_page d r.pages)) _ r e))
              (detach-IsSteady d ph gone h)
        | inr e ↦ subst (IsSteady ph) (sym (if_false (open_page (find_page d r.pages)) _ r e)) h
      ]

  pub stop-IsSteady :
      (ph : Phase J Amount) (r : SessionRunner) → IsSteady ph r → IsSteady ph (stop r)
  unfolding stop
  stop-IsSteady ph r h = elim (Bool-cases r.stopping) [
    | inl e ↦ subst (IsSteady ph) (sym (if_true r.stopping r _ e)) h
    | inr e ↦
        subst (IsSteady ph) (sym (if_false r.stopping r _ e))
          (h.0, set_token-IsAt ph r.running r.cancel_token r.turns h.1)
  ]

  pub hears-IsSteady :
      (id : String) (d : ℕ) (m : Message) (ph : Phase J Amount) (r : SessionRunner)
      → IsSteady ph r
      → IsSteady ph (handle_message id d m r)
  unfolding handle_message submit request_cancel
  hears-IsSteady id d (run text) ph r h = elim (Bool-cases (str_eq text "")) [
    | inl e ↦ subst (IsSteady ph) (sym (if_true (str_eq text "") r _ e)) h
    | inr e ↦ subst (IsSteady ph) (sym (if_false (str_eq text "") r _ e)) h
  ]
  hears-IsSteady id d cancel ph r h = (h.0, set_token-IsAt ph r.running r.cancel_token r.turns h.1)

  pub attach-IsSteady :
      (resent : Bytes → Bytes) (c : ℕ) (ph : Phase J Amount) (r : SessionRunner)
      → IsSteady ph r
      → IsSteady ph (attach resent c r).1
  unfolding attach take_session hand_over
  attach-IsSteady resent c ph r h =
      let current = page_of r.attached r.pages in
      let kept = keeps_out c (client_of (find_page c r.pages)) current in
      elim (Bool-cases kept) [
        | inl e ↦
            subst (λ o. IsSteady ph (attached_as resent c r o).1) (sym (if_true kept none _ e)) h
        | inr e ↦
            subst (λ o. IsSteady ph (attached_as resent c r o).1) (sym (if_false kept none _ e)) h
      ]
