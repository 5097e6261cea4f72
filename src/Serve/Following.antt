-- ===== src/Serve/Following.antt =====
-- A page that joins a turn is told all of it (`Attach` of src/app/serve_runner.cpp), whatever else
-- happens.
use mathlib.Core.Option.{some-injective}
use pu_cli.Base.{
  if_true, if_false, ℕ, String, Bool, true, false, not, Option, none, some, List, ◌≡◌, inl, inr,
  refl, sym, ap, ◌∙◌, subst, arith, Bytes, ◌==◌, ==_iff, str_eq, Bool-cases,
}
use pu_cli.Board.Job.{BoardError}
use pu_cli.Board.Store.{Board}
use pu_cli.Board.Verbs.{Readings}
use pu_cli.Runtime.Data.{ExecutionResult}
use pu_cli.Serve.Runner.{
  SessionRunner, Job, find_page, change_page, submit, stop, request_cancel, detach, same_page,
}
use pu_cli.Serve.Joining.{
  Message, run, cancel, handle_message, mark_closed, attach_to_page, finish, open_page,
}
use pu_cli.Serve.Worker.{
  Frame, Serving, Event, attaches, finishes, begins, take_result, report_failed_turn, closed_with,
  done_empty, error,
}
use pu_cli.Serve.Closing.{ends_silently}
use pu_cli.Serve.Watching.{find_page-change_page, find_page-change_other}
use pu_cli.Serve.Joined.{IsHereOf, append_frame-IsHere, finish_turn-IsHere, changed-IsHere}

apart_sym : (c d : ℕ) → not (d == c) ≡ true → (c == d) ≡ false
apart_sym c d h = ground arith

apart : (c d : ℕ) → not (d == c) ≡ true → (d == c) ≡ false
apart c d h = ground arith

module _ (c : ℕ) (base : List Bytes) where
  pub detach-IsHere :
      (d : ℕ) (r : SessionRunner)
      → (c == d) ≡ false
      → IsHereOf c base r
      → IsHereOf c base (detach d r)
  unfolding detach request_cancel
  detach-IsHere d r k h =
      let no : same_page d r.attached ≡ false = ap (same_page d) h.here ∙ k in
      subst (IsHereOf c base) (sym (if_false (same_page d r.attached) _ r no)) h

  pub finish-IsHere :
      (d : ℕ) (r : SessionRunner)
      → not (d == c) ≡ true
      → IsHereOf c base r
      → IsHereOf c base (finish d r)
  unfolding finish
  finish-IsHere d r k h =
      let gone = record r { pages = change_page d mark_closed r.pages } in
      let kept =
        changed-IsHere c base r gone.pages h h.page
          (find_page-change_other mark_closed (λ p. refl) c d r.pages (apart c d k) ∙ h.found) refl
          refl in
      elim (Bool-cases (open_page (find_page d r.pages))) [
        | inl o ↦
            subst (IsHereOf c base) (sym (if_true (open_page (find_page d r.pages)) _ r o))
              (detach-IsHere d gone (apart_sym c d k) kept)
        | inr o ↦ subst (IsHereOf c base) (sym (if_false (open_page (find_page d r.pages)) _ r o)) h
      ]

  pub marks-IsHere :
      (d : ℕ) (r : SessionRunner)
      → IsHereOf c base r
      → IsHereOf c base (record r { pages = change_page d attach_to_page r.pages })
  marks-IsHere d r h = elim (Bool-cases (d == c)) [
    | inl k ↦
        changed-IsHere c base r (change_page d attach_to_page r.pages) h (attach_to_page h.page)
          (ap (λ n. find_page c (change_page n attach_to_page r.pages)) ((==_iff d c).0 k)
            ∙ find_page-change_page attach_to_page (λ p. refl) c r.pages h.page h.found)
          refl refl
    | inr k ↦
        changed-IsHere c base r (change_page d attach_to_page r.pages) h h.page
          (find_page-change_other attach_to_page (λ p. refl) c d r.pages k ∙ h.found) refl refl
  ]

  pub hears-IsHere :
      (id : String) (d : ℕ) (m : Message) (r : SessionRunner)
      → IsHereOf c base r
      → IsHereOf c base (handle_message id d m r)
  unfolding handle_message submit request_cancel
  hears-IsHere id d (run text) r h = elim (Bool-cases (str_eq text "")) [
    | inl e ↦ subst (IsHereOf c base) (sym (if_true (str_eq text "") r _ e)) h
    | inr e ↦ subst (IsHereOf c base) (sym (if_false (str_eq text "") r _ e)) h
  ]
  hears-IsHere id d cancel r h = h

  pub stop-IsHere : (r : SessionRunner) → IsHereOf c base r → IsHereOf c base (stop r)
  unfolding stop
  stop-IsHere r h = elim (Bool-cases r.stopping) [
    | inl e ↦ subst (IsHereOf c base) (sym (if_true r.stopping r _ e)) h
    | inr e ↦ subst (IsHereOf c base) (sym (if_false r.stopping r _ e)) h
  ]

  module _ {J Amount : Type 0} where
    -- What leaves the page alone: no other page attaches, this one does not go, no turn begins.
    abbrev pub leaves_alone : Event J Amount → Bool
    leaves_alone (attaches d) = false
    leaves_alone (finishes d) = not (d == c)
    leaves_alone begins = false
    leaves_alone _ = true

    abbrev pub IsIn : Serving J Amount → Type 0
    IsIn s = IsHereOf c base s.runner

    pub arrives : (s t : Serving J Amount) → some s ≡ some t → IsIn s → IsIn t
    arrives s t e h = subst IsIn (some-injective s t e) h

    pub nowhere : (t : Serving J Amount) → ◌≡◌ {A = Option (Serving J Amount)} none (some t) → ⊥
    nowhere t e = ground arith

  module _ {J Amount : Type 0} (resent : Bytes → Bytes) (serialize : Frame J → Bytes)
      (self : String) (reason : BoardError → String) where
    pub report_failed_turn-IsHere :
        (w : Readings) (j : Job) (why : String) (s : Serving J Amount)
        → IsIn s
        → IsIn (report_failed_turn resent serialize self reason w j why s)
    unfolding report_failed_turn
    report_failed_turn-IsHere w j why s h =
        let r = record s.runner { running = false } in
        finish_turn-IsHere c base _ (
          append_frame-IsHere c base (serialize done_empty) _
            (append_frame-IsHere c base (serialize (error why)) r h))

    pub end_job-IsHere :
        (w : Readings) (j : Job) (s : Serving J Amount) (o : Option BoardError) (b : Option Board)
        → IsIn s
        → IsIn (closed_with resent serialize self reason w j s (o, b))
    end_job-IsHere w j s none b h =
        finish_turn-IsHere c base (record s.runner { running = false }) h
    end_job-IsHere w j s (some e) b h =
        report_failed_turn-IsHere w j (reason e) (record s { board = b }) h

    pub take_result-IsHere :
        (j : Job) (x : ExecutionResult Amount) (spent : J) (s : Serving J Amount)
        → IsIn s
        → IsIn (take_result resent serialize self reason j x spent s)
    unfolding take_result
    take_result-IsHere j x spent s h =
        let r = record s.runner { cancel_token = none; cancel_requested = false } in
        elim (Bool-cases (ends_silently j s.runner)) [
          | inl e ↦
              subst IsIn (sym (if_true (ends_silently j s.runner) _ _ e))
                (finish_turn-IsHere c base (record r { running = false }) h)
          | inr e ↦ subst IsIn (sym (if_false (ends_silently j s.runner) _ _ e)) h
        ]
