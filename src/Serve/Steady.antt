-- ===== src/Serve/Steady.antt =====
-- What holds of the turn runner at all times (src/app/serve_runner.cpp).
use mathlib.Core.Option.{some-injective}
use pu_cli.Base.{
  if_true, if_false, String, false, Option, none, some, List, [], ◌∷◌, ◌≡◌, inl, inr, refl, ◌≤◌,
  length, sym, ap, ◌∙◌, subst, Bytes, Bool-cases, Option-cases,
}
use pu_cli.Board.Job.{BoardError}
use pu_cli.Board.Store.{Board}
use pu_cli.Board.Verbs.{Readings}
use pu_cli.Runtime.Data.{ExecutionResult}
use pu_cli.Serve.Runner.{Job, append_frame, submit_from_peer, turns_kept}
use pu_cli.Serve.Worker.{
  Frame, Phase, idle, asking, closing, Serving, Event, opens, attaches, marks, finishes, hears,
  peer_submits, stops, begins, reports, says, returns, throws, ends, with_runner, begun, said,
  returned, thrown, reported, ended, step, and_then, history, take_result, report_failed_turn,
  begin_job, nobody_asks, closed_with, end_job, done_empty, error,
}
use pu_cli.Serve.Closing.{ends_silently, close_board_job}
use pu_cli.Serve.Following.{nowhere}
use pu_cli.Serve.Turns.{
  IsSteady, append_frame-IsSteady, finish_turn-few, keep_turns-IsCurrent, finish-IsSteady,
  stop-IsSteady, hears-IsSteady, attach-IsSteady,
}

module _ {J Amount : Type 0} (resent : Bytes → Bytes) (serialize : Frame J → Bytes) (self : String)
    (reason : BoardError → String) where
  abbrev pub IsServing : Serving J Amount → Type 0
  IsServing s = IsSteady s.phase s.runner

  gets_to : (s t : Serving J Amount) → some s ≡ some t → IsServing s → IsServing t
  gets_to s t e h = subst IsServing (some-injective s t e) h

  begin_job-IsServing :
      (j : Job) (s : Serving J Amount)
      → length s.runner.turns ≤ turns_kept
      → IsServing (begin_job resent serialize self reason j s)
  unfolding begin_job
  begin_job-IsServing j s few_before =
      let (few, now) = keep_turns-IsCurrent j s.runner.turns few_before in
      elim (Bool-cases (nobody_asks j)) [
        | inl e ↦ subst IsServing (sym (if_true (nobody_asks j) _ _ e)) (few, refl)
        | inr e ↦
            subst IsServing (sym (if_false (nobody_asks j) _ _ e)) (few, (refl, (false, refl), now))
      ]

  report_failed_turn-IsServing :
      (w : Readings) (j : Job) (why : String) (s : Serving J Amount)
      → length s.runner.turns ≤ turns_kept
      → IsServing (report_failed_turn resent serialize self reason w j why s)
  unfolding report_failed_turn
  report_failed_turn-IsServing w j why s few =
      let rest : IsSteady {J = J} {Amount = Amount} idle (record s.runner { running = false }) =
        (few, refl) in
      let told =
        append_frame-IsSteady {J = J} {Amount = Amount} (serialize done_empty) idle _
          (append_frame-IsSteady {J = J} {Amount = Amount} (serialize (error why)) idle _ rest) in
      finish_turn-few _ told.0 told.1

  closed_with-IsServing :
      (w : Readings) (j : Job) (s : Serving J Amount) (o : Option BoardError) (b : Option Board)
      → length s.runner.turns ≤ turns_kept
      → IsServing (closed_with resent serialize self reason w j s (o, b))
  closed_with-IsServing w j s none b few =
      finish_turn-few (record s.runner { running = false }) few refl
  closed_with-IsServing w j s (some e) b few =
      report_failed_turn-IsServing w j (reason e) (record s { board = b }) few

  take_result-IsServing :
      (j : Job) (x : ExecutionResult Amount) (spent : J) (s : Serving J Amount)
      → IsSteady {J = J} {Amount = Amount} (asking j) s.runner
      → IsServing (take_result resent serialize self reason j x spent s)
  unfolding take_result
  take_result-IsServing j x spent s h =
      let r = record s.runner { cancel_token = none; cancel_requested = false } in
      let (few, (live, token, now)) = h in
      elim (Bool-cases (ends_silently j s.runner)) [
        | inl e ↦
            subst IsServing (sym (if_true (ends_silently j s.runner) _ _ e))
              (finish_turn-few (record r { running = false }) few refl)
        | inr e ↦
            subst IsServing (sym (if_false (ends_silently j s.runner) _ _ e))
              (few, (live, refl, now))
      ]

  -- The worker's steps, by what it is at.
  begun-IsServing :
      (ph : Phase J Amount) (js : List Job) (s t : Serving J Amount)
      → begun resent serialize self reason ph js s ≡ some t
      → IsSteady ph s.runner
      → IsServing t
  begun-IsServing idle [] s t e h = absurd (nowhere 0 [] t e)
  begun-IsServing idle (j ∷ js) s t e h = gets_to _ t e (
      begin_job-IsServing j
        (with_runner resent serialize self reason s (record s.runner { jobs = js })) h.0)
  begun-IsServing (asking j) js s t e h = absurd (nowhere 0 [] t e)
  begun-IsServing (closing j x fs) js s t e h = absurd (nowhere 0 [] t e)

  said-IsServing :
      (f : Frame J) (ph : Phase J Amount) (s t : Serving J Amount)
      → said resent serialize self reason f ph s ≡ some t
      → s.phase ≡ ph
      → IsSteady ph s.runner
      → IsServing t
  said-IsServing f idle s t e same h = absurd (nowhere 0 [] t e)
  said-IsServing f (asking j) s t e same h =
      let told =
        append_frame-IsSteady {J = J} {Amount = Amount} (serialize f) (asking j) s.runner h in
      gets_to _ t e
        (subst (λ ph. IsSteady ph (append_frame (serialize f) s.runner)) (sym same) told)
  said-IsServing f (closing j x fs) s t e same h = absurd (nowhere 0 [] t e)

  returned-IsServing :
      (x : ExecutionResult Amount) (spent : J) (ph : Phase J Amount) (s t : Serving J Amount)
      → returned resent serialize self reason x spent ph s ≡ some t
      → IsSteady ph s.runner
      → IsServing t
  returned-IsServing x spent idle s t e h = absurd (nowhere 0 [] t e)
  returned-IsServing x spent (asking j) s t e h =
      gets_to _ t e (take_result-IsServing j x spent s h)
  returned-IsServing x spent (closing j y fs) s t e h = absurd (nowhere 0 [] t e)

  thrown-IsServing :
      (w : Readings) (why : String) (ph : Phase J Amount) (s t : Serving J Amount)
      → thrown resent serialize self reason w why ph s ≡ some t
      → IsSteady ph s.runner
      → IsServing t
  thrown-IsServing w why idle s t e h = absurd (nowhere 0 [] t e)
  thrown-IsServing w why (asking j) s t e h =
      gets_to _ t e (report_failed_turn-IsServing w j why s h.0)
  thrown-IsServing w why (closing j x fs) s t e h = absurd (nowhere 0 [] t e)

  reported-IsServing :
      (ph : Phase J Amount) (s t : Serving J Amount)
      → reported resent serialize self reason ph s ≡ some t
      → IsSteady ph s.runner
      → IsServing t
  reported-IsServing idle s t e h = absurd (nowhere 0 [] t e)
  reported-IsServing (asking j) s t e h = absurd (nowhere 0 [] t e)
  reported-IsServing (closing j x []) s t e h = absurd (nowhere 0 [] t e)
  reported-IsServing (closing j x (f ∷ fs)) s t e h =
      gets_to _ t e (append_frame-IsSteady (serialize f) (closing j x fs) s.runner h)

  ended-IsServing :
      (w : Readings) (ph : Phase J Amount) (s t : Serving J Amount)
      → ended resent serialize self reason w ph s ≡ some t
      → IsSteady ph s.runner
      → IsServing t
  unfolding end_job
  ended-IsServing w idle s t e h = absurd (nowhere 0 [] t e)
  ended-IsServing w (asking j) s t e h = absurd (nowhere 0 [] t e)
  ended-IsServing w (closing j x []) s t e h =
      let (o, b) = close_board_job w self j.board_job x s.board in
      gets_to _ t e (closed_with-IsServing w j s o b h.0)
  ended-IsServing w (closing j x (f ∷ fs)) s t e h = absurd (nowhere 0 [] t e)

  step-IsServing :
      (e : Event J Amount) (s t : Serving J Amount)
      → step resent serialize self reason e s ≡ some t
      → IsServing s
      → IsServing t
  unfolding step submit_from_peer
  step-IsServing (opens d client) s t e h = gets_to _ t e h
  step-IsServing (attaches d) s t e h = gets_to _ t e (attach-IsSteady resent d s.phase s.runner h)
  step-IsServing (marks d) s t e h = gets_to _ t e h
  step-IsServing (finishes d) s t e h = gets_to _ t e (finish-IsSteady d s.phase s.runner h)
  step-IsServing (hears id d m) s t e h = gets_to _ t e (hears-IsSteady id d m s.phase s.runner h)
  step-IsServing (peer_submits id sender text job) s t e h = gets_to _ t e h
  step-IsServing stops s t e h = gets_to _ t e (stop-IsSteady s.phase s.runner h)
  step-IsServing begins s t e h = begun-IsServing s.phase s.runner.jobs s t e h
  step-IsServing (says f) s t e h = said-IsServing f s.phase s t e refl h
  step-IsServing (returns x spent) s t e h = returned-IsServing x spent s.phase s t e h
  step-IsServing (throws w why) s t e h = thrown-IsServing w why s.phase s t e h
  step-IsServing reports s t e h = reported-IsServing s.phase s t e h
  step-IsServing (ends w) s t e h = ended-IsServing w s.phase s t e h

  -- In every history of calls and steps at most eight turns are recorded, the runner counts as running
  -- exactly while the worker is in a turn, a turn has a token to cancel it by until its result is taken
  -- and none after, and the newest record is that of the turn the worker is in and has not finished.
  pub history-IsServing :
      (es : List (Event J Amount)) (s t : Serving J Amount)
      → history resent serialize self reason es s ≡ some t
      → IsServing s
      → IsServing t
  unfolding history
  history-IsServing [] s t e h = gets_to s t e h
  history-IsServing (a ∷ es) s t e h =
      let rest : Option (Serving J Amount) → Option (Serving J Amount) =
        λ o. and_then resent serialize self reason o (history resent serialize self reason es) in
      elim (Option-cases (step resent serialize self reason a s)) [
        | inl n ↦ absurd (nowhere 0 [] t (sym (ap rest n) ∙ e))
        | inr (u, m) ↦ history-IsServing es u t (sym (ap rest m) ∙ e) (step-IsServing a s u m h)
      ]
