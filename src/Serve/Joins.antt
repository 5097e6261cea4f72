-- ===== src/Serve/Joins.antt =====
-- A page that joins a turn is sent all of it, in order and once, as long as `Attach` and `AppendFrame`
-- are not cut where they let go of their locks (src/app/serve_runner.cpp).
use pu_cli.Base.{
  ℕ, String, true, false, some, List, [], ◌∷◌, ◌++◌, ◌≡◌, inl, inr, refl, sym, ap, ◌∙◌, arith,
  Bytes, All, Option-cases,
}
use pu_cli.Board.Job.{BoardError}
use pu_cli.Board.Verbs.{Readings}
use pu_cli.Runtime.Data.{ExecutionResult}
use pu_cli.Serve.Runner.{TurnRecord, Connection, find_page, frames_for_next_page, submit_from_peer}
use pu_cli.Serve.Joining.{attach}
use pu_cli.Serve.Worker.{
  Frame, Phase, idle, asking, closing, Serving, Event, opens, attaches, marks, finishes, hears,
  peer_submits, stops, begins, reports, says, returns, throws, ends, with_runner, said, returned,
  thrown, reported, ended, step, and_then, history, end_job,
}
use pu_cli.Serve.Closing.{close_board_job}
use pu_cli.Serve.Watching.{find_page-append}
use pu_cli.Serve.Joined.{append_frame-IsHere, changed-IsHere}
use pu_cli.Serve.Attached.{attach-IsHere}
use pu_cli.Serve.Following.{
  IsIn, leaves_alone, arrives, nowhere, finish-IsHere, marks-IsHere, hears-IsHere, stop-IsHere,
  report_failed_turn-IsHere, end_job-IsHere, take_result-IsHere,
}

module _ {J Amount : Type 0} (resent : Bytes → Bytes) (serialize : Frame J → Bytes) (self : String)
    (reason : BoardError → String) where
  module _ (c : ℕ) (base : List Bytes) where
    -- The worker's steps, by what it is at.
    said-IsHere :
        (f : Frame J) (ph : Phase J Amount) (s t : Serving J Amount)
        → said resent serialize self reason f ph s ≡ some t
        → IsIn c base s
        → IsIn c base t
    said-IsHere f idle s t e h = absurd (nowhere c base t e)
    said-IsHere f (asking j) s t e h =
        arrives c base _ t e (append_frame-IsHere c base (serialize f) s.runner h)
    said-IsHere f (closing j x fs) s t e h = absurd (nowhere c base t e)

    returned-IsHere :
        (x : ExecutionResult Amount) (spent : J) (ph : Phase J Amount) (s t : Serving J Amount)
        → returned resent serialize self reason x spent ph s ≡ some t
        → IsIn c base s
        → IsIn c base t
    returned-IsHere x spent idle s t e h = absurd (nowhere c base t e)
    returned-IsHere x spent (asking j) s t e h =
        arrives c base _ t e (take_result-IsHere c base resent serialize self reason j x spent s h)
    returned-IsHere x spent (closing j y fs) s t e h = absurd (nowhere c base t e)

    thrown-IsHere :
        (w : Readings) (why : String) (ph : Phase J Amount) (s t : Serving J Amount)
        → thrown resent serialize self reason w why ph s ≡ some t
        → IsIn c base s
        → IsIn c base t
    thrown-IsHere w why idle s t e h = absurd (nowhere c base t e)
    thrown-IsHere w why (asking j) s t e h =
        arrives c base _ t e
          (report_failed_turn-IsHere c base resent serialize self reason w j why s h)
    thrown-IsHere w why (closing j x fs) s t e h = absurd (nowhere c base t e)

    reported-IsHere :
        (ph : Phase J Amount) (s t : Serving J Amount)
        → reported resent serialize self reason ph s ≡ some t
        → IsIn c base s
        → IsIn c base t
    reported-IsHere idle s t e h = absurd (nowhere c base t e)
    reported-IsHere (asking j) s t e h = absurd (nowhere c base t e)
    reported-IsHere (closing j x []) s t e h = absurd (nowhere c base t e)
    reported-IsHere (closing j x (f ∷ fs)) s t e h =
        arrives c base _ t e (append_frame-IsHere c base (serialize f) s.runner h)

    ended-IsHere :
        (w : Readings) (ph : Phase J Amount) (s t : Serving J Amount)
        → ended resent serialize self reason w ph s ≡ some t
        → IsIn c base s
        → IsIn c base t
    unfolding end_job
    ended-IsHere w idle s t e h = absurd (nowhere c base t e)
    ended-IsHere w (asking j) s t e h = absurd (nowhere c base t e)
    ended-IsHere w (closing j x []) s t e h =
        let (o, b) = close_board_job w self j.board_job x s.board in
        arrives c base _ t e (end_job-IsHere c base resent serialize self reason w j s o b h)
    ended-IsHere w (closing j x (f ∷ fs)) s t e h = absurd (nowhere c base t e)

    step-IsHere :
        (e : Event J Amount) (s t : Serving J Amount)
        → leaves_alone c base e ≡ true
        → step resent serialize self reason e s ≡ some t
        → IsIn c base s
        → IsIn c base t
    unfolding step submit_from_peer
    step-IsHere (opens d client) s t q e h = arrives c base _ t e (
        changed-IsHere c base s.runner _ h h.page
          (find_page-append c s.runner.pages _ h.page h.found) refl refl)
    step-IsHere (attaches d) s t q e h = absurd (ground arith)
    step-IsHere (marks d) s t q e h = arrives c base _ t e (marks-IsHere c base d s.runner h)
    step-IsHere (finishes d) s t q e h = arrives c base _ t e (finish-IsHere c base d s.runner q h)
    step-IsHere (hears id d m) s t q e h =
        arrives c base _ t e (hears-IsHere c base id d m s.runner h)
    step-IsHere (peer_submits id sender text job) s t q e h = arrives c base _ t e h
    step-IsHere stops s t q e h = arrives c base _ t e (stop-IsHere c base s.runner h)
    step-IsHere begins s t q e h = absurd (ground arith)
    step-IsHere (says f) s t q e h = said-IsHere f s.phase s t e h
    step-IsHere (returns x spent) s t q e h = returned-IsHere x spent s.phase s t e h
    step-IsHere (throws w why) s t q e h = thrown-IsHere w why s.phase s t e h
    step-IsHere reports s t q e h = reported-IsHere s.phase s t e h
    step-IsHere (ends w) s t q e h = ended-IsHere w s.phase s t e h

    abbrev pub IsAlone : List (Event J Amount) → Type 0
    IsAlone es = All (λ e. leaves_alone c base e ≡ true) es

    history-IsHere :
        (es : List (Event J Amount)) (s t : Serving J Amount)
        → IsAlone es
        → history resent serialize self reason es s ≡ some t
        → IsIn c base s
        → IsIn c base t
    unfolding history
    history-IsHere [] s t q e h = arrives c base s t e h
    history-IsHere (a ∷ es) s t q e h =
        elim (Option-cases (step resent serialize self reason a s)) [
          | inl n ↦ absurd (
              nowhere c base t (
                sym (
                  ap
                    (λ o.
                      and_then resent serialize self reason o
                        (history resent serialize self reason es))
                    n)
                ∙ e))
          | inr (u, m) ↦
              history-IsHere es u t q.1
                (sym (
                    ap
                      (λ o.
                        and_then resent serialize self reason o
                          (history resent serialize self reason es))
                      m)
                  ∙ e)
                (step-IsHere a s u q.0 m h)
        ]

  -- Where each call of `Attach` and of `AppendFrame` is one step: a page that attaches, when any turn has
  -- begun, has been sent at any time later the frames of the
  -- turn before and all frames of the last turn that were recorded by then, in order and each once,
  -- behind what it was sent before. Between, no page attaches, this one is not finished, no turn
  -- begins, and anything else may happen. The JSON library reads a frame and writes it again as it was.
  attach-is_told :
      (c : ℕ) (s t : Serving J Amount) (p : Connection) (before : List TurnRecord)
      (newest : TurnRecord) (es : List (Event J Amount))
      → ((w : Bytes) → resent w ≡ w)
      → find_page c s.runner.pages ≡ some p
      → p.closed ≡ false
      → s.runner.turns ≡ before ++ newest ∷ []
      → (attach resent c s.runner).0 ≡ true
      → IsAlone c p.sent es
      → history resent serialize self reason es
          (with_runner resent serialize self reason s (attach resent c s.runner).1)
        ≡ some t
      → (q : Connection) × (find_page c t.runner.pages ≡ some q)
        × (q.sent ≡ p.sent ++ frames_for_next_page t.runner)
  unfolding frames_for_next_page
  attach-is_told c s t p before newest es same found live records taken_in alone e =
      let start =
        attach-IsHere resent c s.runner p before newest same found live records taken_in in
      let later =
        history-IsHere c p.sent es
          (with_runner resent serialize self reason s (attach resent c s.runner).1) t alone e
          start in
      (later.page, later.found, later.told)
