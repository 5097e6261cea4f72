-- ===== src/Serve/Endings.antt =====
-- How a turn ends once `ProcessInput` has returned or thrown (src/app/serve_runner.cpp).
use pu_cli.Base.{
  ℕ, String, true, false, Option, none, some, List, [], ◌∷◌, ◌++◌, ◌≡◌, refl, sym, ap, ◌∙◌, subst,
  append_assoc, append-nil, map, Bytes, if_false, Bool-cases, eq_iff, ◌≢◌, Option-cases, inl, inr,
  arith,
}
use pu_cli.Board.Job.{BoardError}
use pu_cli.Board.Store.{Board}
use pu_cli.Board.Verbs.{Readings}
use pu_cli.Runtime.Data.{ExecutionResult}
use pu_cli.Serve.Runner.{
  TurnRecord, SessionRunner, Job, wire_of, change_last, add_frame, mark_finished, delivered,
  record_frame, deliver_frame, append_frame, finish_turn,
}
use pu_cli.Serve.Closing.{ends_silently, close_board_job}
use pu_cli.Serve.Worker.{
  Frame, error, notice, usage, done_bare, done_by, notice_frames, usage_frames, last_frame,
  done_empty, idle, asking, closing, Serving, Event, returns, throws, reports, ends, result_frames,
  take_result, report_failed_turn, closed_with, end_job, step, history, and_then, ended, reported,
}
use pu_cli.Serve.Between.{is_own, add_own, own_steps, IsAsBefore, other_step}
use pu_cli.Serve.Watching.{change_last-append}

module _ {J Amount : Type 0} where
  -- What a page is told of a result: the notice and the usage if there is one of each, and last the
  -- error, or a `done` with the model if it is known.
  pub record IsTold (x : ExecutionResult Amount) (spent : J) (fs : List (Frame J)) : Type 0 where
    pub notices : List (Frame J)
    pub usages : List (Frame J)
    pub last : Frame J
    pub all : fs ≡ notices ++ usages ++ last ∷ []
    pub no_notice : x.notice ≡ "" → notices ≡ []
    pub one_notice : x.notice ≢ "" → notices ≡ notice x.notice ∷ []
    pub no_usage : x.usage ≡ none → usages ≡ []
    pub one_usage : x.usage ≢ none → usages ≡ usage spent ∷ []
    pub reason : x.has_error ≡ true → x.error_message ≢ "" → last ≡ error x.error_message
    pub content : x.has_error ≡ true → x.error_message ≡ "" → last ≡ error x.content
    pub no_model : x.has_error ≡ false → x.model ≡ "" → last ≡ done_bare
    pub model : x.has_error ≡ false → x.model ≢ "" → last ≡ done_by x.model

  result_frames-IsTold :
      (x : ExecutionResult Amount) (spent : J) → IsTold x spent (result_frames x spent)
  unfolding result_frames
  result_frames-IsTold x spent = record {
    notices = notice_frames x;
    usages = usage_frames x spent;
    last = last_frame x;
    all = refl;
    no_notice = λ h. ground (arith, eq_iff x.notice "");
    one_notice = λ h. ground (arith, eq_iff x.notice "");
    no_usage = λ h. rw h refl;
    one_usage = λ h. elim (Option-cases x.usage) [ inl e ↦ absurd (h e) | inr (u, e) ↦ rw e refl ];
    reason = λ h n. rw h (ap error (ground (arith, eq_iff x.error_message "")));
    content = λ h n. rw h (ap error (ground (arith, eq_iff x.error_message "")));
    no_model = λ h n. rw h (ground (arith, eq_iff x.model ""));
    model = λ h n. rw h (ground (arith, eq_iff x.model ""));
  }

abbrev pub wires : {J : Type 0} → (Frame J → Bytes) → List (Frame J) → List Bytes
wires serialize fs = map (λ f. wire_of (serialize f)) fs

module _ {J Amount : Type 0} where
  -- The worker says all frames that are left, and then the events go on.
  abbrev pub all_reports : List (Frame J) → List (Event J Amount) → List (Event J Amount)
  all_reports [] es = es
  all_reports (f ∷ fs) es = reports ∷ all_reports fs es

delivered-turns : (w : Bytes) (r : SessionRunner) (o : Option ℕ) → (delivered w r o).turns ≡ r.turns
delivered-turns w r none = refl
delivered-turns w r (some c) = refl

append_frame-turns :
    (text : Bytes) (r : SessionRunner) (before : List TurnRecord) (t : TurnRecord)
    → r.turns ≡ before ++ t ∷ []
    → (append_frame text r).turns ≡ before ++ add_frame (wire_of text) t ∷ []
unfolding append_frame record_frame deliver_frame
append_frame-turns text r before t e =
    delivered-turns (wire_of text) (record_frame (wire_of text) r) r.attached
    ∙ ap (change_last (add_frame (wire_of text))) e
    ∙ change_last-append (add_frame (wire_of text)) before t

delivered-running :
    (w : Bytes) (r : SessionRunner) (o : Option ℕ) → (delivered w r o).running ≡ r.running
delivered-running w r none = refl
delivered-running w r (some c) = refl

append_frame-running :
    (text : Bytes) (r : SessionRunner) → (append_frame text r).running ≡ r.running
unfolding append_frame record_frame deliver_frame
append_frame-running text r =
    delivered-running (wire_of text) (record_frame (wire_of text) r) r.attached

not_empty : {A : Type 0} (x : A) (xs : List A) → ◌≡◌ {A = List A} (x ∷ xs) [] → ⊥
not_empty x xs e = ground arith

cons_injective : {A : Type 0} (x y : A) (xs ys : List A) → x ∷ xs ≡ y ∷ ys → (x ≡ y) × (xs ≡ ys)
cons_injective x y xs ys e = (ground arith, ground arith)

finish_turn-turns :
    (r : SessionRunner) (before : List TurnRecord) (t : TurnRecord)
    → r.turns ≡ before ++ t ∷ []
    → (finish_turn r).turns ≡ before ++ mark_finished t ∷ []
unfolding finish_turn
finish_turn-turns r before t e =
    ap (change_last mark_finished) e ∙ change_last-append mark_finished before t

module _ {J Amount : Type 0} (resent : Bytes → Bytes) (serialize : Frame J → Bytes) (self : String)
    (reason : BoardError → String) where
  -- A server that waits for the next job, with one record finished and these frames in it.
  abbrev pub IsOver : List TurnRecord → TurnRecord → List Bytes → Option (Serving J Amount) → Type 0
  IsOver before t frames o =
      (u : Serving J Amount) × (o ≡ some u)
      × (u.phase ≡ idle)
      × (u.runner.running ≡ false)
      × (u.runner.turns ≡ before ++ record t { finished = true; frames = frames } ∷ [])

  -- What is over stays over until the worker takes the next job.
  stays-IsOver :
      (before : List TurnRecord) (t : TurnRecord) (es : List (Event J Amount))
      (s : Serving J Amount)
      → own_steps es ≡ []
      → s.phase ≡ idle
      → s.runner.running ≡ false
      → s.runner.turns ≡ before ++ record t { finished = true } ∷ []
      → IsOver before t t.frames (history resent serialize self reason es s)
  unfolding history
  stays-IsOver before t [] s own ph run turns = (s, refl, ph, run, turns)
  stays-IsOver before t (e ∷ es) s own ph run turns = elim (Bool-cases (is_own e)) [
    | inl k ↦
        absurd (not_empty e (own_steps es) (sym (ap (λ k. add_own k e (own_steps es)) k) ∙ own))
    | inr k ↦
        let (u, stepped, same) = other_step resent serialize self reason e s k in
        let next = history resent serialize self reason es in
        subst (IsOver before t t.frames)
          (sym (ap (λ o. and_then resent serialize self reason o next) stepped))
          (stays-IsOver before t es u (sym (ap (λ k. add_own k e (own_steps es)) k) ∙ own)
            (same.phase ∙ ph) (same.runner.1 ∙ run) (same.runner.0 ∙ turns))
  ]

  -- The worker's next step is the first of those that are left to it.
  first_own :
      (m : Event J Amount) (ms : List (Event J Amount)) (e : Event J Amount)
      (es : List (Event J Amount))
      → is_own e ≡ true
      → own_steps (e ∷ es) ≡ m ∷ ms
      → (e ≡ m) × (own_steps es ≡ ms)
  first_own m ms e es k own =
      cons_injective e m (own_steps es) ms (sym (ap (λ k. add_own k e (own_steps es)) k) ∙ own)

  module _ (w : Readings) (j : Job) (x : ExecutionResult Amount) (before : List TurnRecord) where
    -- A server in which the worker has these frames of a result left to say.
    record IsTelling (fs : List (Frame J)) (t : TurnRecord) (s : Serving J Amount) : Type 0 where
      phase : s.phase ≡ closing j x fs
      turns : s.runner.turns ≡ before ++ t ∷ []
      quiet : (close_board_job w self j.board_job x s.board).0 ≡ none

    abbrev left_steps : List (Frame J) → List (Event J Amount)
    left_steps fs = all_reports fs (ends w ∷ [])

    ends-IsOver :
        (t : TurnRecord) (s : Serving J Amount) (es : List (Event J Amount))
        → IsTelling [] t s
        → own_steps es ≡ []
        → IsOver before t t.frames (history resent serialize self reason (ends w ∷ es) s)
    unfolding history step end_job finish_turn
    ends-IsOver t s es h own =
        let after = (close_board_job w self j.board_job x s.board).1 in
        let over = closed_with resent serialize self reason w j s (none, after) in
        let next = history resent serialize self reason es in
        let done : ended resent serialize self reason w s.phase s ≡ some over =
          ap (λ ph. ended resent serialize self reason w ph s) h.phase
          ∙ ap (λ o. some (closed_with resent serialize self reason w j s (o, after))) h.quiet in
        subst (IsOver before t t.frames)
          (sym (ap (λ o. and_then resent serialize self reason o next) done))
          (stays-IsOver before t es over own refl refl
            (finish_turn-turns (record s.runner { running = false }) before t h.turns))

    reports-IsTelling :
        (f : Frame J) (fs : List (Frame J)) (t : TurnRecord) (s : Serving J Amount)
        → IsTelling (f ∷ fs) t s
        → (u : Serving J Amount) × (step resent serialize self reason reports s ≡ some u)
          × IsTelling fs (add_frame (wire_of (serialize f)) t) u
    unfolding step
    reports-IsTelling f fs t s h = (
      record s { runner = append_frame (serialize f) s.runner; phase = closing j x fs },
      ap (λ ph. reported resent serialize self reason ph s) h.phase,
      record {
        phase = refl;
        turns = append_frame-turns (serialize f) s.runner before t h.turns;
        quiet = h.quiet;
      },
    )

    other-IsTelling :
        (fs : List (Frame J)) (t : TurnRecord) (s u : Serving J Amount)
        → IsAsBefore s u
        → IsTelling fs t s
        → IsTelling fs t u
    other-IsTelling fs t s u same h = record {
      phase = same.phase ∙ h.phase;
      turns = same.runner.0 ∙ h.turns;
      quiet = ap (λ b. (close_board_job w self j.board_job x b).0) same.board ∙ h.quiet;
    }

    telling-IsOver :
        (es : List (Event J Amount)) (fs : List (Frame J)) (t : TurnRecord) (s : Serving J Amount)
        → IsTelling fs t s
        → own_steps es ≡ left_steps fs
        → IsOver before t
            (t.frames ++ wires serialize fs)
            (history resent serialize self reason es s)
    unfolding history
    telling-IsOver [] [] t s h own = absurd (not_empty (ends w) [] (sym own))
    telling-IsOver [] (f ∷ fs) t s h own = absurd (not_empty reports (left_steps fs) (sym own))
    telling-IsOver (e ∷ es) fs t s h own = elim (Bool-cases (is_own e)) [
      | inl k ↦ own_step (λ gs u v. telling-IsOver es gs u v) fs h own k
      | inr k ↦
          let (u, stepped, same) = other_step resent serialize self reason e s k in
          let next = history resent serialize self reason es in
          subst (IsOver before t (t.frames ++ wires serialize fs))
            (sym (ap (λ o. and_then resent serialize self reason o next) stepped))
            (telling-IsOver es fs t u (other-IsTelling fs t s u same h)
              (sym (ap (λ k. add_own k e (own_steps es)) k) ∙ own))
    ]
      where
        own_step :
            ((gs : List (Frame J)) (u : TurnRecord) (v : Serving J Amount)
              → IsTelling gs u v
              → own_steps es ≡ left_steps gs
              → IsOver before u
                  (u.frames ++ wires serialize gs)
                  (history resent serialize self reason es v))
            → (fs : List (Frame J)) → IsTelling fs t s
            → own_steps (e ∷ es) ≡ left_steps fs
            → is_own e ≡ true
            → IsOver before t
                (t.frames ++ wires serialize fs)
                (history resent serialize self reason (e ∷ es) s)
        own_step ih [] h own k =
            let (same, rest) = first_own (ends w) [] e es k own in
            subst
              (λ d.
                IsOver before t (t.frames ++ []) (history resent serialize self reason (d ∷ es) s))
              (sym same)
              (subst (λ l. IsOver before t l (history resent serialize self reason (ends w ∷ es) s))
                (sym (append-nil t.frames)) (ends-IsOver t s es h rest))
        own_step ih (f ∷ fs) h own k =
            let (same, rest) = first_own reports (left_steps fs) e es k own in
            let (u, stepped, telling) = reports-IsTelling f fs t s h in
            let wire = wire_of (serialize f) in
            let next = history resent serialize self reason es in
            let all = t.frames ++ wires serialize (f ∷ fs) in
            subst (λ d. IsOver before t all (history resent serialize self reason (d ∷ es) s))
              (sym same)
              (subst (IsOver before t all)
                (sym (ap (λ o. and_then resent serialize self reason o next) stepped))
                (subst (λ l. IsOver before t l (next u))
                  (append_assoc t.frames (wire ∷ []) (wires serialize fs))
                  (ih fs (add_frame wire t) u telling rest)))

  -- A turn whose result is told ends, whatever calls of other threads fall between the steps of the
  -- worker: once the worker has said the frames of the result and closed the job on the board, and until
  -- it takes the next job, it waits, the runner counts as not running, and the record of the turn is
  -- finished and has all that it had and then, as they were made valid UTF-8, exactly the notice and the
  -- usage that there are, and the error or else a `done` with the model if it is known. The turn was not
  -- cancelled with nobody left to tell, and the board does not refuse to close the job.
  pub returns-IsOver :
      (w : Readings) (j : Job) (x : ExecutionResult Amount) (spent : J) (r : SessionRunner)
      (b : Option Board) (before : List TurnRecord) (t : TurnRecord) (es : List (Event J Amount))
      → ends_silently j r ≡ false
      → (close_board_job w self j.board_job x b).0 ≡ none
      → r.turns ≡ before ++ t ∷ []
      → own_steps es ≡ all_reports (result_frames x spent) (ends w ∷ [])
      → IsTold x spent (result_frames x spent)
        × IsOver before t (t.frames ++ wires serialize (result_frames x spent)) (
            history resent serialize self reason
              (returns x spent ∷ es)
              (record { runner = r; phase = asking j; board = b }))
  unfolding history step take_result
  returns-IsOver w j x spent r b before t es told quiet e own =
      let taken = record r { cancel_token = none; cancel_requested = false } in
      let open_state : Serving J Amount = record {
        runner = taken;
        phase = closing j x (result_frames x spent);
        board = b;
      } in
      let silent_state : Serving J Amount = record {
        runner = finish_turn (record taken { running = false });
        phase = idle;
        board = b;
      } in
      (
        result_frames-IsTold x spent,
        subst
            (λ s.
              IsOver before t (t.frames ++ wires serialize (result_frames x spent))
                (history resent serialize self reason es s))
            (sym (if_false (ends_silently j r) silent_state open_state told))
            (telling-IsOver w j x before es (result_frames x spent) t open_state
              (record { phase = refl; turns = e; quiet = quiet }) own),
      )

  -- A turn that throws ends at once, with an error and an empty `done` behind what it had said, whatever
  -- the board says to closing its job.
  pub throws-IsOver :
      (w : Readings) (j : Job) (why : String) (r : SessionRunner) (b : Option Board)
      (before : List TurnRecord) (t : TurnRecord)
      → r.turns ≡ before ++ t ∷ []
      → IsOver before t (t.frames ++ wires serialize (error why ∷ done_empty ∷ [])) (
          history resent serialize self reason
            (throws w why ∷ [])
            (record { runner = r; phase = asking j; board = b }))
  unfolding history step report_failed_turn finish_turn
  throws-IsOver w j why r b before t e =
      let s : Serving J Amount = record { runner = r; phase = asking j; board = b } in
      let quiet = record r { running = false } in
      let first = append_frame-turns (serialize (error why)) quiet before t e in
      let told = append_frame (serialize (error why)) quiet in
      let second =
        append_frame-turns (serialize done_empty) told before
          (add_frame (wire_of (serialize (error why))) t) first in
      (
        report_failed_turn resent serialize self reason w j why s,
        refl,
        refl,
        append_frame-running (serialize done_empty) told
            ∙ append_frame-running (serialize (error why)) quiet,
        finish_turn-turns (append_frame (serialize done_empty) told) before _ second
            ∙ ap (λ l. before ++ record t { finished = true; frames = l } ∷ [])
                (append_assoc t.frames (wire_of (serialize (error why)) ∷ [])
                  (wire_of (serialize done_empty) ∷ [])),
      )
