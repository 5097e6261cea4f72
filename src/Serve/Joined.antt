-- ===== src/Serve/Joined.antt =====
-- A page that joins a turn sees all of it (`Attach`, `AppendFrame` and `FramesForNextPage` of
-- src/app/serve_runner.cpp).
use pu_cli.Base.{
  ℕ, false, Option, some, List, [], ◌∷◌, ◌++◌, ◌≡◌, inl, inr, refl, sym, ap, ◌∙◌, subst,
  append_assoc, append-nil, Bytes, Bool-cases,
}
use pu_cli.Serve.Runner.{
  TurnRecord, Connection, SessionRunner, find_page, send_text, send_all, wire_of, delivered,
  record_frame, deliver_frame, append_frame, finish_turn, add_frame, mark_finished, change_last,
}
use pu_cli.Serve.Watching.{
  next_frames, change_last-append, next_frames-add_frame, next_frames-mark_finished,
  find_page-change_page,
}

-- The page of a connection is the attached one, and was sent what a page that attaches now would be
-- handed, behind what it had been sent before.
pub record IsHere (c : ℕ) (base : List Bytes) (attached : Option ℕ) (pages : List Connection)
    (turns : List TurnRecord) : Type 0 where
  pub here : attached ≡ some c
  pub page : Connection
  pub found : find_page c pages ≡ some page
  pub is_open : page.closed ≡ false
  pub before : List TurnRecord
  pub newest : TurnRecord
  pub records : turns ≡ before ++ newest ∷ []
  pub told : page.sent ≡ base ++ next_frames turns

pub send_text-number : (w : Bytes) (p : Connection) → (send_text w p).number ≡ p.number
send_text-number w p = elim (Bool-cases p.closed) [ inl h ↦ rw h refl | inr h ↦ rw h refl ]

pub send_text-open :
    (w : Bytes) (p : Connection)
    → p.closed ≡ false
    → ((send_text w p).closed ≡ false) × ((send_text w p).sent ≡ p.sent ++ w ∷ [])
send_text-open w p h = (rw h refl, rw h refl)

pub send_all-number : (ws : List Bytes) (p : Connection) → (send_all ws p).number ≡ p.number
unfolding send_all
send_all-number [] p = refl
send_all-number (w ∷ ws) p = send_all-number ws (send_text w p) ∙ send_text-number w p

pub send_all-open :
    (ws : List Bytes) (p : Connection)
    → p.closed ≡ false
    → ((send_all ws p).closed ≡ false) × ((send_all ws p).sent ≡ p.sent ++ ws)
unfolding send_all
send_all-open [] p h = (h, sym (append-nil p.sent))
send_all-open (w ∷ ws) p h =
    let (one, sent) = send_text-open w p h in
    let (all, rest) = send_all-open ws (send_text w p) one in
    (all, rest ∙ ap (λ l. l ++ ws) sent ∙ append_assoc p.sent (w ∷ []) ws)

module _ (c : ℕ) (base : List Bytes) where
  abbrev pub IsHereOf : SessionRunner → Type 0
  IsHereOf r = IsHere c base r.attached r.pages r.turns

  pub append_frame-IsHere :
      (text : Bytes) (r : SessionRunner) → IsHereOf r → IsHereOf (append_frame text r)
  unfolding append_frame record_frame deliver_frame
  append_frame-IsHere text r h =
      let w = wire_of text in
      let now = record_frame w r in
      let (still, sent) = send_text-open w h.page h.is_open in
      let newer : now.turns ≡ h.before ++ add_frame w h.newest ∷ [] =
        ap (λ ts. change_last (add_frame w) ts) h.records
        ∙ change_last-append (add_frame w) h.before h.newest in
      subst IsHereOf (sym (ap (delivered w now) h.here)) (record {
        here = h.here;
        page = send_text w h.page;
        found = find_page-change_page (send_text w) (send_text-number w) c r.pages h.page h.found;
        is_open = still;
        before = h.before;
        newest = add_frame w h.newest;
        records = newer;
        told =
            sent
            ∙ ap (λ l. l ++ w ∷ []) (h.told ∙ ap (λ ts. base ++ next_frames ts) h.records)
            ∙ append_assoc base (next_frames (h.before ++ h.newest ∷ [])) (w ∷ [])
            ∙ ap (λ l. base ++ l) (sym (next_frames-add_frame w h.before h.newest))
            ∙ ap (λ ts. base ++ next_frames ts) (sym newer);
      })

  pub finish_turn-IsHere : (r : SessionRunner) → IsHereOf r → IsHereOf (finish_turn r)
  unfolding finish_turn
  finish_turn-IsHere r h =
      let newer : (finish_turn r).turns ≡ h.before ++ mark_finished h.newest ∷ [] =
        ap (λ ts. change_last mark_finished ts) h.records
        ∙ change_last-append mark_finished h.before h.newest in
      record {
        here = h.here;
        page = h.page;
        found = h.found;
        is_open = h.is_open;
        before = h.before;
        newest = mark_finished h.newest;
        records = newer;
        told =
            h.told
            ∙ ap (λ ts. base ++ next_frames ts) h.records
            ∙ ap (λ l. base ++ l) (sym (next_frames-mark_finished h.before h.newest))
            ∙ ap (λ ts. base ++ next_frames ts) (sym newer);
      }

  -- A change of the pages that leaves this page as open and as told as it was.
  pub changed-IsHere :
      (r : SessionRunner) (pages : List Connection) (h : IsHereOf r) (q : Connection)
      → find_page c pages ≡ some q
      → q.closed ≡ h.page.closed
      → q.sent ≡ h.page.sent
      → IsHereOf (record r { pages = pages })
  changed-IsHere r pages h q found opened sent = record {
    here = h.here;
    page = q;
    found = found;
    is_open = opened ∙ h.is_open;
    before = h.before;
    newest = h.newest;
    records = h.records;
    told = sent ∙ h.told;
  }
