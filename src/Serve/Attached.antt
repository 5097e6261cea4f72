-- ===== src/Serve/Attached.antt =====
-- A page that attaches is handed the frames for the next page (`Attach` of src/app/serve_runner.cpp).
use pu_cli.Base.{
  if_true, if_false, ℕ, Bool, true, false, Option, none, some, List, [], ◌∷◌, ◌++◌, ◌≡◌, inl, inr,
  refl, sym, ap, ◌∙◌, subst, arith, map, Bytes, ◌==◌, Bool-cases,
}
use pu_cli.Serve.Runner.{
  TurnRecord, Connection, SessionRunner, find_page, page_of, send_all, frames_for_next_page,
}
use pu_cli.Serve.Joining.{
  take_session, hand_over, attached_as, attach, detached_before, keeps_out, client_of,
  mark_detached,
}
use pu_cli.Serve.Watching.{find_page-change_page, find_page-change_other}
use pu_cli.Serve.Joined.{IsHereOf, send_all-number, send_all-open}

pub detached_before-found :
    (c : ℕ) (o : Option Connection) (ps : List Connection) (p : Connection)
    → find_page c ps ≡ some p
    → find_page c (detached_before c o ps) ≡ some p
detached_before-found c none ps p e = e
detached_before-found c (some q) ps p e = elim (Bool-cases (q.number == c)) [
  | inl h ↦ ap (find_page c) (if_true (q.number == c) _ _ h) ∙ e
  | inr h ↦
      ap (find_page c) (if_false (q.number == c) _ _ h)
      ∙ find_page-change_other mark_detached (λ p. refl) c q.number ps h
      ∙ e
]

not_attached : ◌≡◌ {A = Bool} false true → ⊥
not_attached e = ground arith

module _ (resent : Bytes → Bytes) where
  keep_all : (ws : List Bytes) → ((w : Bytes) → resent w ≡ w) → map resent ws ≡ ws
  keep_all [] same = refl
  keep_all (w ∷ ws) same = rw (same w, keep_all ws same) refl

  pub attach-IsHere :
      (c : ℕ) (r : SessionRunner) (p : Connection) (before : List TurnRecord) (newest : TurnRecord)
      → ((w : Bytes) → resent w ≡ w)
      → find_page c r.pages ≡ some p
      → p.closed ≡ false
      → r.turns ≡ before ++ newest ∷ []
      → (attach resent c r).0 ≡ true
      → IsHereOf c p.sent (attach resent c r).1
  unfolding attach take_session hand_over frames_for_next_page
  attach-IsHere c r p before newest same found live records taken_in =
      let current = page_of r.attached r.pages in
      let kept = keeps_out c (client_of (find_page c r.pages)) current in
      let taken = record r { attached = some c; pages = detached_before c current r.pages } in
      let pending = frames_for_next_page r in
      elim (Bool-cases kept) [
        | inl h ↦ absurd (
            not_attached (
              sym (
                ap (λ o. (attached_as resent c r o).0)
                  (if_true kept none (some (pending, taken)) h))
              ∙ taken_in))
        | inr h ↦
            let all = keep_all pending same in
            let (still, sent) = send_all-open (map resent pending) p live in
            subst (IsHereOf c p.sent)
              (sym (
                ap (λ o. (attached_as resent c r o).1)
                  (if_false kept none (some (pending, taken)) h)))
              (record {
                here = refl;
                page = send_all (map resent pending) p;
                found =
                    find_page-change_page (send_all (map resent pending))
                      (send_all-number (map resent pending)) c taken.pages p
                      (detached_before-found c current r.pages p found);
                is_open = still;
                before = before;
                newest = newest;
                records = records;
                told = sent ∙ ap (λ l. p.sent ++ l) all;
              })
      ]
