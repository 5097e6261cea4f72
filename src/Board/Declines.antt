-- ===== src/Board/Declines.antt =====
-- A job that a peer has declined cannot be declined by the same peer again (src/serve/board.cpp).
use pu_cli.Base.{
  String, true, false, Option, none, some, ◌≡◌, refl, ap, arith, inl, inr, Bool-cases, str_eq,
  eq_iff,
}
use pu_cli.Board.Job.{
  Job, closed, JobUpdate, JobRequest, ActionResult, ok, err, refused, already_declined, value_or,
}
use pu_cli.Board.Store.{Board, record_event, find_job}
use pu_cli.Board.Verbs.{
  Readings, update, update_found, apply_update, settle, update_of, declined_by_is, with_note,
}
use pu_cli.Board.Lists.{find-put_job}
use pu_cli.Board.Refines.{opened, apply_update-decline}
use text.Mathlib.TextPositions.{eq_refl}

-- What a decline leaves under the id of its job.
data Declined (id peer : String) (b : Board) : Type 0 where
  declined :
      (j : Job)
      → find_job id b.jobs ≡ some j
      → closed j ≡ false
      → str_eq j.to peer ≡ true
      → j.declined_by ≡ some peer
      → Declined id peer b

module _ (id peer : String) (u : JobUpdate) (says_open : str_eq u.state "open" ≡ true) where
  settle-Declined :
      (t : Readings) (j : Job) (b : Board)
      → find_job id b.jobs ≡ some j
      → str_eq j.to peer ≡ true
      → Declined id peer (settle t id peer u (opened t peer j) b).1
  unfolding settle record_event
  settle-Declined t j b f y =
      declined (with_note u.note (opened t peer j))
        (find-put_job id j (with_note u.note (opened t peer j)) b.jobs f refl) refl y refl

  update_found-Declined :
      (t : Readings) (o : Option Job) (b : Board) (a : ActionResult)
      → find_job id b.jobs ≡ o
      → (update_found t id peer u o b).0 ≡ ok a
      → Declined id peer (update_found t id peer u o b).1
  unfolding update_found
  update_found-Declined t none b a f h = absurd (ground arith)
  update_found-Declined t (some j) b a f h = elim (Bool-cases (str_eq j.to peer)) [
    | inr n ↦ absurd (ground arith)
    | inl y ↦ elim (Bool-cases (closed j)) [
      | inl c ↦ absurd (ground arith)
      | inr c ↦ elim (Bool-cases (declined_by_is peer j.declined_by)) [
        | inl d ↦ absurd (unfold apply_update in ground arith)
        | inr d ↦
            rw (y, c, apply_update-decline t id peer u j b f says_open d)
              (settle-Declined t j b f y)
      ]
    ]
  ]

  Declined-refused :
      (t : Readings) (b : Board)
      → Declined id peer b
      → update_found t id peer u (find_job id b.jobs) b ≡ (err (refused (already_declined peer)), b)
  Declined-refused t b (declined j f c y d) =
      rw f (unfold update_found apply_update in rw (y, c, says_open, d, eq_refl))

-- Once a decline by a peer went through, the same request made again on the board that it left is
-- refused, as already declined by that peer.
pub update_declines_once :
    (t later : Readings) (r : JobRequest) (b : Board) (a : ActionResult)
    → value_or r.state "" ≡ "open"
    → (update t r b).0 ≡ ok a
    → (update later r (update t r b).1).0 ≡ err (refused (already_declined (value_or r.from "")))
unfolding update
update_declines_once t later r b a s h = elim (Bool-cases (str_eq (value_or r.job "") "")) [
  | inl e ↦ absurd (ground arith)
  | inr e ↦ elim (Bool-cases (str_eq (value_or r.from "") "")) [
    | inl d ↦ absurd (ground arith)
    | inr d ↦
        rw (e, d)
          (ap (λ p. p.0)
            (Declined-refused id peer u says_open later
              (update_found t id peer u (find_job id b.jobs) b).1
              (update_found-Declined id peer u says_open t (find_job id b.jobs) b a refl
                (ground arith))))
  ]
]
  where
    id : String
    id = value_or r.job ""

    peer : String
    peer = value_or r.from ""

    u : JobUpdate
    u = update_of r

    says_open : str_eq u.state "open" ≡ true
    says_open = (eq_iff u.state "open").1 s
