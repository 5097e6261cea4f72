-- ===== src/Runtime/Ends.antt =====
-- A turn ends (src/runtime/executor.cpp).
use pu_cli.Base.{
  ℕ, zero, suc, ◌+◌, ◌≤◌, ◌<◌, String, Bool, true, false, ◌&&◌, ◌||◌, Option, some, ◌≡◌, inl, inr,
  refl, sym, ap, ◌∙◌, subst, arith, is_empty, leb, Bool-cases, ◌==◌, ==_iff,
}
use pu_cli.Runtime.Data.{
  ChatResult, Reply, answered, threw, user_message, World, Conversation, Turn,
}
use pu_cli.Runtime.Calls.{append_entry}
use pu_cli.Runtime.Loop.{
  stream, Called, replied, failed, stopped, abandoned, Ended, left, broke, explain, take_answer,
  call_provider, run_round, begin_round, after_call, loop_rounds, new_turn, ended_turn,
  append_answer, run_tool_loop, execute,
}
use pu_cli.Runtime.Http.{was_set, over_http}
use pu_cli.Runtime.Progress.{WasCancelled, stream-tool_call_count, count, run_round-some}

abbrev pub IsThrown : {J Amount : Type 0} → Reply J Amount → Type 0
IsThrown (answered tokens chat) = ⊥
IsThrown (threw tokens what) = Unit

module _ {J Amount : Type 0} (world : World J Amount) where
  -- A provider whose request throws once the token is set.
  abbrev pub IsObedient : Type 0
  IsObedient = (round reads : ℕ) → WasCancelled world reads → IsThrown (world.reply round reads)

or_true : (a : Bool) → a || true ≡ true
or_true true = refl
or_true false = refl

module _ {J Amount C : Type 0} (plus : Amount → Amount → Amount) (world : World J Amount)
    (store : Conversation J C) where
  explain-replied :
      (what : String) (t u : Turn Amount C) (chat : ChatResult J Amount)
      → explain plus world store what t ≡ (replied chat, u)
      → ⊥
  explain-replied what t u chat e = ground arith

  -- What a reply leaves of the counts, and that it is one.
  take_answer-replied :
      (r : Reply J Amount) (t u : Turn Amount C) (chat : ChatResult J Amount)
      → take_answer plus world store r t ≡ (replied chat, u)
      → (count u ≡ count t) × (u.reads ≡ t.reads) × (IsThrown r → ⊥)
  take_answer-replied (answered tokens c) t u chat e = (
    sym (ap (λ p. count p.1) e) ∙ stream-tool_call_count tokens t.result,
    sym (ap (λ p. p.1.reads) e),
    (λ h. h),
  )
  take_answer-replied (threw tokens what) t u chat e =
      absurd (explain-replied what (record t { result = stream tokens t.result }) u chat e)

  abbrev Total : Option (Ended Amount C) → Type 0
  Total o = (e : Ended Amount C) × (o ≡ some e)

  after_call-Total :
      (now : Bool) (again : ChatResult J Amount → Turn Amount C → Option (Ended Amount C))
      (p : Called J Amount × Turn Amount C)
      → ((chat : ChatResult J Amount) (u : Turn Amount C)
          → p ≡ (replied chat, u)
          → is_empty chat.tool_calls ≡ false
          → Total (again chat u))
      → Total (after_call plus world store now again p)
  after_call-Total now again (failed, t) h = (broke now t, refl)
  after_call-Total now again (stopped, t) h = (_, refl)
  after_call-Total now again (abandoned, t) h = (left t, refl)
  after_call-Total now again (replied chat, t) h = elim (Bool-cases (is_empty chat.tool_calls)) [
    | inl e ↦ rw e (_, refl)
    | inr e ↦ rw e (h chat t refl e)
  ]

  call_provider-replied :
      (t u : Turn Amount C) (chat : ChatResult J Amount)
      → call_provider plus world store t ≡ (replied chat, u)
      → (count u ≡ count t)
        × (u.reads ≡ t.reads)
        × (IsThrown (world.reply t.result.rounds t.reads) → ⊥)
  unfolding call_provider
  call_provider-replied t u chat e =
      take_answer-replied (world.reply t.result.rounds t.reads) t u chat e

  begin_round-count :
      (now : Bool) (t : Turn Amount C) → count (begin_round plus world store now t) ≡ count t
  begin_round-count true t = refl
  begin_round-count false t = refl

  begin_round-reads :
      (now : Bool) (t : Turn Amount C) → (begin_round plus world store now t).reads ≡ t.reads
  begin_round-reads true t = refl
  begin_round-reads false t = refl

  abbrev loop_of : ℕ → ℕ → Bool → Bool → Turn Amount C → Option (Ended Amount C)
  loop_of = loop_rounds plus world store

  -- A round ends the turn, or a next one follows a reply with calls.
  loop_rounds-Total :
      (fuel budget : ℕ) (reached asked : Bool) (t : Turn Amount C)
      → let now = reached || leb budget (count t) in
        let begun = begin_round plus world store now t in
        ((now && asked ≡ false)
          → (chat : ChatResult J Amount) (u : Turn Amount C)
          → call_provider plus world store begun ≡ (replied chat, u)
          → is_empty chat.tool_calls ≡ false
          → Total (loop_of fuel budget now (asked || now) (run_round plus world store chat u)))
        → Total (loop_of (suc fuel) budget reached asked t)
  unfolding loop_rounds
  loop_rounds-Total fuel budget reached asked t h =
      let now = reached || leb budget (count t) in
      let begun = begin_round plus world store now t in
      elim (Bool-cases (now && asked)) [
        | inl over ↦ rw over (broke now t, refl)
        | inr on ↦ rw on (
            after_call-Total now
              (λ chat u. loop_of fuel budget now (asked || now) (run_round plus world store chat u))
              (call_provider plus world store begun) (h on))
      ]

  wrap_up-Total :
      (fuel budget : ℕ) (t : Turn Amount C) → Total (loop_of (suc fuel) budget true true t)
  wrap_up-Total fuel budget t =
      loop_rounds-Total fuel budget true true t (λ h. absurd (ground arith))

  module _ (obedient : IsObedient world) where
    cancelled-Total :
        (fuel budget : ℕ) (reached asked : Bool) (t : Turn Amount C)
        → WasCancelled world t.reads
        → Total (loop_of (suc fuel) budget reached asked t)
    cancelled-Total fuel budget reached asked t w =
        let now = reached || leb budget (count t) in
        let begun = begin_round plus world store now t in
        let hit : WasCancelled world begun.reads =
          subst (WasCancelled world) (sym (begin_round-reads now t)) w in
        loop_rounds-Total fuel budget reached asked t (λ on chat u e h.
          absurd (
            (call_provider-replied begun u chat e).2
              (obedient begun.result.rounds begun.reads hit)))

    -- The round behind a reply with calls, by whether the budget was reached before it.
    next-Total :
        (k budget : ℕ) (now asked : Bool) (u : Turn Amount C) (chat : ChatResult J Amount)
        → is_empty chat.tool_calls ≡ false
        → (now ≡ false
            → (v : Turn Amount C) → count u < count v
            → Total (loop_of (suc k) budget false (asked || false) v))
        → Total (loop_of (suc k) budget now (asked || now) (run_round plus world store chat u))
    next-Total k budget now asked u chat h ih =
        let v = run_round plus world store chat u in
        elim (run_round-some plus world store chat u h) [
          | inr hit ↦ cancelled-Total k budget now (asked || now) v hit
          | inl more ↦ elim (Bool-cases now) [
            | inl reached ↦ rw (reached, or_true asked) (wrap_up-Total k budget v)
            | inr below ↦ rw below (ih below v more)
          ]
        ]

    -- `k` calls are left of the budget.
    counted-Total :
        (k budget : ℕ) (reached asked : Bool) (t : Turn Amount C)
        → budget ≤ count t + k
        → Total (loop_of (suc (suc k)) budget reached asked t)
    counted-Total zero budget reached asked t h =
        let now = reached || leb budget (count t) in
        let begun = begin_round plus world store now t in
        loop_rounds-Total 1 budget reached asked t (λ on chat u e ne.
          next-Total 0 budget now asked u chat ne (λ below v more. absurd (ground arith)))
    counted-Total (suc k) budget reached asked t h =
        let now = reached || leb budget (count t) in
        let begun = begin_round plus world store now t in
        loop_rounds-Total (suc (suc k)) budget reached asked t (λ on chat u e ne.
          next-Total (suc k) budget now asked u chat ne (λ below v more.
            counted-Total k budget false (asked || false) v (
              omega (
                arith,
                h,
                more,
                (call_provider-replied begun u chat e).0,
                begin_round-count now t,
              ))))

    pub obedient_total :
        (budget : ℕ) (input : String) (next_id : ℕ) (conversation : C)
        → (t : Turn Amount C) × (execute plus world store
              (budget + 2)
              budget
              input
              next_id
              conversation
            ≡ some t)
    unfolding execute run_tool_loop
    obedient_total budget input next_id conversation =
        let asked =
          append_entry world store (user_message input)
            (new_turn plus world store next_id conversation) in
        let steps : budget + 2 ≡ suc (suc budget) = omega arith in
        let (ended, e) = counted-Total budget budget false false asked (omega arith) in
        (append_answer plus world store (ended_turn plus world store ended), rw (steps, e))

was_set-found : (cancel : ℕ → Bool) (m n : ℕ) → m < n → cancel m ≡ true → was_set cancel n ≡ true
was_set-found cancel m zero h e = absurd (omega (arith, h))
was_set-found cancel m (suc n) h e = elim (Bool-cases (m == n)) [
  | inl q ↦ let same : m ≡ n = (==_iff m n).0 q in rw (sym (ap cancel same) ∙ e) refl
  | inr q ↦
      let later = was_set-found cancel m n (ground (arith, h, q)) e in rw later (or_true (cancel n))
]

over_http-IsObedient : {J Amount : Type 0} (world : World J Amount) → IsObedient (over_http world)
over_http-IsObedient world round reads (token, (m, l, c)) =
    rw (token, was_set-found world.cancel m reads l c) _

-- A turn over HTTP ends within two rounds more than its budget of tool calls, whatever the provider
-- replies, the tools give and the reads of the cancel token find: so much fuel is enough for
-- `Execute`, which then returns.
pub execute_total :
    {J Amount C : Type 0} (plus : Amount → Amount → Amount) (world : World J Amount)
    (store : Conversation J C) (budget : ℕ) (input : String) (next_id : ℕ) (conversation : C)
    → (t : Turn Amount C) × (execute plus
          (over_http world)
          store
          (budget + 2)
          budget
          input
          next_id
          conversation
        ≡ some t)
execute_total plus world store budget input next_id conversation =
    obedient_total plus (over_http world) store (over_http-IsObedient world) budget input next_id
      conversation
