-- ===== src/Runtime/Cancelled.antt =====
-- A cancellation between two tool calls of a round: `RunToolCalls` of src/runtime/executor.cpp.
use pu_cli.Base.{
  String, ℕ, ◌+◌, Bool, true, false, some, List, [], ◌∷◌, ◌++◌, ◌≡◌, refl, ap, ◌∙◌, arith,
}
use pu_cli.Session.Message.{MessageNode, ToolPayload, tool}
use pu_cli.Session.Graph.{
  MessageGraph, find_node, seal_payload, seal_node, seal_interrupted_tool_calls,
}
use pu_cli.Runtime.Data.{ToolCall, World}
use pu_cli.Runtime.Calls.{
  is_cancelled, after_read, run_call, run_each, append_note, seal_if_cancelled, run_tool_calls,
}
use pu_cli.Runtime.Log.{sealed, log, ids, owed, owed-append, Logged, run_call-Owes}

module _ {J Amount : Type 0} (plus : Amount → Amount → Amount) (world : World J Amount) where
  -- The token is set between the first call of a round and the second, and no note waits.
  pub record IsCutBetween (t : Logged plus world) : Type 0 where
    pub token : world.has_token ≡ true
    pub first : world.cancel t.reads ≡ false
    pub second : world.cancel (t.reads + 1) ≡ true
    pub behind : world.cancel (t.reads + 2) ≡ true
    pub quiet : world.note t.result.rounds ≡ ""

  run_call-rounds :
      (c : ToolCall J) (t : Logged plus world)
      → (run_call world log c t).result.rounds ≡ t.result.rounds
  unfolding run_call
  run_call-rounds c t = ground arith

  after_read-token :
      (t : Logged plus world)
      → world.has_token ≡ true
      → after_read world log t ≡ record t { reads = t.reads + 1 }
  after_read-token t h = rw h refl

  is_cancelled-token :
      (t : Logged plus world) (b : Bool)
      → world.has_token ≡ true
      → world.cancel t.reads ≡ b
      → is_cancelled world log t ≡ b
  is_cancelled-token t b h k = rw (h, k) refl

  append_note-quiet :
      (t : Logged plus world) → world.note t.result.rounds ≡ "" → append_note world log t ≡ t
  append_note-quiet t h = rw h refl

  seal_if_cancelled-set :
      (t : Logged plus world)
      → world.has_token ≡ true
      → is_cancelled world log t ≡ true
      → (seal_if_cancelled world log t).conversation ≡ t.conversation ++ sealed ∷ []
  seal_if_cancelled-set t h k = rw (k, h) refl

  module _ (a b : ToolCall J) (cs : List (ToolCall J)) (t : Logged plus world)
      (cut : IsCutBetween t) where
    abbrev ran_first : Logged plus world
    ran_first = run_call world log a (record t { reads = t.reads + 1 })

    ran_first-reads : ran_first.reads ≡ t.reads + 1
    unfolding run_call
    ran_first-reads = refl

    run_each-cut :
        run_each world log (a ∷ b ∷ cs) t ≡ record ran_first { reads = ran_first.reads + 1 }
    unfolding run_each
    run_each-cut =
        rw
          (
            is_cancelled-token t false cut.token cut.first,
            after_read-token t cut.token,
            is_cancelled-token ran_first true cut.token
                (ap world.cancel ran_first-reads ∙ cut.second),
          )
          (after_read-token ran_first cut.token)

    left_owed :
        owed t.conversation ≡ some (a.id ∷ b.id ∷ ids cs)
        → owed (run_tool_calls world log (a ∷ b ∷ cs) t).conversation ≡ some (b.id ∷ ids cs)
    unfolding run_tool_calls
    left_owed h =
        let read = record t { reads = t.reads + 1 } in
        let stop = record ran_first { reads = ran_first.reads + 1 } in
        let twice : stop.reads ≡ t.reads + 2 = ap (λ n. n + 1) ran_first-reads ∙ omega arith in
        let over = is_cancelled-token stop true cut.token (ap world.cancel twice ∙ cut.behind) in
        let quiet = ap world.note (run_call-rounds a read) ∙ cut.quiet in
        rw (run_each-cut, append_note-quiet stop quiet, seal_if_cancelled-set stop cut.token over)
          (owed-append stop.conversation sealed (b.id ∷ ids cs)
            (run_call-Owes plus world a (b.id ∷ ids cs) read h))

    -- If the cancel token is set between the first call of a round and the second, and no note waits, the
    -- first call has its receipt, and the calls behind it are left without one: their receipts are still
    -- owed to the reply that made them. The sealing that follows does not make them up, since it leaves
    -- any graph as it is whose leaf is a receipt.
    pub cancelled_call_is_owed :
        owed t.conversation ≡ some (a.id ∷ b.id ∷ ids cs)
        → (draw : ℕ → String) (g : MessageGraph J) (n : MessageNode J) (receipt : ToolPayload)
        → find_node g.leaf g.nodes ≡ some n
        → n.payload ≡ tool receipt
        → (owed (run_tool_calls world log (a ∷ b ∷ cs) t).conversation ≡ some (b.id ∷ ids cs))
          × (seal_interrupted_tool_calls draw g ≡ g)
    unfolding seal_interrupted_tool_calls
    cancelled_call_is_owed h draw g n receipt found is_receipt = (
      left_owed h,
      ap (λ o. seal_node draw o g) found ∙ ap (λ p. seal_payload draw p n g) is_receipt,
    )
