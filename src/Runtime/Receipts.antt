-- ===== src/Runtime/Receipts.antt =====
-- Each call of an undisturbed turn has its receipt in its place (src/runtime/executor.cpp).
use mathlib.Core.Option
use pu_cli.Base.{
  ℕ, zero, suc, ◌+◌, String, Bool, false, ◌&&◌, ◌||◌, Option, none, some, List, [], ◌∷◌, ◌≡◌, inl,
  inr, subst, arith, is_empty, leb, str_eq, Bool-cases,
}
use pu_cli.Runtime.Data.{ToolCall, ChatResult, user_message, assistant_message, World}
use pu_cli.Runtime.Calls.{append_entry, after_read, run_call, run_each, append_note, run_tool_calls}
use pu_cli.Runtime.Ends.{obedient_total}
use pu_cli.Runtime.Loop.{
  Called, replied, failed, stopped, abandoned, Ended, call_provider, name_calls, run_round,
  begin_round, after_call, take_final, loop_rounds, new_turn, ended_turn, append_answer,
  run_tool_loop, execute,
}
use pu_cli.Runtime.Log.{
  Event, wrote, sealed, log, ids, owed, owed-append, owed_empty, Logged, Owes, IsUndisturbed,
  run_call-Owes, after_read-Owes, user-Owes, append_note-Owes, call_provider-Owes, begin_round-Owes,
}

module _ {J Amount : Type 0} (plus : Amount → Amount → Amount) (world : World J Amount) where
  -- The log of a turn that is over owes nothing.
  abbrev Paired : Option (Ended Amount (List (Event J))) → Type 0
  Paired none = Unit
  Paired (some e) = Owes plus world [] (ended_turn plus world log e)

  module _ (calm : IsUndisturbed plus world) where
    unset : (m : ℕ) → world.has_token && world.cancel m ≡ false
    unset m = ground (arith, calm m)

    run_each-Owes :
        (cs : List (ToolCall J)) (t : Logged plus world)
        → Owes plus world (ids cs) t
        → Owes plus world [] (run_each world log cs t)
    unfolding run_each
    run_each-Owes [] t h = h
    run_each-Owes (c ∷ cs) t h =
        let read = after_read world log t in
        rw (unset t.reads) (
          run_each-Owes cs (run_call world log c read) (
            run_call-Owes plus world c (ids cs) read
              (after_read-Owes plus world (c.id ∷ ids cs) t h)))

    run_tool_calls-Owes :
        (cs : List (ToolCall J)) (t : Logged plus world)
        → Owes plus world (ids cs) t
        → Owes plus world [] (run_tool_calls world log cs t)
    unfolding run_tool_calls
    run_tool_calls-Owes cs t h =
        let noted = append_note world log (run_each world log cs t) in
        rw (unset noted.reads) (
          after_read-Owes plus world [] noted
            (append_note-Owes plus world (run_each world log cs t) (run_each-Owes cs t h)))

    run_round-Owes :
        (chat : ChatResult J Amount) (t : Logged plus world)
        → Owes plus world [] t
        → Owes plus world [] (run_round plus world log chat t)
    unfolding run_round
    run_round-Owes chat t h =
        let named = name_calls plus world log t.next_tool_call_id chat.tool_calls in
        run_tool_calls-Owes named.0
          (append_entry world log (assistant_message chat.content chat.reasoning named.0)
            (record t { next_tool_call_id = named.1 }))
          (owed-append t.conversation
            (wrote (assistant_message chat.content chat.reasoning named.0)) [] h)

    after_call-Paired :
        (now : Bool)
        (again : ChatResult J Amount → Logged plus world → Option (Ended Amount (List (Event J))))
        (p : Called J Amount × Logged plus world)
        → Owes plus world [] p.1
        → ((chat : ChatResult J Amount) (u : Logged plus world)
            → Owes plus world [] u
            → Paired (again chat u))
        → Paired (after_call plus world log now again p)
    unfolding take_final
    after_call-Paired now again (failed, t) h next = h
    after_call-Paired now again (stopped, t) h next = owed-append t.conversation sealed [] h
    after_call-Paired now again (abandoned, t) h next = h
    after_call-Paired now again (replied chat, t) h next =
        elim (Bool-cases (is_empty chat.tool_calls)) [
          | inl e ↦ rw e h
          | inr e ↦ rw e (next chat t h)
        ]

    loop_rounds-Paired :
        (fuel budget : ℕ) (reached asked : Bool) (t : Logged plus world)
        → Owes plus world [] t
        → Paired (loop_rounds plus world log fuel budget reached asked t)
    unfolding loop_rounds
    loop_rounds-Paired zero budget reached asked t h = tt
    loop_rounds-Paired (suc fuel) budget reached asked t h =
        let now = reached || leb budget t.result.tool_call_count in
        let begun = begin_round plus world log now t in
        elim (Bool-cases (now && asked)) [
          | inl over ↦ rw over h
          | inr on ↦ rw on (
              after_call-Paired now
                (λ chat u.
                  loop_rounds plus world log fuel budget now (asked || now)
                    (run_round plus world log chat u))
                (call_provider plus world log begun)
                (call_provider-Owes plus world begun (begin_round-Owes plus world now t h))
                (λ chat u hu.
                  loop_rounds-Paired fuel budget now (asked || now)
                    (run_round plus world log chat u) (run_round-Owes chat u hu)))
        ]

    append_answer-Owes :
        (t : Logged plus world)
        → Owes plus world [] t
        → Owes plus world [] (append_answer plus world log t)
    append_answer-Owes t h = elim (Bool-cases (t.result.has_error || str_eq t.result.content "")) [
      | inl e ↦ rw e h
      | inr e ↦
          rw e (owed-append t.conversation (wrote (assistant_message t.result.content [] [])) [] h)
    ]

    -- The log of a turn that has returned owes nothing.
    abbrev Returned : Option (Logged plus world) → Type 0
    Returned none = Unit
    Returned (some t) = Owes plus world [] t

    ended-Returned :
        (o : Option (Ended Amount (List (Event J))))
        → Paired o
        → Returned
            (Option.map (append_answer plus world log) (Option.map (ended_turn plus world log) o))
    ended-Returned none h = tt
    ended-Returned (some e) h = append_answer-Owes (ended_turn plus world log e) h

    execute-Returned :
        (fuel budget : ℕ) (input : String) (next_id : ℕ)
        → Returned (execute plus world log fuel budget input next_id [])
    unfolding execute run_tool_loop
    execute-Returned fuel budget input next_id =
        let asked =
          append_entry world log (user_message input) (new_turn plus world log next_id []) in
        ended-Returned (loop_rounds plus world log fuel budget false false asked) (
          loop_rounds-Paired fuel budget false false asked
            (user-Owes plus world input (new_turn plus world log next_id []) (owed_empty J)))

    -- A turn that no cancellation disturbs ends within two rounds more than its budget, and in the log
    -- of what it did to the conversation, each reply with calls has the receipts of its calls right
    -- behind it: one for each call, with the call's id, in the order of the calls and with nothing in
    -- between, however the provider replies and whatever the tools give.
    pub execute-owed :
        (budget : ℕ) (input : String) (next_id : ℕ)
        → (t : Logged plus world) × (execute plus world log (budget + 2) budget input next_id []
            ≡ some t)
          × (owed t.conversation ≡ some [])
    execute-owed budget input next_id =
        let (t, e) =
          obedient_total plus world log
            (λ round reads w. absurd (ground (arith, calm w.1.0, w.1.2))) budget input next_id [] in
        (t, e, subst Returned e (execute-Returned (budget + 2) budget input next_id))
