-- ===== src/Runtime/Progress.antt =====
-- A round of calls counts one of them at least, or finds the cancel token set
-- (src/runtime/executor.cpp).
use pu_cli.Base.{
  ℕ, suc, ◌+◌, ◌≤◌, ◌<◌, String, Bool, true, false, not, ◌&&◌, List, [], ◌∷◌, ◌≡◌, ◌⊎◌, inl, inr,
  refl, ◌∙◌, arith, is_empty, if◌then◌else◌, str_eq, Bool-cases,
}
use pu_cli.Runtime.Data.{
  ToolCall, ChatResult, ExecutionResult, assistant_message, World, Conversation, Turn, append_text,
}
use pu_cli.Runtime.Calls.{
  append_entry, is_cancelled, after_read, run_call, run_each, append_note, seal_if_cancelled,
  run_tool_calls,
}
use pu_cli.Runtime.Loop.{stream, name_calls, run_round}

module _ {J Amount : Type 0} (world : World J Amount) where
  -- There is a token, and one of the reads so far found it set.
  abbrev pub WasCancelled : ℕ → Type 0
  WasCancelled reads = (world.has_token ≡ true) × ((m : ℕ) × (m < reads) × (world.cancel m ≡ true))

  WasCancelled-mono : (a b : ℕ) → a ≤ b → WasCancelled a → WasCancelled b
  WasCancelled-mono a b h (token, (m, l, c)) = (token, (m, omega arith, c))

pub stream-tool_call_count :
    {Amount : Type 0} (ss : List String) (r : ExecutionResult Amount)
    → (stream ss r).tool_call_count ≡ r.tool_call_count
unfolding stream
stream-tool_call_count [] r = refl
stream-tool_call_count (s ∷ ss) r =
    stream-tool_call_count ss (
      if str_eq s ""
      then r
      else record r { was_streamed = true; content = append_text r.content s })
    ∙ ground arith

both_true : (a b : Bool) → a && b ≡ true → (a ≡ true) × (b ≡ true)
both_true a b h = ground arith

abbrev pub count : {Amount C : Type 0} → Turn Amount C → ℕ
count t = t.result.tool_call_count

module _ {J Amount C : Type 0} (plus : Amount → Amount → Amount) (world : World J Amount)
    (store : Conversation J C) where
  -- Calls counted and reads made, at least.
  record Grows (t u : Turn Amount C) : Type 0 where
    counts : count t ≤ count u
    reads : t.reads ≤ u.reads

  run_call-count :
      (c : ToolCall J) (t : Turn Amount C) → count (run_call world store c t) ≡ suc (count t)
  unfolding run_call
  run_call-count c t = ground arith

  run_call-reads : (c : ToolCall J) (t : Turn Amount C) → (run_call world store c t).reads ≡ t.reads
  unfolding run_call
  run_call-reads c t = refl

  Grows-trans : (t u v : Turn Amount C) → Grows t u → Grows u v → Grows t v
  Grows-trans t u v p q = record {
    counts = omega (arith, p.counts, q.counts);
    reads = omega (arith, p.reads, q.reads);
  }

  after_read-Grows : (t : Turn Amount C) → Grows t (after_read world store t)
  after_read-Grows t = elim (Bool-cases world.has_token) [
    | inl e ↦ rw e (record { counts = omega arith; reads = omega arith })
    | inr e ↦ rw e (record { counts = omega arith; reads = omega arith })
  ]

  run_call-Grows : (c : ToolCall J) (t : Turn Amount C) → Grows t (run_call world store c t)
  run_call-Grows c t = record {
    counts = omega (arith, run_call-count c t);
    reads = omega (arith, run_call-reads c t);
  }

  run_each-Grows :
      (cs : List (ToolCall J)) (t : Turn Amount C) → Grows t (run_each world store cs t)
  unfolding run_each
  run_each-Grows [] t = record { counts = omega arith; reads = omega arith }
  run_each-Grows (c ∷ cs) t =
      let read = after_read world store t in
      let called = run_call world store c read in
      elim (Bool-cases (is_cancelled world store t)) [
        | inl e ↦ rw e (after_read-Grows t)
        | inr e ↦ rw e (
            Grows-trans t read (run_each world store cs called) (after_read-Grows t) (
              Grows-trans read called (run_each world store cs called) (run_call-Grows c read)
                (run_each-Grows cs called)))
      ]

  append_note-Grows : (t : Turn Amount C) → Grows t (append_note world store t)
  append_note-Grows t =
      elim (Bool-cases (not (str_eq (world.note t.result.rounds) "") && world.has_token)) [
        | inl e ↦ rw e (record { counts = omega arith; reads = omega arith })
        | inr e ↦ rw e (record { counts = omega arith; reads = omega arith })
      ]

  seal_if_cancelled-Grows : (t : Turn Amount C) → Grows t (seal_if_cancelled world store t)
  seal_if_cancelled-Grows t = elim (Bool-cases (is_cancelled world store t)) [
    | inl e ↦
        rw e (record { counts = (after_read-Grows t).counts; reads = (after_read-Grows t).reads })
    | inr e ↦ rw e (after_read-Grows t)
  ]

  -- A round of calls counts one call at least, unless it finds the token set.
  run_each-some :
      (c : ToolCall J) (cs : List (ToolCall J)) (t : Turn Amount C)
      → (count t < count (run_each world store (c ∷ cs) t))
        ⊎ WasCancelled world (run_each world store (c ∷ cs) t).reads
  unfolding run_each
  run_each-some c cs t =
      let read = after_read world store t in
      let called = run_call world store c read in
      elim (Bool-cases (is_cancelled world store t)) [
        | inl e ↦
            let (token, set) = both_true world.has_token (world.cancel t.reads) e in
            rw (e, token) (inr (refl, (t.reads, omega arith, set)))
        | inr e ↦ rw e (
            inl (
              omega (
                arith,
                (after_read-Grows t).counts,
                run_call-count c read,
                (run_each-Grows cs called).counts,
              )))
      ]

  run_tool_calls-some :
      (c : ToolCall J) (cs : List (ToolCall J)) (t : Turn Amount C)
      → let u = run_tool_calls world store (c ∷ cs) t in
        (count t < count u) ⊎ WasCancelled world u.reads
  unfolding run_tool_calls
  run_tool_calls-some c cs t =
      let ran = run_each world store (c ∷ cs) t in
      let noted = append_note world store ran in
      let g =
        Grows-trans ran noted (seal_if_cancelled world store noted) (append_note-Grows ran)
          (seal_if_cancelled-Grows noted) in
      elim (run_each-some c cs t) [
        | inl more ↦ inl (omega (arith, more, g.counts))
        | inr hit ↦ inr (
            WasCancelled-mono world ran.reads (seal_if_cancelled world store noted).reads g.reads
              hit)
      ]

  named_cons :
      (n : ℕ) (cs : List (ToolCall J))
      → is_empty cs ≡ false
      → (d : ToolCall J) × (ds : List (ToolCall J)) × ((name_calls plus world store n cs).0
          ≡ d ∷ ds)
  unfolding name_calls
  named_cons n [] h = absurd (ground arith)
  named_cons n (c ∷ cs) h =
      let fresh = str_eq c.id "" in
      (
        if fresh then record c { id = world.call_id (n + 1) } else c,
        (name_calls plus world store (if fresh then n + 1 else n) cs).0,
        refl,
      )

  pub run_round-some :
      (chat : ChatResult J Amount) (t : Turn Amount C)
      → is_empty chat.tool_calls ≡ false
      → let u = run_round plus world store chat t in
        (count t < count u) ⊎ WasCancelled world u.reads
  unfolding run_round
  run_round-some chat t h =
      let (d, ds, e) = named_cons t.next_tool_call_id chat.tool_calls h in
      let named = name_calls plus world store t.next_tool_call_id chat.tool_calls in
      rw e (
        run_tool_calls-some d ds (
          append_entry world store (assistant_message chat.content chat.reasoning (d ∷ ds))
            (record t { next_tool_call_id = named.1 })))
