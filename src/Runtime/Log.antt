-- ===== src/Runtime/Log.antt =====
-- The log of what a turn does to its conversation, and the receipts that it owes to the calls of tools
-- (src/runtime/executor.cpp).
use pu_cli.Base.{
  ℕ, String, Bool, true, false, not, ◌&&◌, Option, none, some, List, [], ◌∷◌, ◌++◌, ◌≡◌, inl, inr,
  refl, ap, ◌∙◌, if◌then◌else◌, str_eq, eq_iff, Bool-cases,
}
use pu_cli.Runtime.Data.{
  ToolCall, Reply, answered, threw, Entry, user_message, assistant_message, tool_message, World,
  Conversation, Turn, append_text,
}
use pu_cli.Runtime.Calls.{append_entry, is_cancelled, after_read, run_call, append_note}
use pu_cli.Runtime.Loop.{stream, explain, take_answer, call_provider, wrap_up_text, begin_round}

pub data Event (J : Type 0) : Type 0 where
  wrote : Entry J → Event J
  sealed : Event J

module _ {J : Type 0} where
  abbrev pub log : Conversation J (List (Event J))
  log = record { append = λ e l. l ++ wrote e ∷ []; seal = λ l. l ++ sealed ∷ [] }

  abbrev pub ids : List (ToolCall J) → List String
  ids [] = []
  ids (c ∷ cs) = c.id ∷ ids cs

  -- The receipts that are owed behind an entry; none if it stands where a receipt is due, or is a
  -- receipt that is not the next one due.
  abbrev pub owed_behind : Entry J → List String → Option (List String)
  owed_behind (user_message m) [] = some []
  owed_behind (user_message m) (id ∷ due) = none
  owed_behind (assistant_message m r cs) [] = some (ids cs)
  owed_behind (assistant_message m r cs) (id ∷ due) = none
  owed_behind (tool_message m name id) [] = none
  owed_behind (tool_message m name id) (first ∷ due) = if str_eq id first then some due else none

  abbrev pub owed_step : Event J → Option (List String) → Option (List String)
  owed_step e none = none
  owed_step (wrote e) (some due) = owed_behind e due
  owed_step sealed (some due) = some due

  unfoldable pub owed_from : Option (List String) → List (Event J) → Option (List String)
  owed_from o [] = o
  owed_from o (e ∷ es) = owed_from (owed_step e o) es

  -- The receipts that a log owes in the end; none if a receipt is out of place.
  unfoldable pub owed : List (Event J) → Option (List String)
  unfolding owed_from
  owed es = owed_from (some []) es

  owed_from-append :
      (o : Option (List String)) (es fs : List (Event J))
      → owed_from o (es ++ fs) ≡ owed_from (owed_from o es) fs
  unfolding owed_from
  owed_from-append o [] fs = refl
  owed_from-append o (e ∷ es) fs = owed_from-append (owed_step e o) es fs

  pub owed-append :
      (es : List (Event J)) (e : Event J) (due : List String)
      → owed es ≡ some due
      → owed (es ++ e ∷ []) ≡ owed_step e (some due)
  unfolding owed owed_from
  owed-append es e due h = owed_from-append (some []) es (e ∷ []) ∙ ap (owed_step e) h

pub owed_empty : (J : Type 0) → owed {J = J} [] ≡ some []
unfolding owed owed_from
owed_empty J = refl

str_eq_refl : (s : String) → str_eq s s ≡ true
str_eq_refl s = (eq_iff s s).1 refl

module _ {J Amount : Type 0} (plus : Amount → Amount → Amount) (world : World J Amount) where
  abbrev pub Logged : Type 0
  Logged = Turn Amount (List (Event J))

  abbrev pub Owes : List String → Logged → Type 0
  Owes due t = owed t.conversation ≡ some due

  -- No read of the cancel token finds it set.
  abbrev pub IsUndisturbed : Type 0
  IsUndisturbed = (m : ℕ) → world.cancel m ≡ false

  pub run_call-Owes :
      (c : ToolCall J) (due : List String) (t : Logged)
      → Owes (c.id ∷ due) t
      → Owes due (run_call world log c t)
  unfolding run_call
  run_call-Owes c due t h =
      owed-append t.conversation
        (wrote (tool_message (world.tool t.result.tool_call_count c) c.name c.id)) (c.id ∷ due) h
      ∙ rw (str_eq_refl c.id)

  pub after_read-Owes :
      (due : List String) (t : Logged) → Owes due t → Owes due (after_read world log t)
  after_read-Owes due t h = elim (Bool-cases world.has_token) [ inl e ↦ rw e h | inr e ↦ rw e h ]

  pub user-Owes :
      (m : String) (t : Logged) → Owes [] t → Owes [] (append_entry world log (user_message m) t)
  user-Owes m t h = owed-append t.conversation (wrote (user_message m)) [] h

  pub append_note-Owes : (t : Logged) → Owes [] t → Owes [] (append_note world log t)
  append_note-Owes t h =
      let note = world.note t.result.rounds in
      elim (Bool-cases (not (str_eq note "") && world.has_token)) [
        | inl e ↦ rw e (user-Owes (append_text "[user note during the turn] " note) t h)
        | inr e ↦ rw e h
      ]

  explain-Owes :
      (what : String) (t : Logged) → Owes [] t → Owes [] (explain plus world log what t).1
  explain-Owes what t h = elim (Bool-cases (is_cancelled world log t)) [
    | inl e ↦ rw e (after_read-Owes [] t h)
    | inr e ↦ elim (Bool-cases (world.shutdown t.result.rounds)) [
      | inl f ↦ rw (e, f) (after_read-Owes [] t h)
      | inr f ↦ rw (e, f) (after_read-Owes [] t h)
    ]
  ]

  take_answer-Owes :
      (r : Reply J Amount) (t : Logged) → Owes [] t → Owes [] (take_answer plus world log r t).1
  take_answer-Owes (answered tokens chat) t h = h
  take_answer-Owes (threw tokens what) t h =
      explain-Owes what (record t { result = stream tokens t.result }) h

  pub call_provider-Owes : (t : Logged) → Owes [] t → Owes [] (call_provider plus world log t).1
  unfolding call_provider
  call_provider-Owes t h = take_answer-Owes (world.reply t.result.rounds t.reads) t h

  pub begin_round-Owes :
      (now : Bool) (t : Logged) → Owes [] t → Owes [] (begin_round plus world log now t)
  begin_round-Owes true t h = user-Owes wrap_up_text t h
  begin_round-Owes false t h = h
