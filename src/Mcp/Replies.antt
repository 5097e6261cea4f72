-- ===== src/Mcp/Replies.antt =====
-- Which reply a request gets (`JsonRpcClient` of src/mcp/client.cpp).
use pu_cli.Base.{
  ℕ, suc, ◌<◌, String, Bool, true, false, Option, none, some, List, [], ◌∷◌, ◌≡◌, inl, inr, refl,
  sym, ap, ◌∙◌, subst, arith, ◌==◌, ==_iff, if◌then◌else◌, Bool-cases, if_true, if_false,
}
use pu_cli.Session.Json.{JsonValue}
use pu_cli.Mcp.Rpc.{
  Settled, exception, JsonRpcClient, contains, erase, find_settled, settle, issued, unless_written,
  send_request, id_in, reply_of, heard, on_message, Traffic, sends, hears, pass,
}

contains-erase : (id : ℕ) (ks : List ℕ) → contains id (erase id ks) ≡ false
unfolding contains erase
contains-erase id [] = refl
contains-erase id (k ∷ ks) = elim (Bool-cases (k == id)) [
  | inl h ↦ rw h (contains-erase id ks)
  | inr h ↦ rw (h, h) (contains-erase id ks)
]

contains-erase_other :
    (id k : ℕ) (ks : List ℕ) → (k == id) ≡ false → contains id (erase k ks) ≡ contains id ks
unfolding contains erase
contains-erase_other id k [] h = refl
contains-erase_other id k (x ∷ ks) h = elim (Bool-cases (x == k)) [
  | inl e ↦
      let other : (x == id) ≡ false = subst (λ n. (n == id) ≡ false) (sym ((==_iff x k).0 e)) h in
      rw (e, other) (contains-erase_other id k ks h)
  | inr e ↦ rw (e) (ap (λ b. if x == id then true else b) (contains-erase_other id k ks h))
]

same_id : (id : ℕ) → (id == id) ≡ true
same_id id = (==_iff id id).1 refl

module _ {J : Type 0} where
  -- How far the promise of an id is: still pending, or settled with an outcome.
  abbrev pub IsWaiting : ℕ → JsonRpcClient J → Type 0
  IsWaiting id c = (contains id c.pending ≡ true) × (find_settled id c.settled ≡ none)

  abbrev pub IsSettled : ℕ → Settled J → JsonRpcClient J → Type 0
  IsSettled id out c = (contains id c.pending ≡ false) × (find_settled id c.settled ≡ some out)

  settle-IsSettled :
      (id : ℕ) (out : Settled J) (c : JsonRpcClient J)
      → contains id c.pending ≡ true
      → IsSettled id out (settle id out c)
  unfolding settle find_settled
  settle-IsSettled id out c h =
      subst (IsSettled id out) (sym (if_true (contains id c.pending) _ c h))
        (contains-erase id c.pending, if_true (id == id) (some out) _ (same_id id))

  -- Settling one promise leaves every other as it was.
  settle-other :
      (P : Bool → Option (Settled J) → Type 0) (id k : ℕ) (out : Settled J) (c : JsonRpcClient J)
      → (k == id) ≡ false
      → P (contains id c.pending) (find_settled id c.settled)
      → P (contains id (settle k out c).pending) (find_settled id (settle k out c).settled)
  unfolding settle find_settled
  settle-other P id k out c h p =
      let Q : JsonRpcClient J → Type 0 =
        λ d. P (contains id d.pending) (find_settled id d.settled) in
      elim (Bool-cases (contains k c.pending)) [
        | inl e ↦ subst Q (sym (if_true (contains k c.pending) _ c e)) (
            subst (λ b. P b (if k == id then some out else find_settled id c.settled))
              (sym (contains-erase_other id k c.pending h))
              (subst (λ o. P (contains id c.pending) o)
                (sym (if_false (k == id) (some out) (find_settled id c.settled) h)) p))
        | inr e ↦ subst Q (sym (if_false (contains k c.pending) _ c e)) p
      ]

  -- A promise that is not pending is not settled again.
  settle-IsSettled_again :
      (id k : ℕ) (out new : Settled J) (c : JsonRpcClient J)
      → IsSettled id out c
      → IsSettled id out (settle k new c)
  unfolding settle
  settle-IsSettled_again id k out new c h = elim (Bool-cases (k == id)) [
    | inl e ↦
        let gone : contains k c.pending ≡ false =
          ap (λ n. contains n c.pending) ((==_iff k id).0 e) ∙ h.0 in
        subst (IsSettled id out) (sym (if_false (contains k c.pending) _ c gone)) h
    | inr e ↦ settle-other (λ b o. (b ≡ false) × (o ≡ some out)) id k new c e h
  ]

module _ {J : Type 0} (json : JsonValue J) (int_of : J → Option ℕ) (serialize : J → String) where
  abbrev answer_to : ℕ → Option ℕ → J → Option (Settled J)
  answer_to id none j = none
  answer_to id (some k) j = if k == id then some (reply_of json int_of serialize j) else none

  abbrev or_later : Option (Settled J) → Option (Settled J) → Option (Settled J)
  or_later none later = later
  or_later (some out) later = some out

  -- What the first message that has an id gives to its promise.
  unfoldable pub first_reply : ℕ → List (Traffic J) → Option (Settled J)
  first_reply id [] = none
  first_reply id (sends method params is_written ∷ ts) = first_reply id ts
  first_reply id (hears none ∷ ts) = first_reply id ts
  first_reply id (hears (some j) ∷ ts) =
      or_later (answer_to id (id_in json int_of serialize j) j) (first_reply id ts)

  -- A request leaves the promises of the requests before it as they were.
  send_request-other :
      (P : Bool → Option (Settled J) → Type 0) (id : ℕ) (method : String) (params : J)
      (is_written : Bool) (c : JsonRpcClient J)
      → id < c.next_id
      → P (contains id c.pending) (find_settled id c.settled)
      → P
          (contains id (send_request json int_of serialize method params is_written c).pending)
          (find_settled id (send_request json int_of serialize method params is_written c).settled)
  unfolding send_request contains
  send_request-other P id method params is_written c old p =
      let other : (c.next_id == id) ≡ false = ground (arith, old) in
      let kept =
        subst (λ b. P b (find_settled id c.settled))
          (sym (
            if_false (c.next_id == id) true (contains id (erase c.next_id c.pending)) other
            ∙ contains-erase_other id c.next_id c.pending other))
          p in
      written is_written kept other
    where
      written :
          (is_written : Bool)
          → P
              (contains id (issued json int_of serialize method params c).pending)
              (find_settled id c.settled)
          → (c.next_id == id) ≡ false
          → P
              (contains id
                (unless_written json int_of serialize is_written c.next_id
                  (issued json int_of serialize method params c)).pending)
              (find_settled id
                (unless_written json int_of serialize is_written c.next_id
                  (issued json int_of serialize method params c)).settled)
      written true kept other = kept
      written false kept other =
          settle-other P id c.next_id (exception "Write failed")
            (issued json int_of serialize method params c) other kept

  settle-next_id :
      (k : ℕ) (out : Settled J) (c : JsonRpcClient J) → (settle k out c).next_id ≡ c.next_id
  unfolding settle
  settle-next_id k out c = elim (Bool-cases (contains k c.pending)) [
    | inl e ↦ ap (λ (d : JsonRpcClient J). d.next_id) (if_true (contains k c.pending) _ c e)
    | inr e ↦ ap (λ (d : JsonRpcClient J). d.next_id) (if_false (contains k c.pending) _ c e)
  ]

  send_request-next_id :
      (method : String) (params : J) (is_written : Bool) (c : JsonRpcClient J)
      → (send_request json int_of serialize method params is_written c).next_id ≡ suc c.next_id
  unfolding send_request
  send_request-next_id method params true c = refl
  send_request-next_id method params false c =
      settle-next_id c.next_id (exception "Write failed")
        (issued json int_of serialize method params c)

  heard-next_id :
      (o : Option ℕ) (j : J) (c : JsonRpcClient J)
      → (heard json int_of serialize o j c).next_id ≡ c.next_id
  heard-next_id none j c = refl
  heard-next_id (some k) j c = settle-next_id k (reply_of json int_of serialize j) c

  heard-IsSettled :
      (id : ℕ) (out : Settled J) (o : Option ℕ) (j : J) (c : JsonRpcClient J)
      → IsSettled id out c
      → IsSettled id out (heard json int_of serialize o j c)
  heard-IsSettled id out none j c h = h
  heard-IsSettled id out (some k) j c h =
      settle-IsSettled_again id k out (reply_of json int_of serialize j) c h

  -- A settled promise stays as it is, whatever passes later.
  pass-IsSettled :
      (id : ℕ) (out : Settled J) (ts : List (Traffic J)) (c : JsonRpcClient J)
      → id < c.next_id
      → IsSettled id out c
      → IsSettled id out (pass json int_of serialize ts c)
  unfolding pass on_message
  pass-IsSettled id out [] c old h = h
  pass-IsSettled id out (sends method params is_written ∷ ts) c old h =
      pass-IsSettled id out ts (send_request json int_of serialize method params is_written c)
        (omega (arith, old, send_request-next_id method params is_written c))
        (send_request-other (λ b o. (b ≡ false) × (o ≡ some out)) id method params is_written c old
          h)
  pass-IsSettled id out (hears none ∷ ts) c old h = pass-IsSettled id out ts c old h
  pass-IsSettled id out (hears (some j) ∷ ts) c old h =
      let o = id_in json int_of serialize j in
      pass-IsSettled id out ts (heard json int_of serialize o j c)
        (omega (arith, old, heard-next_id o j c)) (heard-IsSettled id out o j c h)

  -- What a promise that is still pending comes to.
  pass-first_reply :
      (id : ℕ) (ts : List (Traffic J)) (c : JsonRpcClient J)
      → id < c.next_id
      → IsWaiting id c
      → find_settled id (pass json int_of serialize ts c).settled ≡ first_reply id ts
  unfolding pass on_message first_reply
  pass-first_reply id [] c old h = h.1
  pass-first_reply id (sends method params is_written ∷ ts) c old h =
      pass-first_reply id ts (send_request json int_of serialize method params is_written c)
        (omega (arith, old, send_request-next_id method params is_written c))
        (send_request-other (λ b o. (b ≡ true) × (o ≡ none)) id method params is_written c old h)
  pass-first_reply id (hears none ∷ ts) c old h = pass-first_reply id ts c old h
  pass-first_reply id (hears (some j) ∷ ts) c old h =
      by_id (id_in json int_of serialize j) (pass-first_reply id ts)
    where
      by_id :
          (o : Option ℕ)
          → ((d : JsonRpcClient J)
              → id < d.next_id
              → IsWaiting id d
              → find_settled id (pass json int_of serialize ts d).settled ≡ first_reply id ts)
          → find_settled id
              (pass json int_of serialize ts (heard json int_of serialize o j c)).settled
            ≡ or_later (answer_to id o j) (first_reply id ts)
      by_id none rest = rest c old h
      by_id (some k) rest =
          let out = reply_of json int_of serialize j in
          let after = settle k out c in
          let newer : id < after.next_id = omega (arith, old, settle-next_id k out c) in
          elim (Bool-cases (k == id)) [
            | inl e ↦
                let mine : IsSettled id out after =
                  subst (λ n. IsSettled id out (settle n out c)) (sym ((==_iff k id).0 e))
                    (settle-IsSettled id out c h.0) in
                (pass-IsSettled id out ts after newer mine).1
                ∙ sym
                    (ap (λ o. or_later o (first_reply id ts)) (if_true (k == id) (some out) none e))
            | inr e ↦
                rest after newer (settle-other (λ b o. (b ≡ true) × (o ≡ none)) id k out c e h)
                ∙ sym (
                    ap (λ o. or_later o (first_reply id ts)) (if_false (k == id) (some out) none e))
          ]

  -- A request that was written gets the first reply with its id that comes later, whatever other
  -- requests are sent and whatever else is heard between and after; without such a reply its promise is
  -- never settled. No promise under the id of the request was settled before it.
  pub send_request-first_reply :
      (method : String) (params : J) (ts : List (Traffic J)) (c : JsonRpcClient J)
      → find_settled c.next_id c.settled ≡ none
      → find_settled c.next_id
          (pass json int_of serialize ts
            (send_request json int_of serialize method params true c)).settled
        ≡ first_reply c.next_id ts
  unfolding send_request contains
  send_request-first_reply method params ts c fresh =
      pass-first_reply c.next_id ts (send_request json int_of serialize method params true c)
        (omega arith) (if_true (c.next_id == c.next_id) true _ (same_id c.next_id), fresh)
