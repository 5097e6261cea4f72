-- ===== src/Serve/Listed.antt =====
-- Which servers are listed (src/config/serve_registry.cpp).
use pu_cli.Base.{
  ℕ, ◌<◌, ◌%◌, ◌^◌, String, Bool, true, false, not, ◌&&◌, List, [], ◌∷◌, ◌++◌, ◌≡◌, ◌⊎◌, inl, inr,
  refl, sym, ap, ◌∙◌, subst, arith, ltb, ◌==◌, if◌then◌else◌, Bool-cases, if_true, if_false,
}
use pu_cli.Session.Json.{JsonValue, members_found, members}
use pu_cli.Serve.Registry.{
  ServeRecord, insert_by_port, sort_by_port, record_from_json, record_to_json, still_running,
  live_items, records_from, live_serve_records, kept_items, register_serve_record,
}

-- A record is one of a list.
abbrev pub IsListed : ServeRecord → List ServeRecord → Type 0
IsListed q [] = ⊥
IsListed q (r ∷ rs) = (q ≡ r) ⊎ IsListed q rs

insert_by_port-IsListed :
    (q r : ServeRecord) (rs : List ServeRecord)
    → IsListed q (r ∷ rs)
    → IsListed q (insert_by_port r rs)
unfolding insert_by_port
insert_by_port-IsListed q r [] m = m
insert_by_port-IsListed q r (x ∷ xs) m = elim (Bool-cases (ltb r.port x.port)) [
  | inl h ↦
      subst (IsListed q) (sym (if_true (ltb r.port x.port) (x ∷ insert_by_port r xs) _ h))
        (behind (insert_by_port-IsListed q r xs) m)
  | inr h ↦ subst (IsListed q) (sym (if_false (ltb r.port x.port) _ (r ∷ x ∷ xs) h)) m
]
  where
    behind :
        (IsListed q (r ∷ xs) → IsListed q (insert_by_port r xs))
        → IsListed q (r ∷ x ∷ xs)
        → IsListed q (x ∷ insert_by_port r xs)
    behind rest (inl e) = inr (rest (inl e))
    behind rest (inr (inl e)) = inl e
    behind rest (inr (inr n)) = inr (rest (inr n))

sort_by_port-IsListed :
    (q : ServeRecord) (rs : List ServeRecord) → IsListed q rs → IsListed q (sort_by_port rs)
unfolding sort_by_port
sort_by_port-IsListed q [] m = m
sort_by_port-IsListed q (r ∷ rs) (inl e) = insert_by_port-IsListed q r (sort_by_port rs) (inl e)
sort_by_port-IsListed q (r ∷ rs) (inr n) =
    insert_by_port-IsListed q r (sort_by_port rs) (inr (sort_by_port-IsListed q rs n))

insert_by_port-in :
    (q r : ServeRecord) (rs : List ServeRecord)
    → IsListed q (insert_by_port r rs)
    → IsListed q (r ∷ rs)
unfolding insert_by_port
insert_by_port-in q r [] m = m
insert_by_port-in q r (x ∷ xs) m = elim (Bool-cases (ltb r.port x.port)) [
  | inl h ↦
      front (insert_by_port-in q r xs)
        (subst (IsListed q) (if_true (ltb r.port x.port) (x ∷ insert_by_port r xs) _ h) m)
  | inr h ↦ subst (IsListed q) (if_false (ltb r.port x.port) _ (r ∷ x ∷ xs) h) m
]
  where
    front :
        (IsListed q (insert_by_port r xs) → IsListed q (r ∷ xs))
        → IsListed q (x ∷ insert_by_port r xs)
        → IsListed q (r ∷ x ∷ xs)
    front rest (inl e) = inr (inl e)
    front rest (inr n) = elim (rest n) [ inl e ↦ inl e | inr k ↦ inr (inr k) ]

sorted_IsListed :
    (q : ServeRecord) (rs : List ServeRecord) → IsListed q (sort_by_port rs) → IsListed q rs
unfolding sort_by_port
sorted_IsListed q [] m = m
sorted_IsListed q (r ∷ rs) m = elim (insert_by_port-in q r (sort_by_port rs) m) [
  | inl e ↦ inl e
  | inr n ↦ inr (sorted_IsListed q rs n)
]

left_of : (a b : Bool) → (a && b) ≡ true → a ≡ true
left_of true b h = refl
left_of false b h = h

both : (a b : Bool) → a ≡ false → b ≡ true → (not a && b) ≡ true
both a b h k = rw (h, k) refl

module _ {J : Type 0} (json : JsonValue J) where
  members_read : (ms : List (String × J)) → members json (json.of_object ms) ≡ ms
  members_read ms = ap members_found (json.object_read ms)

  -- A record is read back from what it is written as.
  pub record_from_json-to_json :
      (r : ServeRecord) → r.port < 2 ^ 16 → record_from_json json (record_to_json json r) ≡ r
  unfolding record_from_json record_to_json
  record_from_json-to_json r small =
      let port : r.port % 2 ^ 16 ≡ r.port = omega (arith, small) in
      rw
        (
          json.object_read _,
          json.text_read r.directory,
          json.text_read r.bind,
          json.count_read r.port,
          json.count_read r.pid,
          json.text_read r.started,
          port,
        )
        refl

  module _ (running : ℕ → Bool) (start_token : ℕ → String) where
    abbrev listed : List J → List ServeRecord
    listed items = records_from json running start_token (live_items json running start_token items)

    live_items-IsListed :
        (q : ServeRecord) (j : J) (js : List J)
        → IsListed q (listed js)
        → IsListed q (listed (j ∷ js))
    unfolding live_items records_from
    live_items-IsListed q j js m =
        let live = still_running json running start_token (record_from_json json j) in
        let P : List J → Type 0 =
          λ items. IsListed q (records_from json running start_token items) in
        elim (Bool-cases live) [
          | inl h ↦ subst P (sym (if_true live _ _ h)) (inr m)
          | inr h ↦ subst P (sym (if_false live _ _ h)) m
        ]

    newest-IsListed :
        (r : ServeRecord) (file : List J)
        → r.port < 2 ^ 16
        → still_running json running start_token r ≡ true
        → IsListed r (listed (file ++ record_to_json json r ∷ []))
    unfolding live_items records_from
    newest-IsListed r (j ∷ js) small live =
        live_items-IsListed r j (js ++ record_to_json json r ∷ []) (newest-IsListed r js small live)
    newest-IsListed r [] small live =
        let back = record_from_json-to_json r small in
        let there = ap (still_running json running start_token) back ∙ live in
        let P : List J → Type 0 =
          λ items. IsListed r (records_from json running start_token items) in
        subst P
          (sym (
            if_true
              (still_running json running start_token
                (record_from_json json (record_to_json json r)))
              _ _ there))
          (inl (sym back))

    -- A live item is kept by the registration of another process.
    other-IsListed :
        (q r : ServeRecord) (new : J) (file : List J)
        → (q.pid == r.pid) ≡ false
        → IsListed q (listed file)
        → IsListed q (listed (kept_items json running start_token r file ++ new ∷ []))
    unfolding live_items records_from kept_items still_running
    other-IsListed q r new [] other m = absurd m
    other-IsListed q r new (j ∷ js) other m =
        let own = record_from_json json j in
        let live = still_running json running start_token own in
        let stays = not (own.pid == r.pid) && running own.pid in
        let rest = kept_items json running start_token r js in
        let P : List J → Type 0 = λ items. IsListed q (listed (items ++ new ∷ [])) in
        let later : IsListed q (listed js) → P (if stays then j ∷ rest else rest) = λ n.
          by_test P stays
            (λ e. live_items-IsListed q j (rest ++ new ∷ []) (other-IsListed q r new js other n))
            (λ e. other-IsListed q r new js other n) in
        elim (Bool-cases live) [
          | inr h ↦ later (
              subst (λ items. IsListed q (records_from json running start_token items))
                (if_false live (j ∷ live_items json running start_token js) _ h) m)
          | inl h ↦
              let seen : (q ≡ own) ⊎ IsListed q (listed js) =
                subst (λ items. IsListed q (records_from json running start_token items))
                  (if_true live (j ∷ live_items json running start_token js) _ h) m in
              elim seen [
                | inr n ↦ later n
                | inl e ↦
                    let apart : (own.pid == r.pid) ≡ false =
                      subst (λ (o : ServeRecord). (o.pid == r.pid) ≡ false) e other in
                    let runs : running own.pid ≡ true = left_of (running own.pid) _ h in
                    subst P
                      (sym (
                        if_true stays (j ∷ rest) rest
                          (both (own.pid == r.pid) (running own.pid) apart runs)))
                      (subst (λ items. IsListed q (records_from json running start_token items))
                        (sym (
                          if_true live (j ∷ live_items json running start_token (rest ++ new ∷ []))
                            _ h))
                        (inl e))
              ]
        ]
      where
        by_test :
            (P : List J → Type 0) (c : Bool) {x y : List J}
            → (c ≡ true → P x)
            → (c ≡ false → P y)
            → P (if c then x else y)
        by_test P true hx hy = hx refl
        by_test P false hx hy = hy refl

    -- A server that registers itself is listed, if it is running and its port is one, and every other
    -- server that was listed stays listed.
    pub register-IsListed :
        (r : ServeRecord) (file : List J)
        → r.port < 2 ^ 16
        → still_running json running start_token r ≡ true
        → IsListed r
            (live_serve_records json running start_token
              (register_serve_record json running start_token r file)).0
          × ((q : ServeRecord)
              → (q.pid == r.pid) ≡ false
              → IsListed q (live_serve_records json running start_token file).0
              → IsListed q
                  (live_serve_records json running start_token
                    (register_serve_record json running start_token r file)).0)
    unfolding live_serve_records register_serve_record
    register-IsListed r file small live = (
      sort_by_port-IsListed r _
          (newest-IsListed r (kept_items json running start_token r file) small live),
      λ q other m. sort_by_port-IsListed q _ (
          other-IsListed q r (record_to_json json r) file other
            (sorted_IsListed q (listed file) m)),
    )
