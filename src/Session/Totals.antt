-- ===== src/Session/Totals.antt =====
-- When `UsageLedger::Total` of src/session/usage.cpp has a price, and when it reads an empty one.
use pu_cli.Base.{
  ◌+◌, String, true, false, Option, none, some, List, [], ◌∷◌, ◌≡◌, ◌≢◌, refl, arith, All, length,
  inl, inr, Option-cases, eq_iff,
}
use pu_cli.Session.Usage.{
  Cost, TurnUsage, SessionUsageTotal, Tally, no_tally, price_turn, add_counts, tally_turn, tally,
  total,
}

module _ {Amount : Type 0} where
  abbrev pub unit_of : Option (Cost Amount) → Option String
  unit_of none = none
  unit_of (some c) = some c.unit

  -- A turn that was priced in a unit.
  abbrev IsPricedIn : String → TurnUsage Amount → Type 0
  IsPricedIn unit u = unit_of u.cost ≡ some unit

module _ {Amount : Type 0} (plus : Amount → Amount → Amount) where
  -- What one round tells, read backwards.
  price_turn-seen :
      (o : Option (Cost Amount)) (t t' : Tally Amount)
      → price_turn plus o t ≡ some t'
      → t'.any_cost_missing ≡ false
      → t'.any_cost_seen ≡ true
  unfolding price_turn
  price_turn-seen none t t' h m = ground arith
  price_turn-seen (some c) t t' h m = ground (arith, Option-cases t.total.cost)

  price_turn_sound :
      (o s : Option (Cost Amount)) (t t' : Tally Amount) (unit : String)
      → t.total.cost ≡ s
      → price_turn plus o t ≡ some t'
      → t'.any_cost_missing ≡ false
      → unit_of t'.total.cost ≡ some unit
      → (unit_of o ≡ some unit)
        × (t.any_cost_missing ≡ false)
        × (t'.total.priced_turns ≡ t.total.priced_turns + 1)
        × (t.any_cost_seen ≡ true → unit_of s ≡ some unit)
  unfolding price_turn
  price_turn_sound none s t t' unit e h m p = ground arith
  price_turn_sound (some c) none t t' unit e h m p = ground arith
  price_turn_sound (some c) (some d) t t' unit e h m p = ground (arith, eq_iff d.unit c.unit)

  tally_turn_sound :
      (u : TurnUsage Amount) (t t' : Tally Amount) (unit : String)
      → tally_turn plus u t ≡ some t'
      → t'.any_cost_missing ≡ false
      → (t'.any_cost_seen ≡ true → unit_of t'.total.cost ≡ some unit)
      → IsPricedIn unit u
        × (t.any_cost_missing ≡ false)
        × (t'.total.priced_turns ≡ t.total.priced_turns + 1)
        × (t.any_cost_seen ≡ true → unit_of t.total.cost ≡ some unit)
  unfolding tally_turn
  tally_turn_sound u t t' unit h m p =
      let counted : Tally Amount = record t { total = add_counts u t.total } in
      price_turn_sound u.cost t.total.cost counted t' unit refl h m
        (p (price_turn-seen u.cost counted t' h m))

  tally_sound :
      (us : List (TurnUsage Amount)) (t t' : Tally Amount) (unit : String)
      → tally plus us t ≡ some t'
      → t'.any_cost_missing ≡ false
      → unit_of t'.total.cost ≡ some unit
      → All (IsPricedIn unit) us
        × (t'.total.priced_turns ≡ t.total.priced_turns + length us)
        × (t.any_cost_missing ≡ false)
        × (t.any_cost_seen ≡ true → unit_of t.total.cost ≡ some unit)
  tally_sound [] t t' unit h m p = unfold tally in ground arith
  tally_sound (u ∷ us) t t' unit h m p = elim (Option-cases (tally_turn plus u t)) [
    | inl e ↦ absurd (unfold tally in ground arith)
    | inr (n, e) ↦
        let later = tally_sound us n t' unit (unfold tally in ground arith) m p in
        let now = tally_turn_sound u t n unit e later.2 later.3 in
        ((now.0, later.0), omega (arith, later.1, now.2), now.1, now.3)
  ]

  -- A total with a price is the price of every turn: each turn of the ledger was priced, in the unit of
  -- the total, and the priced turns that it counts are all of them.
  total_sound :
      (es : List (TurnUsage Amount)) (t : SessionUsageTotal Amount) (c : Cost Amount)
      → total plus es ≡ some t
      → t.cost ≡ some c
      → All (IsPricedIn c.unit) es × (t.priced_turns ≡ length es)
  unfolding total
  total_sound es t c h e = elim (Option-cases (tally plus es no_tally)) [
    | inl f ↦ absurd (ground arith)
    | inr (t', f) ↦
        let whole : (t'.any_cost_missing ≡ false)
            × (unit_of t'.total.cost ≡ some c.unit)
            × (t'.total.priced_turns ≡ t.priced_turns) =
          ground arith in
        let facts = tally_sound es no_tally t' c.unit f whole.0 whole.1 in
        (facts.0, omega (arith, facts.1, whole.2))
  ]

  -- Once prices in two units have met, the next priced turn reads the price that was thrown away.
  pub total_faults :
      (a b d : TurnUsage Amount) (p q r : Cost Amount) (rest : List (TurnUsage Amount))
      → a.cost ≡ some p
      → b.cost ≡ some q
      → d.cost ≡ some r
      → p.unit ≢ q.unit
      → total plus (a ∷ b ∷ d ∷ rest) ≡ none
  unfolding total tally tally_turn price_turn
  total_faults a b d p q r rest ea eb ed n = ground (arith, eq_iff p.unit q.unit)
