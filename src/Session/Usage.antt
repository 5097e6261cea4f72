-- ===== src/Session/Usage.antt =====
-- What turns cost (src/session/usage.cpp, include/pu/session/usage.hpp). A price is a `double`, taken
-- as a type `Amount` with its addition. Counts are natural numbers that do not leave `int`.
use pu_cli.Base.{
  ℕ, ◌+◌, String, Bool, true, false, Option, none, some, List, [], ◌∷◌, if◌then◌else◌, str_eq,
}

pub record Cost (Amount : Type 0) : Type 0 where
  pub amount : Amount
  pub unit : String

pub record TurnUsage (Amount : Type 0) : Type 0 where
  pub node_id : String
  pub rounds : ℕ
  pub prompt_tokens : ℕ
  pub completion_tokens : ℕ
  pub cached_tokens : ℕ
  pub cost : Option (Cost Amount)
  pub model : String
  pub gateway : String

pub record SessionUsageTotal (Amount : Type 0) : Type 0 where
  pub turns : ℕ
  pub rounds : ℕ
  pub prompt_tokens : ℕ
  pub completion_tokens : ℕ
  pub cached_tokens : ℕ
  pub cost : Option (Cost Amount)
  pub priced_turns : ℕ

unfoldable pub is_live : String → List String → Bool
is_live id [] = false
is_live id (l ∷ ls) = if str_eq l id then true else is_live id ls

module _ {Amount : Type 0} where
  -- The entries of a ledger, one for each node id; `entries_[id] = usage`.
  unfoldable pub put_usage : TurnUsage Amount → List (TurnUsage Amount) → List (TurnUsage Amount)
  put_usage u [] = u ∷ []
  put_usage u (e ∷ es) = if str_eq e.node_id u.node_id then u ∷ es else e ∷ put_usage u es

  -- `Record`
  unfoldable pub record_usage : TurnUsage Amount → List (TurnUsage Amount) → List (TurnUsage Amount)
  unfolding put_usage
  record_usage u es = if str_eq u.node_id "" then es else put_usage u es

  -- `For`
  unfoldable pub usage_for : String → List (TurnUsage Amount) → Option (TurnUsage Amount)
  usage_for id [] = none
  usage_for id (e ∷ es) = if str_eq e.node_id id then some e else usage_for id es

  -- `KeepOnly`
  unfoldable pub keep_only : List String → List (TurnUsage Amount) → List (TurnUsage Amount)
  keep_only live [] = []
  keep_only live (e ∷ es) =
      if is_live e.node_id live then e ∷ keep_only live es else keep_only live es

  abbrev pub no_total : SessionUsageTotal Amount
  no_total = record {
    turns = 0;
    rounds = 0;
    prompt_tokens = 0;
    completion_tokens = 0;
    cached_tokens = 0;
    cost = none;
    priced_turns = 0;
  }

  abbrev pub add_counts : TurnUsage Amount → SessionUsageTotal Amount → SessionUsageTotal Amount
  add_counts u t = record t {
    turns = t.turns + 1;
    rounds = t.rounds + u.rounds;
    prompt_tokens = t.prompt_tokens + u.prompt_tokens;
    completion_tokens = t.completion_tokens + u.completion_tokens;
    cached_tokens = t.cached_tokens + u.cached_tokens;
  }

-- The variables of the loop of `Total`.
pub record Tally (Amount : Type 0) : Type 0 where
  pub total : SessionUsageTotal Amount
  pub any_cost_seen : Bool
  pub any_cost_missing : Bool

module _ {Amount : Type 0} where
  abbrev pub count_priced : Tally Amount → Tally Amount
  count_priced t = record t { total = record t.total { priced_turns = t.total.priced_turns + 1 } }

  abbrev pub finish_total : Option (Tally Amount) → Option (SessionUsageTotal Amount)
  finish_total none = none
  finish_total (some t) =
      some (if t.any_cost_missing then record t.total { cost = none } else t.total)

  abbrev pub no_tally : Tally Amount
  no_tally = record { total = no_total; any_cost_seen = false; any_cost_missing = false }

module _ {Amount : Type 0} (plus : Amount → Amount → Amount) where
  -- The price of a later turn. `total.cost->unit` where `total.cost` is empty is undefined: none.
  abbrev pub add_price : Cost Amount → Option (Cost Amount) → Tally Amount → Option (Tally Amount)
  add_price c none t = none
  add_price c (some sum) t =
      if str_eq sum.unit c.unit
      then some (record t {
        total = record t.total { cost = some (record sum { amount = plus sum.amount c.amount }) };
      })
      else some (record t { total = record t.total { cost = none }; any_cost_missing = true })

  unfoldable pub price_turn : Option (Cost Amount) → Tally Amount → Option (Tally Amount)
  price_turn none t = some (record t { any_cost_missing = true })
  price_turn (some c) t =
      if t.any_cost_seen
      then add_price c t.total.cost (count_priced t)
      else some (record t {
        total = record t.total { cost = some c; priced_turns = t.total.priced_turns + 1 };
        any_cost_seen = true;
      })

  -- One round of the loop.
  unfoldable pub tally_turn : TurnUsage Amount → Tally Amount → Option (Tally Amount)
  unfolding price_turn
  tally_turn u t = price_turn u.cost (record t { total = add_counts u t.total })

  unfoldable pub tally : List (TurnUsage Amount) → Tally Amount → Option (Tally Amount)
  tally [] t = some t
  tally (u ∷ us) t = elim (tally_turn u t) [ none ↦ none | some t' ↦ tally us t' ]

  -- `Total`; none where an empty optional is read.
  unfoldable pub total : List (TurnUsage Amount) → Option (SessionUsageTotal Amount)
  unfolding tally
  total es = finish_total (tally es no_tally)
