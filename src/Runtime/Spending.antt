-- ===== src/Runtime/Spending.antt =====
-- What the rounds of a turn cost together: the sum in `CallProvider` of src/runtime/executor.cpp.
use pu_cli.Base.{◌+◌, Option, none, some, List, [], ◌∷◌, ◌++◌, ◌≡◌, refl, if◌then◌else◌, str_eq}
use pu_cli.Session.Usage.{Cost}
use pu_cli.Runtime.Data.{TokenUsage}

module _ {Amount : Type 0} where
  abbrev pub no_usage : TokenUsage Amount
  no_usage = record {
    prompt_tokens = 0;
    completion_tokens = 0;
    total_tokens = 0;
    cached_tokens = 0;
    cost = none;
  }

  -- `if (!result.usage) result.usage = TokenUsage{};`
  abbrev pub usage_or_zero : Option (TokenUsage Amount) → TokenUsage Amount
  usage_or_zero none = no_usage
  usage_or_zero (some u) = u

module _ {Amount : Type 0} (plus : Amount → Amount → Amount) where
  -- The price so far, and that of a round.
  unfoldable pub add_cost : Option (Cost Amount) → Option (Cost Amount) → Option (Cost Amount)
  add_cost sum none = none
  add_cost none (some c) = some c
  add_cost (some s) (some c) =
      if str_eq s.unit c.unit then some (record s { amount = plus s.amount c.amount }) else some s

  unfoldable pub add_usage : TokenUsage Amount → TokenUsage Amount → TokenUsage Amount
  unfolding add_cost
  add_usage sum u = record {
    prompt_tokens = sum.prompt_tokens + u.prompt_tokens;
    completion_tokens = sum.completion_tokens + u.completion_tokens;
    total_tokens = sum.total_tokens + u.total_tokens;
    cached_tokens = sum.cached_tokens + u.cached_tokens;
    cost = add_cost sum.cost u.cost;
  }

  -- What a turn has spent after a round, where the round reports a usage.
  abbrev pub spend :
      Option (TokenUsage Amount) → Option (TokenUsage Amount) → Option (TokenUsage Amount)
  spend none sum = sum
  spend (some u) sum = some (add_usage (usage_or_zero sum) u)

  -- The usage of a turn whose rounds report these.
  unfoldable pub spend_all :
      List (TokenUsage Amount) → Option (TokenUsage Amount) → Option (TokenUsage Amount)
  unfolding add_usage
  spend_all [] sum = sum
  spend_all (u ∷ us) sum = spend_all us (spend (some u) sum)

  spend_all-append :
      (us vs : List (TokenUsage Amount)) (sum : Option (TokenUsage Amount))
      → spend_all (us ++ vs) sum ≡ spend_all vs (spend_all us sum)
  unfolding spend_all
  spend_all-append [] vs sum = refl
  spend_all-append (u ∷ us) vs sum = spend_all-append us vs (spend (some u) sum)

  -- A round without a price takes the price of the rounds before it away, and the next round with a
  -- price is then the whole price of the turn, whatever the rounds before cost.
  pub spend_all_forgets :
      (us : List (TokenUsage Amount)) (u v : TokenUsage Amount) (c : Cost Amount)
      (sum : Option (TokenUsage Amount))
      → u.cost ≡ none
      → v.cost ≡ some c
      → (usage_or_zero (spend_all (us ++ u ∷ v ∷ []) sum)).cost ≡ some c
  unfolding spend_all add_usage add_cost
  spend_all_forgets us u v c sum n p = rw (spend_all-append us (u ∷ v ∷ []) sum, n, p)
