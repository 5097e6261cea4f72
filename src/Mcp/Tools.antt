-- ===== src/Mcp/Tools.antt =====
-- The tools that a client knows of its server (src/mcp/client.cpp).
use pu_cli.Base.{
  String, true, Option, none, some, List, [], ◌∷◌, ◌≡◌, inl, inr, refl, sym, ap, ◌∙◌, subst, arith,
  is_empty, if◌then◌else◌, Bool-cases, if_true, if_false,
}
use pu_cli.Session.Json.{JsonValue}
use pu_cli.Mcp.Client.{
  McpClient, ToolDefinition, Exchange, replied, thrown, Listing, gives, throws, listed, listing_of,
  found_in, found_under, ask_tools, list_tools,
}

abbrev given : {J : Type 0} → Listing J → List (ToolDefinition J)
given (gives ds) = ds
given (throws why) = []

module _ {J : Type 0} where
  throws_not_gives : (why : String) (ds : List (ToolDefinition J)) → throws why ≡ gives ds → ⊥
  throws_not_gives why ds e = ground arith

  -- What an answer that gave tools leaves: the client is as connected as it was, and knows them.
  abbrev IsRemembered : McpClient J → List (ToolDefinition J) → Listing J × McpClient J → Type 0
  IsRemembered c ds p = p.0 ≡ gives ds → (p.1.connected ≡ c.connected) × (p.1.cached_tools ≡ ds)

module _ {J : Type 0} (json : JsonValue J) (serialize : J → String) (not_array : String) where
  listed-IsRemembered :
      (c : McpClient J) (o : Option (List J)) (ds : List (ToolDefinition J))
      → IsRemembered c ds (listed json serialize not_array c o)
  listed-IsRemembered c none ds e = absurd (throws_not_gives not_array ds e)
  listed-IsRemembered c (some js) ds e = (refl, ap given e)

  listing_of-IsRemembered :
      (c : McpClient J) (o : Option J) (ds : List (ToolDefinition J))
      → IsRemembered c ds (listing_of json serialize not_array c o)
  listing_of-IsRemembered c none ds e = absurd (throws_not_gives _ ds e)
  listing_of-IsRemembered c (some tools) ds e = listed-IsRemembered c (json.as_array tools) ds e

  ask_tools-IsRemembered :
      (c : McpClient J) (a : Exchange J) (ds : List (ToolDefinition J))
      → IsRemembered c ds (ask_tools json serialize not_array c a)
  ask_tools-IsRemembered c (replied j) ds e =
      listing_of-IsRemembered c
        (found_under json serialize not_array "tools"
          (found_in json serialize not_array "result" j))
        ds e
  ask_tools-IsRemembered c (thrown why) ds e = absurd (throws_not_gives why ds e)

  list_tools-IsRemembered :
      (c : McpClient J) (a : Exchange J) (ds : List (ToolDefinition J))
      → c.connected ≡ true
      → IsRemembered c ds (list_tools json serialize not_array a c)
  unfolding list_tools
  list_tools-IsRemembered c a ds on =
      let asked = ask_tools json serialize not_array c a in
      let kept : Listing J × McpClient J = (gives c.cached_tools, c) in
      let inner = if is_empty c.cached_tools then asked else kept in
      subst (IsRemembered c ds) (sym (if_true c.connected inner (gives [], c) on))
        (elim (Bool-cases (is_empty c.cached_tools)) [
          | inl e ↦
              subst (IsRemembered c ds) (sym (if_true (is_empty c.cached_tools) asked kept e))
                (ask_tools-IsRemembered c a ds)
          | inr e ↦
              subst (IsRemembered c ds) (sym (if_false (is_empty c.cached_tools) asked kept e))
                (λ same. (refl, ap given same))
        ])

  -- Once a connected client has been given tools, at least one, it gives the same from then on, and
  -- whatever the server would answer to another request makes no difference.
  pub list_tools-again :
      (c : McpClient J) (a b : Exchange J) (d : ToolDefinition J) (ds : List (ToolDefinition J))
      → c.connected ≡ true
      → (list_tools json serialize not_array a c).0 ≡ gives (d ∷ ds)
      → list_tools json serialize not_array b (list_tools json serialize not_array a c).1
        ≡ (gives (d ∷ ds), (list_tools json serialize not_array a c).1)
  unfolding list_tools
  list_tools-again c a b d ds on e =
      let next = (list_tools json serialize not_array a c).1 in
      let (still, known) = list_tools-IsRemembered c a (d ∷ ds) on e in
      let asked = ask_tools json serialize not_array next b in
      let kept : Listing J × McpClient J = (gives next.cached_tools, next) in
      if_true next.connected (if is_empty next.cached_tools then asked else kept) (gives [], next)
        (still ∙ on)
      ∙ if_false (is_empty next.cached_tools) asked kept (ap is_empty known)
      ∙ ap (λ l. (gives l, next)) known
