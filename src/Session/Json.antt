-- ===== src/Session/Json.antt =====
-- What the sessions use of the JSON library: how a value is built and what is read off it, with the
-- library's documented behaviour as laws; and the helpers of include/pu/core/json.hpp over it.
use pu_cli.Base.{
  ℕ, String, Bool, true, Option, none, some, List, [], ◌∷◌, ◌≡◌, if◌then◌else◌, str_eq,
}

-- An object is the list of its members. `as_count` is a number that is not negative.
pub record JsonValue (J : Type 0) : Type 0 where
  pub null : J
  pub of_text : String → J
  pub of_count : ℕ → J
  pub of_array : List J → J
  pub of_object : List (String × J) → J
  pub is_null : J → Bool
  pub as_text : J → Option String
  pub as_count : J → Option ℕ
  pub as_array : J → Option (List J)
  pub as_object : J → Option (List (String × J))
  pub null_only : (j : J) → is_null j ≡ true → j ≡ null
  pub text_read : (s : String) → as_text (of_text s) ≡ some s
  pub count_read : (n : ℕ) → as_count (of_count n) ≡ some n
  pub array_read : (js : List J) → as_array (of_array js) ≡ some js
  pub object_read : (ms : List (String × J)) → as_object (of_object ms) ≡ some ms
  pub object_no_text : (ms : List (String × J)) → as_text (of_object ms) ≡ none

-- `find` of an object.
abbrev pub member : {J : Type 0} → String → List (String × J) → Option J
member key [] = none
member key (m ∷ ms) = if str_eq m.0 key then some m.1 else member key ms

abbrev pub text_found : String → Option String → String
text_found fallback none = fallback
text_found fallback (some s) = s

abbrev pub members_found : {J : Type 0} → Option (List (String × J)) → List (String × J)
members_found none = []
members_found (some ms) = ms

module _ {J : Type 0} (json : JsonValue J) where
  -- `ValueOrDefault<std::string>`
  abbrev pub text_or : String → Option J → String
  text_or fallback none = fallback
  text_or fallback (some j) = text_found fallback (json.as_text j)

  -- `ValueOrDefault<boost::json::value>`
  abbrev pub value_or_else : J → Option J → J
  value_or_else fallback none = fallback
  value_or_else fallback (some j) = j

  -- The members of a value, none of them where it is no object.
  abbrev pub members : J → List (String × J)
  members j = members_found (json.as_object j)
