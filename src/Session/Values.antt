-- ===== src/Session/Values.antt =====
-- A type of JSON values that behaves as the library's does.
use pu_cli.Base.{
  ℕ, String, Bool, true, false, Option, none, some, List, [], ◌∷◌, ◌≡◌, refl, ap, arith,
}
use pu_cli.Session.Json.{JsonValue}

mutual
  pub data Json : Type 0 where
    nothing : Json
    text : String → Json
    count : ℕ → Json
    items : Items → Json
    object : Members → Json

  pub data Items : Type 0 where
    no_items : Items
    item : Json → Items → Items

  pub data Members : Type 0 where
    no_members : Members
    entry : String → Json → Members → Members

abbrev pub items_from : List Json → Items
items_from [] = no_items
items_from (j ∷ js) = item j (items_from js)

abbrev pub list_of : Items → List Json
list_of no_items = []
list_of (item j js) = j ∷ list_of js

abbrev pub members_from : List (String × Json) → Members
members_from [] = no_members
members_from (m ∷ ms) = entry m.0 m.1 (members_from ms)

abbrev pub entries_of : Members → List (String × Json)
entries_of no_members = []
entries_of (entry k j ms) = (k, j) ∷ entries_of ms

pub list_of-items_from : (js : List Json) → list_of (items_from js) ≡ js
list_of-items_from [] = refl
list_of-items_from (j ∷ js) = ap (λ t. j ∷ t) (list_of-items_from js)

pub entries_of-members_from : (ms : List (String × Json)) → entries_of (members_from ms) ≡ ms
entries_of-members_from [] = refl
entries_of-members_from (m ∷ ms) = ap (λ t. m ∷ t) (entries_of-members_from ms)

abbrev pub is_nothing : Json → Bool
is_nothing nothing = true
is_nothing _ = false

abbrev pub as_text : Json → Option String
as_text (text s) = some s
as_text _ = none

abbrev pub as_count : Json → Option ℕ
as_count (count n) = some n
as_count _ = none

abbrev pub as_array : Json → Option (List Json)
as_array (items js) = some (list_of js)
as_array _ = none

abbrev pub as_object : Json → Option (List (String × Json))
as_object (object ms) = some (entries_of ms)
as_object _ = none

pub is_nothing-eq : (j : Json) → is_nothing j ≡ true → j ≡ nothing
is_nothing-eq nothing e = refl
is_nothing-eq (text s) e = absurd (ground arith)
is_nothing-eq (count n) e = absurd (ground arith)
is_nothing-eq (items js) e = absurd (ground arith)
is_nothing-eq (object ms) e = absurd (ground arith)

abbrev pub json : JsonValue Json
json = record {
  null = nothing;
  of_text = text;
  of_count = count;
  of_array = λ js. items (items_from js);
  of_object = λ ms. object (members_from ms);
  is_null = is_nothing;
  as_text = as_text;
  as_count = as_count;
  as_array = as_array;
  as_object = as_object;
  null_only = is_nothing-eq;
  text_read = λ s. refl;
  count_read = λ n. refl;
  array_read = λ js. ap some (list_of-items_from js);
  object_read = λ ms. ap some (entries_of-members_from ms);
  object_no_text = λ ms. refl;
}
