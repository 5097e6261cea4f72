-- ===== src/Serve/Registry.antt =====
-- The list of the servers on this machine (src/config/serve_registry.cpp). The file is the array of its
-- items; a call that holds the lock of the file is one step. `running` says whether a process runs and
-- `start_token` when it started. Ports and process ids in the file are not negative.
use pu_cli.Base.{
  ℕ, ◌%◌, ◌^◌, String, Bool, not, ◌&&◌, ◌||◌, Option, none, some, List, [], ◌∷◌, ◌++◌, ltb, ◌==◌,
  if◌then◌else◌, str_eq,
}
use pu_cli.Session.Json.{JsonValue, member, members, text_or}

pub record ServeRecord : Type 0 where
  pub directory : String
  pub bind : String
  pub port : ℕ
  pub pid : ℕ
  pub started : String

-- A list of records in the order of `stable_sort`, the highest port first.
unfoldable pub insert_by_port : ServeRecord → List ServeRecord → List ServeRecord
insert_by_port r [] = r ∷ []
insert_by_port r (q ∷ qs) = if ltb r.port q.port then q ∷ insert_by_port r qs else r ∷ q ∷ qs

unfoldable pub sort_by_port : List ServeRecord → List ServeRecord
unfolding insert_by_port
sort_by_port [] = []
sort_by_port (r ∷ rs) = insert_by_port r (sort_by_port rs)

-- `OthersAmong`
unfoldable pub others_among : List ServeRecord → ℕ → List ServeRecord
others_among [] pid = []
others_among (r ∷ rs) pid = if r.pid == pid then others_among rs pid else r ∷ others_among rs pid

module _ {J : Type 0} (json : JsonValue J) where
  abbrev pub text_at : String → J → String
  text_at key j = text_or json "" (member key (members json j))

  abbrev pub number_or_zero : Option ℕ → ℕ
  number_or_zero none = 0
  number_or_zero (some n) = n

  abbrev pub number_found : Option J → ℕ
  number_found none = 0
  number_found (some j) = number_or_zero (json.as_count j)

  abbrev pub number_at : String → J → ℕ
  number_at key j = number_found (member key (members json j))

  -- `RecordFromJson`; a port is cut to 16 bits.
  unfoldable pub record_from_json : J → ServeRecord
  record_from_json j = record {
    directory = text_at "directory" j;
    bind = text_at "bind" j;
    port = number_at "port" j % 2 ^ 16;
    pid = number_at "pid" j;
    started = text_at "started" j;
  }

  -- `RecordToJson`
  unfoldable pub record_to_json : ServeRecord → J
  record_to_json r = json.of_object (
      ("directory", json.of_text r.directory)
      ∷ ("bind", json.of_text r.bind)
      ∷ ("port", json.of_count r.port)
      ∷ ("pid", json.of_count r.pid)
      ∷ ("started", json.of_text r.started)
      ∷ [])

  module _ (running : ℕ → Bool) (start_token : ℕ → String) where
    -- `StillRunning`
    unfoldable pub still_running : ServeRecord → Bool
    still_running r =
        let now = start_token r.pid in
        running r.pid && (str_eq r.started "" || str_eq now "" || str_eq r.started now)

    -- The items that `LiveServeRecords` keeps in the file.
    unfoldable pub live_items : List J → List J
    unfolding still_running record_from_json
    live_items [] = []
    live_items (j ∷ js) =
        if still_running (record_from_json j) then j ∷ live_items js else live_items js

    unfoldable pub records_from : List J → List ServeRecord
    unfolding record_from_json
    records_from [] = []
    records_from (j ∷ js) = record_from_json j ∷ records_from js

    -- `LiveServeRecords`, with the file that it leaves.
    unfoldable pub live_serve_records : List J → List ServeRecord × List J
    unfolding live_items records_from sort_by_port
    live_serve_records file = (sort_by_port (records_from (live_items file)), live_items file)

    -- The items that `RegisterServeRecord` keeps.
    unfoldable pub kept_items : ServeRecord → List J → List J
    unfolding record_from_json
    kept_items r [] = []
    kept_items r (j ∷ js) =
        if not ((record_from_json j).pid == r.pid) && running (record_from_json j).pid
        then j ∷ kept_items r js
        else kept_items r js

    -- `RegisterServeRecord`
    unfoldable pub register_serve_record : ServeRecord → List J → List J
    unfolding kept_items record_to_json
    register_serve_record r file = kept_items r file ++ record_to_json r ∷ []

    -- `UnregisterServeRecord`
    unfoldable pub unregister_serve_record : ℕ → List J → List J
    unfolding record_from_json
    unregister_serve_record pid [] = []
    unregister_serve_record pid (j ∷ js) =
        if (record_from_json j).pid == pid
        then unregister_serve_record pid js
        else j ∷ unregister_serve_record pid js
