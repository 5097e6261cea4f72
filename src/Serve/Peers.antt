-- ===== src/Serve/Peers.antt =====
-- The servers that a server speaks with (src/config/peer.cpp, include/pu/config/peer.hpp). Names are
-- texts; a token is its bytes, since it is compared byte by byte.
use Prim.Native.Nat.{max, bit_or, bit_xor}
use pu_cli.Base.{
  ℕ, zero, suc, ◌%◌, String, Bool, true, false, not, ◌&&◌, ◌||◌, Option, none, some, List, [], ◌∷◌,
  Bytes, length, get_elem?, is_empty, ◌==◌, if◌then◌else◌, str_eq,
}
use pu_cli.Session.Json.{JsonValue, member, text_or, members}

pub record PeerEntry : Type 0 where
  pub name : String
  pub url : String

pub record PeerConfig : Type 0 where
  pub self_name : String
  pub token : Bytes
  pub peers : List PeerEntry

unfoldable pub find_entry : String → List PeerEntry → Option PeerEntry
find_entry name [] = none
find_entry name (e ∷ es) = if str_eq e.name name then some e else find_entry name es

-- `FindPeer`
abbrev pub find_peer : String → PeerConfig → Option PeerEntry
find_peer name c = find_entry name c.peers

abbrev pub is_found : {A : Type 0} → Option A → Bool
is_found none = false
is_found (some a) = true

-- `Knows`
unfoldable pub knows : String → PeerConfig → Bool
unfolding find_entry
knows name c = is_found (find_peer name c)

abbrev pub byte_or_zero : Option ℕ → ℕ
byte_or_zero none = 0
byte_or_zero (some c) = c

-- What the loop of `ConstantTimeEquals` has gathered after `n` more bytes, from the byte `i` on.
unfoldable pub gather : ℕ → ℕ → Bytes → Bytes → ℕ → ℕ
gather zero i a b difference = difference
gather (suc n) i a b difference =
    let left = byte_or_zero (get_elem? a i) in
    let right = byte_or_zero (get_elem? b i) in
    gather n (suc i) a b (bit_or difference (bit_xor left right) % 256)

-- `ConstantTimeEquals`; the difference is an `unsigned char`.
unfoldable pub constant_time_equals : Bytes → Bytes → Bool
unfolding gather
constant_time_equals a b =
    gather (max (length a) (length b)) 0 a b (bit_xor (length a) (length b) % 256) == 0

-- `Accepts`
unfoldable pub accepts : Bytes → PeerConfig → Bool
unfolding constant_time_equals
accepts presented c = not (is_empty c.token) && constant_time_equals c.token presented

-- `PeerTokenFromEnv`, of what the variable holds.
abbrev pub token_from_env : Option Bytes → Option Bytes
token_from_env none = none
token_from_env (some []) = none
token_from_env (some (c ∷ cs)) = some (c ∷ cs)

abbrev pub token_or : Bytes → Option Bytes → Bytes
token_or written none = written
token_or written (some from_env) = from_env

-- `bytes_of` gives the bytes of a text that the JSON library read.
module _ {J : Type 0} (json : JsonValue J) (bytes_of : String → Bytes) where
  -- A member that is a text, or the empty text.
  abbrev pub text_member : String → J → String
  text_member key j = text_or json "" (member key (members json j))

  abbrev pub add_entry : String → String → List PeerEntry → List PeerEntry
  add_entry name url rest =
      if str_eq name "" || str_eq url "" then rest else record { name = name; url = url } ∷ rest

  -- The loop of `ParsePeers`; an item that is no object has no members, so it is skipped.
  unfoldable pub parse_entries : List J → List PeerEntry
  parse_entries [] = []
  parse_entries (j ∷ js) = add_entry (text_member "name" j) (text_member "url" j) (parse_entries js)

  abbrev pub array_or_empty : Option (List J) → List J
  array_or_empty none = []
  array_or_empty (some js) = js

  abbrev pub array_found : Option J → List J
  array_found none = []
  array_found (some j) = array_or_empty (json.as_array j)

  -- `ParsePeers`
  unfoldable pub parse_peers : J → List PeerEntry
  unfolding parse_entries
  parse_peers j = parse_entries (array_found (member "peers" (members json j)))

  abbrev pub self_found : Option J → String
  self_found none = ""
  self_found (some j) = text_member "name" j

  -- `LoadPeerConfig`, from the value that was parsed on.
  unfoldable pub peer_config_from : Option Bytes → J → PeerConfig
  unfolding parse_peers
  peer_config_from env j = record {
    self_name = self_found (member "self" (members json j));
    token = token_or (bytes_of (text_member "token" j)) (token_from_env env);
    peers = parse_peers j;
  }
