-- ===== src/Session/Request.antt =====
-- The request that a conversation becomes (src/session/request.cpp): which pages are superseded, and
-- the messages. Rewriting a receipt parses JSON, so `SupersededReceipt` is an argument.
use Prim.Native.String.{◌++◌ as text_append}
use pu_cli.Base.{
  ℕ, suc, ◌+◌, String, Option, none, some, List, [], ◌∷◌, ◌++◌, ltb, if◌then◌else◌, str_eq, length,
}
use pu_cli.Session.Graph.{MessageGraph, chain}
use pu_cli.Session.Message.{
  Origin, Reasoning, ToolCallRecord, MessagePayload, user, assistant, system, tool, MessageNode,
}

-- `Newer`: the newest run of a source that was read behind a point.
pub record Newer : Type 0 where
  pub rank : ℕ
  pub buffer : String

abbrev pub no_newer : Newer
no_newer = record { rank = 0; buffer = "" }

-- `newer_behind`: what a source has, and `newer_behind[source]` made new.
unfoldable pub newer_of : String → List (String × Newer) → Newer
newer_of source [] = no_newer
newer_of source ((s, n) ∷ m) = if str_eq s source then n else newer_of source m

abbrev pub put_newer : String → Newer → List (String × Newer) → List (String × Newer)
put_newer source n m = (source, n) ∷ m

-- One round of the walk backwards: what supersedes a page, and what is kept of the newest run. A
-- source that the map does not have is one whose newest rank is 0, which no rank is below.
abbrev pub superseding : Origin → Newer → Option String
superseding page seen = if ltb page.rank seen.rank then some seen.buffer else none

abbrev pub newest : Origin → Newer → Newer
newest page seen =
    if ltb seen.rank page.rank then record { rank = page.rank; buffer = page.buffer } else seen

-- The walk, over the origins of a chain: for each place what supersedes the page that stands there.
unfoldable pub superseded_from : List (Option Origin) → List (Option String) × List (String × Newer)
superseded_from [] = ([], [])
superseded_from (none ∷ os) = let rest = superseded_from os in (none ∷ rest.0, rest.1)
superseded_from (some page ∷ os) =
    let rest = superseded_from os in
    let seen = newer_of page.source rest.1 in
    (superseding page seen ∷ rest.0, put_newer page.source (newest page seen) rest.1)

-- `SupersededPages`
unfoldable pub superseded_pages : List (Option Origin) → List (Option String)
unfolding superseded_from
superseded_pages os = (superseded_from os).0

pub record ChatMessage (J : Type 0) : Type 0 where
  pub position : ℕ
  pub timestamp : String
  pub role : String
  pub content : String
  pub from_peer : String
  pub reasoning : List (Reasoning J)
  pub tool_calls : List (ToolCallRecord J)
  pub tool_name : String
  pub tool_call_id : String

pub record RequestInputs : Type 0 where
  pub system_prompt : String
  pub environment : String

unfoldable pub system_text : RequestInputs → String
system_text inputs =
    if str_eq inputs.environment ""
    then inputs.system_prompt
    else text_append
        (if str_eq inputs.system_prompt ""
          then inputs.system_prompt
          else text_append inputs.system_prompt "\n\n")
        inputs.environment

abbrev pub origin_of : {J : Type 0} → MessagePayload J → Option Origin
origin_of (tool t) = t.origin
origin_of _ = none

module _ {J : Type 0} where
  abbrev pub blank : ℕ → String → String → String → ChatMessage J
  blank position timestamp role content = record {
    position = position;
    timestamp = timestamp;
    role = role;
    content = content;
    from_peer = "";
    reasoning = [];
    tool_calls = [];
    tool_name = "";
    tool_call_id = "";
  }

  abbrev pub render_payload : MessagePayload J → String → ℕ → ChatMessage J
  render_payload (user u) at position = record (blank position at "user" u.content) {
    from_peer = u.from_peer;
  }
  render_payload (assistant a) at position = record (blank position at "assistant" a.content) {
    reasoning = a.reasoning;
    tool_calls = a.tool_calls;
  }
  render_payload (system s) at position = blank position at "system" s.content
  render_payload (tool t) at position = record (blank position at "tool" t.content) {
    tool_name = t.tool_name;
    tool_call_id = t.tool_call_id;
  }

  -- `RenderMessage`
  unfoldable pub render_message : MessageNode J → ℕ → ChatMessage J
  render_message n position = render_payload n.payload n.timestamp position

  abbrev pub origins : List (MessageNode J) → List (Option Origin)
  origins [] = []
  origins (n ∷ ns) = origin_of n.payload ∷ origins ns

  abbrev pub system_message : String → List (ChatMessage J)
  system_message text = if str_eq text "" then [] else blank 0 "" "system" text ∷ []

  module _ (superseded_receipt : String → String → String) where
    abbrev pub replaced : Option String → ChatMessage J → ChatMessage J
    replaced none m = m
    replaced (some by) m = record m { content = superseded_receipt m.content by }

    -- The loop over the chain.
    unfoldable pub render_chain :
        ℕ → List (MessageNode J) → List (Option String) → List (ChatMessage J)
    render_chain position [] ss = []
    render_chain position (n ∷ ns) [] = []
    render_chain position (n ∷ ns) (s ∷ ss) =
        replaced s (render_message n position) ∷ render_chain (suc position) ns ss

    -- `BuildRequestPath`
    unfoldable pub build_request_path : MessageGraph J → RequestInputs → List (ChatMessage J)
    unfolding render_chain
    build_request_path g inputs =
        let head = system_message (system_text inputs) in
        head ++ render_chain (length head + 1) (chain g) (superseded_pages (origins (chain g)))
