-- ===== src/Board/Views.antt =====
-- What the board shows (src/serve/board.cpp): `Render`, `RenderAudit`, `Snapshot`, `Page`, `Digest`. A
-- JSON object is a record, a key that may be left out an Option. Reading a stamp is the C library's
-- work: `parse_stamp` gives its seconds since 1970, and `now` is what `NowStamp` reads.
use pu_cli.Base.{
  ℕ, zero, suc, ◌-◌, String, Bool, true, false, not, ◌&&◌, Option, none, some, List, [], ◌∷◌, take,
  ltb, leb, if◌then◌else◌, str_eq, map, ℤ, pos, negsuc, codes,
}
use pu_cli.Board.Job.{Job, job_state_name, closed}
use pu_cli.Board.Store.{PeerPresence, AuditEntry, Board, text_lt}

abbrev pub max_settled_shown : ℕ
max_settled_shown = 3

pub record JobView : Type 0 where
  pub id : String
  pub from : String
  pub to : String
  pub intent : String
  pub state : String
  pub created_at : String
  pub updated_at : String
  pub idle_seconds : ℤ
  pub due_at : Option String
  pub overdue : Bool
  pub result : Option String
  pub question : Option String
  pub note : Option String
  pub declined_by : Option String
  pub declines : Option ℕ
  pub chases : Option ℕ
  pub closed : Bool

pub record PeerView : Type 0 where
  pub name : String
  pub last_seen : String
  pub seen_seconds : ℤ
  pub online : Bool
  pub state : String
  pub job : Option String

pub record BoardSnapshot : Type 0 where
  pub jobs : List JobView
  pub peers : List PeerView
  pub audit : List AuditEntry

pub record BoardPage : Type 0 where
  pub unfinished : List JobView
  pub settled : List JobView
  pub audit : List AuditEntry

abbrev pub unless_empty : String → Option String
unless_empty s = if str_eq s "" then none else some s

abbrev pub unless_zero : ℕ → Option ℕ
unless_zero zero = none
unless_zero (suc n) = some (suc n)

abbrev pub difference : ℕ → ℕ → ℤ
difference a b = if leb b a then pos (a - b) else negsuc (b - a - 1)

abbrev pub is_positive : ℤ → Bool
is_positive (pos n) = ltb 0 n
is_positive (negsuc n) = false

abbrev pub is_within : ℕ → ℤ → Bool
is_within n (pos k) = leb k n
is_within n (negsuc k) = true

-- `left->updated_at > right->updated_at`; jobs of one stamp stay in their order.
abbrev pub newer : Job → Job → Bool
newer j k = text_lt (codes k.updated_at) (codes j.updated_at)

unfoldable pub insert_newest : Job → List Job → List Job
insert_newest j [] = j ∷ []
insert_newest j (k ∷ ks) = if newer k j then k ∷ insert_newest j ks else j ∷ k ∷ ks

unfoldable pub sort_newest : List Job → List Job
sort_newest [] = []
sort_newest (j ∷ js) = insert_newest j (sort_newest js)

unfoldable pub open_jobs : List Job → List Job
open_jobs [] = []
open_jobs (j ∷ js) = if closed j then open_jobs js else j ∷ open_jobs js

unfoldable pub settled_jobs : List Job → List Job
settled_jobs [] = []
settled_jobs (j ∷ js) = if closed j then j ∷ settled_jobs js else settled_jobs js

module _ (parse_stamp : String → Option ℕ) (now : String) where
  -- `AgeSeconds`
  unfoldable pub age_seconds : String → ℤ
  age_seconds stamp = elim (parse_stamp stamp) [
    | none ↦ pos 0
    | some past ↦ elim (parse_stamp now) [ none ↦ pos 0 | some current ↦ difference current past ]
  ]

  abbrev pub is_past : Option String → Bool
  is_past none = false
  is_past (some due) = is_positive (age_seconds due)

  -- `Render`
  unfoldable pub render : Job → JobView
  render j = record {
    id = j.id;
    from = j.from;
    to = j.to;
    intent = j.intent;
    state = job_state_name j.state;
    created_at = j.created_at;
    updated_at = j.updated_at;
    idle_seconds = age_seconds j.updated_at;
    due_at = j.due_at;
    overdue = not (closed j) && is_past j.due_at;
    result = j.result;
    question = j.question;
    note = unless_empty j.note;
    declined_by = j.declined_by;
    declines = unless_zero j.declines;
    chases = unless_zero j.chases;
    closed = closed j;
  }

  unfoldable pub render_peer : ℕ → PeerPresence → PeerView
  render_peer offline_after p = record {
    name = p.name;
    last_seen = p.last_seen;
    seen_seconds = age_seconds p.last_seen;
    online = is_within offline_after (age_seconds p.last_seen);
    state = p.state;
    job = unless_empty p.job;
  }

  -- `Snapshot`
  unfoldable pub snapshot : ℕ → Board → BoardSnapshot
  snapshot offline_after b = record {
    jobs = map render b.jobs;
    peers = map (render_peer offline_after) b.peers;
    audit = b.audit;
  }

  -- `Page`; `open` of the object is `unfinished` here.
  unfoldable pub page : Board → BoardPage
  unfolding open_jobs settled_jobs
  page b = record {
    unfinished = map render (open_jobs b.jobs);
    settled = map render (take max_settled_shown (sort_newest (settled_jobs b.jobs)));
    audit = b.audit;
  }
