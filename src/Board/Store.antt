-- ===== src/Board/Store.antt =====
-- The board's state, and the helpers that the verbs share: `Record`, `TouchPeer`, the searches by id
-- and the ordering by `updated_at` (src/serve/board.cpp). The mutex makes each verb one step.
use pu_cli.Base.{
  ℕ, suc, ◌+◌, String, Bool, true, false, Option, none, some, List, [], ◌∷◌, ◌++◌, drop, length,
  codes, Bytes, ltb, ◌==◌, if◌then◌else◌, str_eq,
}
use pu_cli.Board.Job.{Job, closed}

pub record PeerPresence : Type 0 where
  pub name : String
  pub last_seen : String
  pub state : String
  pub job : String

pub record AuditEntry : Type 0 where
  pub at : String
  pub kind : String
  pub peer : String
  pub job : String
  pub text : String

pub record Board : Type 0 where
  pub jobs : List Job
  pub peers : List PeerPresence
  pub audit : List AuditEntry

abbrev pub max_open : ℕ
max_open = 32

abbrev pub max_audit : ℕ
max_audit = 64

abbrev pub max_closed_kept : ℕ
max_closed_kept = 128

-- `while (audit_.size() > kMaxAudit) audit_.pop_front();`
unfoldable pub trim_audit : List AuditEntry → List AuditEntry
trim_audit [] = []
trim_audit (e ∷ es) =
    let rest = trim_audit es in if ltb max_audit (length (e ∷ es)) then rest else e ∷ es

unfoldable pub record_event : AuditEntry → Board → Board
record_event e b = record b { audit = trim_audit (b.audit ++ e ∷ []) }

unfoldable pub find_job : String → List Job → Option Job
find_job id [] = none
find_job id (j ∷ js) = if str_eq j.id id then some j else find_job id js

-- A write through the iterator that `find_if` returned.
unfoldable pub put_job : String → Job → List Job → List Job
put_job id k [] = []
put_job id k (j ∷ js) = if str_eq j.id id then k ∷ js else j ∷ put_job id k js

-- `count_if` over the jobs that are not closed.
unfoldable pub count_open : List Job → ℕ
count_open [] = 0
count_open (j ∷ js) = if closed j then count_open js else suc (count_open js)

-- `std::string::operator<`, which compares bytes; for UTF-8 that is the order of code points.
unfoldable pub text_lt : Bytes → Bytes → Bool
text_lt [] [] = false
text_lt [] (d ∷ t) = true
text_lt (c ∷ s) [] = false
text_lt (c ∷ s) (d ∷ t) = if ltb c d then true else if c == d then text_lt s t else false

abbrev pub older : Job → Job → Bool
older j k = text_lt (codes j.updated_at) (codes k.updated_at)

unfoldable pub insert_by_age : Job → List Job → List Job
insert_by_age j [] = j ∷ []
insert_by_age j (k ∷ ks) = if older k j then k ∷ insert_by_age j ks else j ∷ k ∷ ks

-- `std::stable_sort` by `updated_at`, oldest first.
unfoldable pub sort_by_age : List Job → List Job
sort_by_age [] = []
sort_by_age (j ∷ js) = insert_by_age j (sort_by_age js)

-- `push_back`, and the cap on how many jobs are kept.
unfoldable pub keep_jobs : List Job → List Job
keep_jobs js = if ltb (max_open + max_closed_kept) (length js) then drop 1 (sort_by_age js) else js

unfoldable pub touch : String → String → String → List PeerPresence → List PeerPresence
touch peer now state [] = record { name = peer; last_seen = now; state = state; job = "" } ∷ []
touch peer now state (p ∷ ps) =
    if str_eq p.name peer
    then record p { last_seen = now; state = if str_eq state "" then p.state else state } ∷ ps
    else p ∷ touch peer now state ps

-- `TouchPeer`
unfoldable pub touch_peer : String → String → String → Board → Board
touch_peer now peer state b =
    if str_eq peer "" then b else record b { peers = touch peer now state b.peers }

-- What `Update` notes of the peers that carry the name of the one that moved a job.
unfoldable pub note_holding : String → String → String → List PeerPresence → List PeerPresence
note_holding peer state job [] = []
note_holding peer state job (p ∷ ps) =
    (if str_eq p.name peer then record p { state = state; job = job } else p)
    ∷ note_holding peer state job ps
