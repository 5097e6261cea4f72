-- ===== src/Board/Eviction.antt =====
-- Which job the cap of `Post` in src/serve/board.cpp removes.
use pu_cli.Base.{
  ◌+◌, Bytes, true, false, List, [], ◌∷◌, ◌++◌, ◌≡◌, ◌∙◌, ap, String, refl, arith, length,
  length-append, All, All-append, codes,
}
use pu_cli.Board.Job.{Job, JobRequest, ActionResult, ok}
use pu_cli.Board.Duration.{Span}
use pu_cli.Board.Store.{
  Board, max_open, max_closed_kept, record_event, text_lt, older, insert_by_age, sort_by_age,
  keep_jobs,
}
use pu_cli.Board.Verbs.{Readings, post}

text_lt-asymm : (s t : Bytes) → text_lt s t ≡ true → text_lt t s ≡ false
unfolding text_lt
text_lt-asymm [] [] h = refl
text_lt-asymm [] (d ∷ t) h = refl
text_lt-asymm (c ∷ s) [] h = ground arith
text_lt-asymm (c ∷ s) (d ∷ t) h = ground (arith, text_lt-asymm s t)

abbrev pub OlderThanAll : Job → List Job → Type 0
OlderThanAll j = All (λ k. older j k ≡ true)

insert_by_age-OlderThanAll :
    (j k : Job) (ks : List Job)
    → older j k ≡ true
    → OlderThanAll j ks
    → OlderThanAll j (insert_by_age k ks)
unfolding insert_by_age
insert_by_age-OlderThanAll j k [] h a = (h, tt)
insert_by_age-OlderThanAll j k (x ∷ xs) h a =
    ground (arith, insert_by_age-OlderThanAll j k xs h a.1)

sort_by_age-OlderThanAll :
    (j : Job) (ks : List Job) → OlderThanAll j ks → OlderThanAll j (sort_by_age ks)
unfolding sort_by_age
sort_by_age-OlderThanAll j [] a = tt
sort_by_age-OlderThanAll j (k ∷ ks) a =
    insert_by_age-OlderThanAll j k (sort_by_age ks) a.0 (sort_by_age-OlderThanAll j ks a.1)

insert_by_age-cons : (j : Job) (ks : List Job) → OlderThanAll j ks → insert_by_age j ks ≡ j ∷ ks
unfolding insert_by_age
insert_by_age-cons j [] a = refl
insert_by_age-cons j (k ∷ ks) a =
    ground (arith, text_lt-asymm (codes j.updated_at) (codes k.updated_at) a.0)

sort_by_age-cons :
    (j : Job) (ks : List Job) → OlderThanAll j ks → sort_by_age (j ∷ ks) ≡ j ∷ sort_by_age ks
unfolding sort_by_age
sort_by_age-cons j ks a = insert_by_age-cons j (sort_by_age ks) (sort_by_age-OlderThanAll j ks a)

post-jobs :
    (t : Readings) (id : String) (stamp : Span → String) (r : JobRequest) (b : Board)
    (a : ActionResult)
    → (post t id stamp r b).0 ≡ ok a
    → (post t id stamp r b).1.jobs ≡ keep_jobs (b.jobs ++ a.job ∷ [])
unfolding post record_event
post-jobs t id stamp r b a h = ground arith

keep_jobs-full :
    (j : Job) (ks : List Job)
    → length ks ≡ max_open + max_closed_kept
    → OlderThanAll j ks
    → keep_jobs (j ∷ ks) ≡ sort_by_age ks
unfolding keep_jobs
keep_jobs-full j ks n a = rw (sort_by_age-cons j ks a) (ground arith)

-- A post onto a full board of 160 jobs whose first job was updated before every other one, and before
-- the posted one, removes that first job whatever its state: an open job that nobody touched is lost
-- while jobs that have closed stay.
pub post_evicts_oldest :
    (t : Readings) (id : String) (stamp : Span → String) (r : JobRequest) (b : Board)
    (a : ActionResult) (j : Job) (rest : List Job)
    → b.jobs ≡ j ∷ rest
    → length b.jobs ≡ max_open + max_closed_kept
    → OlderThanAll j rest
    → older j a.job ≡ true
    → (post t id stamp r b).0 ≡ ok a
    → (post t id stamp r b).1.jobs ≡ sort_by_age (rest ++ a.job ∷ [])
post_evicts_oldest t id stamp r b a j rest e n o oa h =
    post-jobs t id stamp r b a h
    ∙ rw e (
        keep_jobs-full j (rest ++ a.job ∷ [])
          (omega (arith, length-append rest (a.job ∷ []), ap length e))
          (All-append (λ k. older j k ≡ true) rest (a.job ∷ []) o (oa, tt)))
