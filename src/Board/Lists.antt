-- ===== src/Board/Lists.antt =====
-- Lemmas on the searches, writes, counts and the ordering of Store.
use pu_cli.Base.{
  suc, ◌+◌, ◌-◌, ◌≤◌, String, true, false, some, List, [], ◌∷◌, ◌++◌, ◌≡◌, refl, arith, length,
  drop, str_eq, eq_iff,
}
use pu_cli.Board.Job.{Job, closed}
use pu_cli.Board.Store.{
  AuditEntry, max_audit, max_open, max_closed_kept, trim_audit, find_job, put_job, count_open,
  insert_by_age, sort_by_age, keep_jobs,
}

pub length-trim_audit : (es : List AuditEntry) → length (trim_audit es) ≤ max_audit
unfolding trim_audit
length-trim_audit [] = omega arith
length-trim_audit (e ∷ es) = ground (arith, length-trim_audit es)

pub length-put_job : (id : String) (k : Job) (js : List Job) → length (put_job id k js) ≡ length js
unfolding put_job
length-put_job id k [] = refl
length-put_job id k (j ∷ js) = ground (arith, length-put_job id k js)

pub count_open-put_job :
    (id : String) (j k : Job) (js : List Job)
    → find_job id js ≡ some j
    → closed j ≡ false
    → count_open (put_job id k js) ≤ count_open js
unfolding put_job find_job count_open
count_open-put_job id j k [] e h = cc
count_open-put_job id j k (x ∷ js) e h = ground (arith, count_open-put_job id j k js)

pub find_job-id :
    (id : String) (j : Job) (js : List Job) → find_job id js ≡ some j → str_eq j.id id ≡ true
unfolding find_job
find_job-id id j [] e = cc
find_job-id id j (x ∷ js) e = ground (arith, find_job-id id j js)

pub find-put_job :
    (id : String) (j k : Job) (js : List Job)
    → find_job id js ≡ some j
    → k.id ≡ j.id
    → find_job id (put_job id k js) ≡ some k
unfolding find_job put_job
find-put_job id j k [] e h = cc
find-put_job id j k (x ∷ js) e h = ground (arith, find-put_job id j k js)

-- A write through one id leaves what is found under any other.
pub find-put_job_ne :
    (id other : String) (j k : Job) (js : List Job)
    → find_job id js ≡ some j
    → k.id ≡ j.id
    → str_eq id other ≡ false
    → find_job other (put_job id k js) ≡ find_job other js
unfolding find_job put_job
find-put_job_ne id other j k [] e h d = refl
find-put_job_ne id other j k (x ∷ js) e h d = ground (
  arith,
  find-put_job_ne id other j k js,
  eq_iff x.id id,
  eq_iff id other,
  eq_iff x.id other,
  eq_iff k.id other,
)

pub put-put_job :
    (id : String) (d k : Job) (js : List Job)
    → str_eq d.id id ≡ true
    → put_job id k (put_job id d js) ≡ put_job id k js
unfolding put_job
put-put_job id d k [] h = refl
put-put_job id d k (x ∷ js) h = ground (arith, put-put_job id d k js)

length-insert_by_age : (j : Job) (js : List Job) → length (insert_by_age j js) ≡ suc (length js)
unfolding insert_by_age
length-insert_by_age j [] = refl
length-insert_by_age j (k ∷ ks) = ground (arith, length-insert_by_age j ks)

length-sort_by_age : (js : List Job) → length (sort_by_age js) ≡ length js
unfolding sort_by_age
length-sort_by_age [] = refl
length-sort_by_age (j ∷ js) =
    omega (arith, length-insert_by_age j (sort_by_age js), length-sort_by_age js)

count_open-insert_by_age :
    (j : Job) (js : List Job) → count_open (insert_by_age j js) ≡ count_open (j ∷ js)
unfolding insert_by_age count_open
count_open-insert_by_age j [] = refl
count_open-insert_by_age j (k ∷ ks) = ground (arith, count_open-insert_by_age j ks)

count_open-sort_by_age : (js : List Job) → count_open (sort_by_age js) ≡ count_open js
unfolding sort_by_age count_open
count_open-sort_by_age [] = refl
count_open-sort_by_age (j ∷ js) =
    ground (arith, count_open-insert_by_age j (sort_by_age js), count_open-sort_by_age js)

pub count_open-append : (js ks : List Job) → count_open (js ++ ks) ≡ count_open js + count_open ks
unfolding count_open
count_open-append [] ks = omega arith
count_open-append (j ∷ js) ks = ground (arith, count_open-append js ks)

count_open-drop : (js : List Job) → count_open (drop 1 js) ≤ count_open js
unfolding count_open
count_open-drop [] = omega arith
count_open-drop (j ∷ js) = ground arith

length-drop_one : {A : Type 0} (xs : List A) → length (drop 1 xs) ≡ length xs - 1
length-drop_one [] = omega arith
length-drop_one (x ∷ xs) = omega arith

pub length-keep_jobs :
    (js : List Job)
    → length js ≤ max_open + max_closed_kept + 1
    → length (keep_jobs js) ≤ max_open + max_closed_kept
unfolding keep_jobs
length-keep_jobs js h = ground (arith, length-drop_one (sort_by_age js), length-sort_by_age js)

pub count_open-keep_jobs : (js : List Job) → count_open (keep_jobs js) ≤ count_open js
unfolding keep_jobs
count_open-keep_jobs js =
    ground (arith, count_open-drop (sort_by_age js), count_open-sort_by_age js)

pub count_open-snoc : (js : List Job) (k : Job) → count_open (js ++ k ∷ []) ≤ count_open js + 1
unfolding count_open
count_open-snoc js k = ground (arith, count_open-append js (k ∷ []))

pub keep_jobs-small : (js : List Job) → length js ≤ max_open + max_closed_kept → keep_jobs js ≡ js
unfolding keep_jobs
keep_jobs-small js h = ground arith

pub find-append :
    (id : String) (j : Job) (js ks : List Job)
    → find_job id js ≡ some j
    → find_job id (js ++ ks) ≡ some j
unfolding find_job
find-append id j [] ks e = cc
find-append id j (x ∷ js) ks e = ground (arith, find-append id j js ks)
