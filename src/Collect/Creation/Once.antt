-- ===== src/Collect/Creation/Once.antt =====
-- Enqueueing: one task for a key, however often it is asked for.
use quant_stock.Base.{
  count_zero, first-eq_none, ℕ, suc, ◌≡◌, ◌≤◌, refl, sym, ap, subst, ◌⊎◌, inl, inr, Bool, true,
  false, String, Option, none, some, List, [], ◌∷◌, ◌++◌, ◌==◌, str_eq, str_eq_iff, first, count,
  if◌then◌else◌, Bool-cases, &&-eq_true, Option-cases, arith,
}
use quant_stock.Base.Result.{ok_or_err, Result, ok, err, ◌>>=◌}
use quant_stock.Collect.Model.{
  CollectTask, RequestSlice, DataItem, SourceBinding, TaskDefinition, Store, get_task,
}
use quant_stock.Collect.Creation.{version_or, has_key, create_task_idempotent, add_slices, submit}

-- the tasks of the database that have a task's key
abbrev pub shares_key : CollectTask → CollectTask → Bool
shares_key task = has_key (version_or task.idempotency_version) task.idempotency_key

version_kept : (o : Option ℕ) → version_or (some (version_or o)) ≡ version_or o
version_kept none = refl
version_kept (some n) = ground arith

count-snoc :
    (p : CollectTask → Bool) (xs : List CollectTask) (x : CollectTask)
    → count p (xs ++ x ∷ []) ≡ (if p x then suc (count p xs) else count p xs)
unfolding count
count-snoc p [] x = refl
count-snoc p (y ∷ ys) x = let rest = count-snoc p ys x in ground arith

first-snoc :
    (p : CollectTask → Bool) (xs : List CollectTask) (x : CollectTask)
    → first p xs ≡ none
    → p x ≡ true
    → first p (xs ++ x ∷ []) ≡ some x
unfolding first
first-snoc p [] x h q = rw q
first-snoc p (y ∷ ys) x h q = elim (Bool-cases (p y)) [
  | inl found ↦ let h' = rw found at h in cc
  | inr other ↦ rw other (first-snoc p ys x (rw other at h) q)
]

-- a row is there by its id after the insert
first-some_snoc :
    (p : CollectTask → Bool) (xs : List CollectTask) (x : CollectTask)
    → p x ≡ true
    → (y : CollectTask) × (first p (xs ++ x ∷ []) ≡ some y)
unfolding first
first-some_snoc p [] x q = (x, rw q)
first-some_snoc p (y ∷ ys) x q = elim (Bool-cases (p y)) [
  | inl found ↦ (y, rw found)
  | inr other ↦ let rest = first-some_snoc p ys x q in (rest.0, rw other rest.1)
]

abbrev written : CollectTask → CollectTask
written task = record task { idempotency_version = some (version_or task.idempotency_version) }

-- the two outcomes of a creation
pub data Created (task : CollectTask) (db : Store)
    : Result (CollectTask × Bool × Store) → Type 0 where
  known :
      (t : CollectTask)
      → first (shares_key task) db.tasks ≡ some t
      → Created task db (ok (t, false, db))
  fresh :
      (t : CollectTask)
      → first (shares_key task) db.tasks ≡ none
      → get_task (record db { tasks = db.tasks ++ written task ∷ [] }) task.task_id ≡ some t
      → Created task db (ok (t, true, record db { tasks = db.tasks ++ written task ∷ [] }))

pub create-Created :
    (task : CollectTask) (db : Store) → Created task db (create_task_idempotent task db)
unfolding create_task_idempotent
create-Created task db = elim (Option-cases (first (shares_key task) db.tasks)) [
  | inl none_there ↦
      let made =
        first-some_snoc (λ t. t.task_id == task.task_id) db.tasks (written task) (ground arith) in
      rw (none_there, made.1) (fresh made.0 none_there made.1)
  | inr (t, found) ↦ rw found (known t found)
]

tasks_of : Result (CollectTask × Bool × Store) → List CollectTask
tasks_of (ok r) = r.2.tasks
tasks_of (err e) = []

own_key : (task : CollectTask) → shares_key task (written task) ≡ true
own_key task =
    let v = version_kept task.idempotency_version in
    ground (arith, str_eq_iff task.idempotency_key task.idempotency_key)

-- the task is there under its key once the call has returned
submit_finds :
    (task : CollectTask) (plan : CollectTask → Result (List RequestSlice)) (db : Store)
    {r : Result (CollectTask × Bool × Store)} {t : CollectTask} {c : Bool} {db' : Store}
    → Created task db r
    → (r >>= add_slices plan) ≡ ok (t, c, db')
    → (u : CollectTask) × (first (shares_key task) db'.tasks ≡ some u)
unfolding tasks_of
submit_finds task plan db (known u found) e = (
  u,
  subst (λ (ts : List CollectTask). first (shares_key task) ts ≡ some u) (ap tasks_of e) found,
)
submit_finds task plan db (fresh u none_there made) e = elim (ok_or_err (plan u)) [
  | inl (slices, planned) ↦ (
    written task,
    subst (λ (ts : List CollectTask). first (shares_key task) ts ≡ some (written task))
        (ap tasks_of (rw planned at e))
        (first-snoc (shares_key task) db.tasks (written task) none_there (own_key task)),
  )
  | inr (raised, refused) ↦ let e' = rw refused at e in cc
]

-- One task for a key: once a call has enqueued a task or found it there, every later call under the
-- same key answers the task that is there, with False, and leaves the database as it is.
pub submit_once :
    (task again : CollectTask) (plan replan : CollectTask → Result (List RequestSlice)) (db : Store)
    {t : CollectTask} {c : Bool} {db' : Store}
    → submit task plan db ≡ ok (t, c, db')
    → version_or again.idempotency_version ≡ version_or task.idempotency_version
    → again.idempotency_key ≡ task.idempotency_key
    → (u : CollectTask) × (submit again replan db' ≡ ok (u, false, db'))
unfolding submit create_task_idempotent
submit_once task again plan replan db {db' = db'} e same_version same_text =
    let (u, found) = submit_finds task plan db (create-Created task db) e in
    (u, rw (same_version, same_text, found))

-- uq_collect_task_idempotency
abbrev pub IsUnique : List CollectTask → Type 0
IsUnique tasks = (version : ℕ) (key : String) → count (has_key version key) tasks ≤ 1

snoc-IsUnique :
    (task : CollectTask) (tasks : List CollectTask)
    → first (shares_key task) tasks ≡ none
    → IsUnique tasks
    → IsUnique (tasks ++ written task ∷ [])
snoc-IsUnique task tasks absent unique version key =
    rw (count-snoc (has_key version key) tasks (written task))
      (elim (Bool-cases (has_key version key (written task))) [
        | inl mine ↦
            let parts =
              &&-eq_true (version_or (written task).idempotency_version == version)
                (str_eq task.idempotency_key key) mine in
            let same_text = (str_eq_iff task.idempotency_key key).0 parts.1 in
            let same_version : version_or task.idempotency_version ≡ version =
              let v = version_kept task.idempotency_version in ground arith in
            let nothing : count (has_key version key) tasks ≡ 0 =
              count_zero (has_key version key) tasks λ t m.
                first-eq_none (has_key version key) (rw (same_version, same_text) at absent) m in
            rw mine (omega arith)
        | inr other ↦ rw other (unique version key)
      ])

-- Where no two tasks have one version and key, none have after a call that returns.
pub submit-IsUnique :
    (task : CollectTask) (plan : CollectTask → Result (List RequestSlice)) (db : Store)
    {t : CollectTask} {c : Bool} {db' : Store}
    → IsUnique db.tasks
    → submit task plan db ≡ ok (t, c, db')
    → IsUnique db'.tasks
unfolding submit tasks_of
submit-IsUnique task plan db {t = t} {c = c} {db' = db'} unique e =
    by_outcome (create-Created task db) e
  where
    by_outcome :
        {r : Result (CollectTask × Bool × Store)}
        → Created task db r
        → (r >>= add_slices plan) ≡ ok (t, c, db')
        → IsUnique db'.tasks
    by_outcome (known u found) e = subst IsUnique (ap tasks_of e) unique
    by_outcome (fresh u none_there made) e = elim (ok_or_err (plan u)) [
      | inl (slices, planned) ↦
          subst IsUnique (ap tasks_of (rw planned at e))
            (snoc-IsUnique task db.tasks none_there unique)
      | inr (raised, refused) ↦ let e' = rw refused at e in cc
    ]

-- what an enqueue reads of the catalog
abbrev pub Catalog : Type 0
Catalog = List DataItem × List SourceBinding × List TaskDefinition

abbrev pub catalog_of : Store → Catalog
catalog_of db = (db.items, db.bindings, db.definitions)

catalog_in : Result (CollectTask × Bool × Store) → Catalog → Catalog
catalog_in (ok r) c = catalog_of r.2
catalog_in (err e) c = c

-- no call writes the catalog
pub submit-catalog_of :
    (task : CollectTask) (plan : CollectTask → Result (List RequestSlice)) (db : Store)
    {t : CollectTask} {c : Bool} {db' : Store}
    → submit task plan db ≡ ok (t, c, db')
    → catalog_of db' ≡ catalog_of db
unfolding submit catalog_in
submit-catalog_of task plan db {t = t} {c = c} {db' = db'} e = by_outcome (create-Created task db) e
  where
    by_outcome :
        {r : Result (CollectTask × Bool × Store)}
        → Created task db r
        → (r >>= add_slices plan) ≡ ok (t, c, db')
        → catalog_of db' ≡ catalog_of db
    by_outcome (known u found) e = sym (ap (λ r. catalog_in r (catalog_of db)) e)
    by_outcome (fresh u none_there made) e = elim (ok_or_err (plan u)) [
      | inl (slices, planned) ↦ sym (ap (λ r. catalog_in r (catalog_of db)) (rw planned at e))
      | inr (raised, refused) ↦ let e' = rw refused at e in cc
    ]

slices_in : Result (CollectTask × Bool × Store) → List RequestSlice → List RequestSlice
slices_in (ok r) none_there = r.2.slices
slices_in (err e) none_there = none_there

-- the slices of a call that returns: those that were there, or with the planned slices of a new task
pub submit-slices :
    (task : CollectTask) (plan : CollectTask → Result (List RequestSlice)) (db : Store)
    {t : CollectTask} {c : Bool} {db' : Store}
    → submit task plan db ≡ ok (t, c, db')
    → (db'.slices ≡ db.slices)
      ⊎ ((u : CollectTask) × (new : List RequestSlice) × (plan u ≡ ok new)
          × (db'.slices ≡ db.slices ++ new))
unfolding submit slices_in
submit-slices task plan db {t = t} {c = c} {db' = db'} e = by_outcome (create-Created task db) e
  where
    by_outcome :
        {r : Result (CollectTask × Bool × Store)}
        → Created task db r
        → (r >>= add_slices plan) ≡ ok (t, c, db')
        → (db'.slices ≡ db.slices)
          ⊎ ((u : CollectTask) × (new : List RequestSlice) × (plan u ≡ ok new)
              × (db'.slices ≡ db.slices ++ new))
    by_outcome (known u found) e = inl (sym (ap (λ r. slices_in r []) e))
    by_outcome (fresh u none_there made) e = elim (ok_or_err (plan u)) [
      | inl (slices, planned) ↦
          inr (u, slices, planned, sym (ap (λ r. slices_in r []) (rw planned at e)))
      | inr (raised, refused) ↦ let e' = rw refused at e in cc
    ]
