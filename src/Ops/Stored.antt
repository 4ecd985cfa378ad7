-- ===== src/Ops/Stored.antt =====
-- The task that a successful request leaves in the database, and the slices beside it.
use quant_stock.Base.{
  ℕ, ◌≡◌, refl, sym, subst, inl, inr, false, String, Option, some, List, [], ◌∷◌, ◌==◌, Bool-cases,
  Option-cases, first, update, count, ==_iff, ==_refl, first-eq_some,
}
use quant_stock.Base.Result.{Result, ok}
use quant_stock.Collect.StateMachine.{TaskStatus}
use quant_stock.Collect.Model.{CollectTask, Store, get_task, set_task}
use quant_stock.Ops.Service.{
  is_pausable, is_closed, is_retryable, pause_task, cancel_task, retry_task, is_queued_of,
  cancel_row, is_failed_of, retry_row,
}

-- Writing a row that keeps its key, and reading it again.
get-set :
    (tasks : List CollectTask) (i : ℕ) {t : CollectTask} (t' : CollectTask)
    → t'.task_id ≡ i
    → first (λ r. r.task_id == i) tasks ≡ some t
    → first (λ r. r.task_id == i) (update (λ r. r.task_id == i) (λ _. t') tasks) ≡ some t'
unfolding first update
get-set [] i t' k h = cc
get-set (x ∷ xs) i t' k h = elim (Bool-cases (x.task_id == i)) [
  | inl hit ↦ rw (hit, k, ==_refl)
  | inr miss ↦ rw (miss, miss) (get-set xs i t' k (rw miss at h))
]

pub get-set_task :
    (db : Store) (i : ℕ) (t t' : CollectTask)
    → t.task_id ≡ i
    → t'.task_id ≡ i
    → get_task db i ≡ some t
    → get_task (set_task t.task_id (λ _. t') db) i ≡ some t'
get-set_task db i t t' e k h =
    subst
      (λ j. first (λ r. r.task_id == i) (update (λ r. r.task_id == j) (λ _. t') db.tasks) ≡ some t')
      (sym e) (get-set db.tasks i t' k h)

pub found_id : (db : Store) (i : ℕ) {t : CollectTask} → get_task db i ≡ some t → t.task_id ≡ i
found_id db i h = (==_iff _ _).0 (first-eq_some (λ r. r.task_id == i) db.tasks h).1

ok_pair {ℓ} :
    {A B : Type ℓ} {a a' : A} {b b' : B}
    → ◌≡◌ {A = Result (Option A × B)} (ok (some a, b)) (ok (some a', b'))
    → (a ≡ a') × (b ≡ b')
ok_pair h = (cc, cc)

-- the task as it is stored after a request
abbrev pub IsStored : ℕ → CollectTask → Store → TaskStatus → Type 0
IsStored i t db status = (get_task db i ≡ some t) × (t.status ≡ status)

module _ (db : Store) (i : ℕ) {t' : CollectTask} {db' : Store} where
  pub pause-IsStored :
      (now : ℕ) (reason : Option String)
      → pause_task now i reason db ≡ ok (some t', db')
      → IsStored i t' db' TaskStatus.paused
  unfolding pause_task
  pause-IsStored now reason h = elim (Option-cases (get_task db i)) [
    | inl missing ↦ cc (rw missing at h)
    | inr (t, found) ↦ elim (Bool-cases (is_pausable t.status)) [
      | inl able ↦
          let (e, e') = ok_pair (rw (found, able) at h) in
          rw (← e, ← e')
            (get-set_task db i t _ (found_id db i found) (found_id db i found) found, refl)
      | inr unable ↦ cc (rw (found, unable) at h)
    ]
  ]

  pub cancel-IsStored :
      (now : ℕ) (reason : Option String)
      → cancel_task now i reason db ≡ ok (some t', db')
      → IsStored i t' db' TaskStatus.cancelled
        × (db'.slices ≡ update (is_queued_of i) cancel_row db.slices)
  unfolding cancel_task
  cancel-IsStored now reason h = elim (Option-cases (get_task db i)) [
    | inl missing ↦ cc (rw missing at h)
    | inr (t, found) ↦ elim (Bool-cases (is_closed t.status)) [
      | inl closed ↦ cc (rw (found, closed) at h)
      | inr able ↦
          let (e, e') = ok_pair (rw (found, able) at h) in
          rw (← e, ← e')
            ((get-set_task db i t _ (found_id db i found) (found_id db i found) found, refl), refl)
    ]
  ]

  pub retry-IsStored :
      (reason : Option String)
      → retry_task i reason db ≡ ok (some t', db')
      → IsStored i t' db' TaskStatus.pending
        × (db'.slices ≡ update (is_failed_of i) retry_row db.slices)
        × ((count (is_failed_of i) db.slices == 0) ≡ false)
  unfolding retry_task
  retry-IsStored reason h = elim (Option-cases (get_task db i)) [
    | inl missing ↦ cc (rw missing at h)
    | inr (t, found) ↦ elim (Bool-cases (is_retryable t.status)) [
      | inr unable ↦ cc (rw (found, unable) at h)
      | inl able ↦ elim (Bool-cases (count (is_failed_of i) db.slices == 0)) [
        | inl nothing ↦ cc (rw (found, able, nothing) at h)
        | inr failures ↦
            let (e, e') = ok_pair (rw (found, able, failures) at h) in
            rw (← e, ← e')
              (
                (get-set_task db i t _ (found_id db i found) (found_id db i found) found, refl),
                refl,
                failures,
              )
      ]
    ]
  ]
