-- ===== src/Collect/Queue/Reopening.antt =====
-- What `recover_expired_claims` does to the tasks of the slices that it sends back.
use quant_stock.Base.{
  ℕ, ◌≡◌, refl, sym, ap, ◌∙◌, subst, ◌≢◌, ◌⊎◌, inl, inr, Bool, true, Option, none, some, List, [],
  ◌∷◌, arith, ◌==◌, if◌then◌else◌, Bool-cases, Option-cases, first, update, In, here, there, ==_iff,
  ==_refl, first-eq_some, select-In,
}
use quant_stock.Collect.StateMachine.{TaskStatus}
use quant_stock.Collect.StateMachine.Edges.{TaskEdge, stop_partial}
use quant_stock.Collect.Model.{CollectTask, RequestSlice, Store, get_task}
use quant_stock.Collect.Recovery.{mark_lost, recover_slice, recover_all, recover_expired_claims}
use quant_stock.Collect.Queue.Recovering.{is_recovered}

abbrev on_found : (CollectTask → CollectTask) → Option CollectTask → Option CollectTask
on_found f none = none
on_found f (some t) = some (f t)

-- Reading a row of the table behind an UPDATE of one key.
get-update :
    (tasks : List CollectTask) (i j : ℕ) (f : CollectTask → CollectTask)
    → ((t : CollectTask) → (f t).task_id ≡ t.task_id)
    → first (λ r. r.task_id == i) (update (λ r. r.task_id == j) f tasks)
      ≡ on_found (λ t. if i == j then f t else t) (first (λ r. r.task_id == i) tasks)
unfolding first update
get-update [] i j f keeps = refl
get-update (x ∷ xs) i j f keeps = ground (arith, keeps x, get-update xs i j f keeps)

-- the task is as a recovery leaves it
abbrev pub IsLost : ℕ → Store → Type 0
IsLost i db =
    (t : CollectTask) × (get_task db i ≡ some t)
    × (t.status ≡ TaskStatus.partial)
    × (t.last_error_type ≡ some "WORKER_LOST")

module _ (stored : Store) where
  tasks-recover_slice :
      (now : ℕ) (s : RequestSlice) (db : Store) (u : CollectTask)
      → get_task db s.task_id ≡ some u
      → (recover_slice now stored s db).tasks
        ≡ update (λ r. r.task_id == u.task_id) mark_lost db.tasks
  unfolding recover_slice
  tasks-recover_slice now s db u h = rw h (ground arith)

  tasks-recover_orphan :
      (now : ℕ) (s : RequestSlice) (db : Store)
      → get_task db s.task_id ≡ none
      → (recover_slice now stored s db).tasks ≡ db.tasks
  unfolding recover_slice
  tasks-recover_orphan now s db h = rw h

on_found_self : (o : Option CollectTask) → on_found (λ t. t) o ≡ o
on_found_self none = refl
on_found_self (some t) = refl

module _ (stored : Store) where
  get-recover_slice :
      (now i : ℕ) (s : RequestSlice) (db : Store)
      → get_task (recover_slice now stored s db) i
        ≡ on_found (λ t. if i == s.task_id then mark_lost t else t) (get_task db i)
  get-recover_slice now i s db = elim (Option-cases (get_task db s.task_id)) [
    | inl missing ↦
        rw (tasks-recover_orphan stored now s db missing) (elim (Bool-cases (i == s.task_id)) [
          | inl hit ↦
              let gone : get_task db i ≡ none = ap (get_task db) ((==_iff _ _).0 hit) ∙ missing in
              rw gone
          | inr miss ↦ rw miss (sym (on_found_self (get_task db i)))
        ])
    | inr (u, found) ↦
        let e : u.task_id ≡ s.task_id =
          (==_iff _ _).0 (first-eq_some (λ r. r.task_id == s.task_id) db.tasks found).1 in
        rw (tasks-recover_slice stored now s db u found) (
          subst
            (λ (j : ℕ).
              first (λ r. r.task_id == i) (update (λ r. r.task_id == u.task_id) mark_lost db.tasks)
              ≡ on_found (λ t. if i == j then mark_lost t else t) (get_task db i))
            e (get-update db.tasks i u.task_id mark_lost (λ t. refl)))
  ]

  recover_slice-IsLost :
      (now i : ℕ) (s : RequestSlice) (db : Store)
      → IsLost i db
      → IsLost i (recover_slice now stored s db)
  recover_slice-IsLost now i s db (t, found, partial, lost) = elim (Bool-cases (i == s.task_id)) [
    | inl hit ↦ (mark_lost t, rw (get-recover_slice now i s db, found, hit), refl, refl)
    | inr miss ↦ (t, rw (get-recover_slice now i s db, found, miss), partial, lost)
  ]

  recover_slice_hit :
      (now : ℕ) (s : RequestSlice) (db : Store) (t : CollectTask)
      → get_task db s.task_id ≡ some t
      → IsLost s.task_id (recover_slice now stored s db)
  recover_slice_hit now s db t found =
      (mark_lost t, rw (get-recover_slice now s.task_id s db, found, ==_refl), refl, refl)

  recover_slice-IsFound :
      (now i : ℕ) (s : RequestSlice) (db : Store) {t : CollectTask}
      → get_task db i ≡ some t
      → (t' : CollectTask) × (get_task (recover_slice now stored s db) i ≡ some t')
  recover_slice-IsFound now i s db {t} found =
      ((if i == s.task_id then mark_lost t else t), rw (get-recover_slice now i s db, found))

  recover_all-IsLost :
      (now i : ℕ) (rows : List RequestSlice) (db : Store)
      → IsLost i db
      → IsLost i (recover_all now stored rows db)
  unfolding recover_all
  recover_all-IsLost now i [] db h = h
  recover_all-IsLost now i (s ∷ rows) db h =
      recover_all-IsLost now i rows _ (recover_slice-IsLost now i s db h)

  recover_all_hit :
      (now : ℕ) {s : RequestSlice} (db : Store) {rows : List RequestSlice} {t : CollectTask}
      → In s rows
      → get_task db s.task_id ≡ some t
      → IsLost s.task_id (recover_all now stored rows db)
  unfolding recover_all
  recover_all_hit now {s} db (here {x = x} {xs = rows} e) found =
      rw e (recover_all-IsLost now x.task_id rows _ (recover_slice_hit now x db _ (rw e at found)))
  recover_all_hit now {s} db (there {x = x} {xs = rows} m) found =
      recover_all_hit now (recover_slice now stored x db) m
        (recover_slice-IsFound now s.task_id x db found).1

not_partial : {s : TaskStatus} → s ≢ TaskStatus.running → ¬ TaskEdge s TaskStatus.partial
not_partial h stop_partial = h refl

partial_of_running : (s : TaskStatus) → (s ≡ TaskStatus.running) ⊎ (¬ TaskEdge s TaskStatus.partial)
partial_of_running TaskStatus.running = inl refl
partial_of_running _ = inr (not_partial (λ e. cc))

-- A recovery sets the task of every slice that it sends back to PARTIAL with the error WORKER_LOST,
-- whatever the task's status was, though the transition table allows it only from RUNNING: a
-- CANCELLED or PAUSED task is opened again.
pub recover_reopens :
    (now : ℕ) (locked : RequestSlice → Bool) (db : Store) (s : RequestSlice) (t : CollectTask)
    → In s db.slices
    → is_recovered now locked s ≡ true
    → get_task db s.task_id ≡ some t
    → IsLost s.task_id (recover_expired_claims now locked db).1
      × ((t.status ≡ TaskStatus.running) ⊎ (¬ TaskEdge t.status TaskStatus.partial))
unfolding recover_expired_claims
recover_reopens now locked db s t member test found = (
  recover_all_hit db now db (select-In (is_recovered now locked) member test) found,
  partial_of_running t.status,
)
