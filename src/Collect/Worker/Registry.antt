-- ===== src/Collect/Worker/Registry.antt =====
-- app/collect/worker.py, _register_worker and _heartbeat_worker, and app/collect/scheduler.py,
-- recover_lost_workers: the registry of the workers.
use quant_stock.Base.{
  ℕ, ◌-◌, ◌≡◌, refl, inl, inr, Bool, false, ◌&&◌, String, List, [], ◌∷◌, ◌++◌, ◌==◌, ltb, str_eq,
  count, select, update, map, update-eq_self_of_count, count-append, arith, Bool-cases,
  if◌then◌else◌,
}
use quant_stock.Base.Json.{Dict, str, put, empty}
use quant_stock.Collect.Model.{seconds}

pub record WorkerRegistry : Type 0 where
  pub worker_id : String
  pub environment : String
  pub worker_type : String
  pub hostname : String
  pub process_id : ℕ
  pub version : String
  pub started_at : ℕ
  pub heartbeat_at : ℕ
  pub status : String
  pub metadata : Dict

-- what a worker knows of itself
pub record Host : Type 0 where
  pub worker_id : String
  pub environment : String
  pub hostname : String
  pub process_id : ℕ
  pub version : String

abbrev pub is_worker : String → WorkerRegistry → Bool
is_worker id w = str_eq w.worker_id id

-- INSERT ... ON CONFLICT (worker_id) DO UPDATE, with a status
unfoldable pub heartbeat_worker : ℕ → Host → String → List WorkerRegistry → List WorkerRegistry
heartbeat_worker now h status rows =
    if count (is_worker h.worker_id) rows == 0
    then rows
      ++ (record {
        worker_id = h.worker_id;
        environment = h.environment;
        worker_type = "unified";
        hostname = h.hostname;
        process_id = h.process_id;
        version = h.version;
        started_at = now;
        heartbeat_at = now;
        status = status;
        metadata = empty;
      })
        ∷ []
    else update (is_worker h.worker_id)
        (λ w. record w {
          heartbeat_at = now;
          status = status;
          process_id = h.process_id;
          worker_type = "unified";
          hostname = h.hostname;
          version = h.version;
        })
        rows

unfoldable pub register_worker : ℕ → Host → List WorkerRegistry → List WorkerRegistry
register_worker now h = heartbeat_worker now h "ONLINE"

-- WorkerRegistry.status == "RUNNING", WorkerRegistry.heartbeat_at < cutoff
abbrev pub is_stale : ℕ → WorkerRegistry → Bool
is_stale cutoff w = str_eq w.status "RUNNING" && ltb w.heartbeat_at cutoff

-- The ids of the workers that it marks, and the registry after it; lost_at is the text of the instant, and the
-- threshold is the one that applies.
unfoldable pub recover_lost_workers :
    ℕ → String → ℕ → List WorkerRegistry → List String × List WorkerRegistry
recover_lost_workers now lost_at threshold rows =
    let cutoff = now - seconds threshold in
    (
      map (λ (w : WorkerRegistry). w.worker_id) (select (is_stale cutoff) rows),
      update (is_stale cutoff)
          (λ w. record w {
            status = "LOST";
            metadata =
                put (put w.metadata "lost_at" (str lost_at)) "lost_reason"
                  (str "heartbeat_timeout");
          })
          rows,
    )

-- the registries that the workers write: each registers itself, reports ONLINE in each turn, and OFFLINE at the end
pub data Registry : List WorkerRegistry → Type 0 where
  nobody : Registry []
  registers :
      (now : ℕ) (h : Host) {rows : List WorkerRegistry}
      → Registry rows
      → Registry (register_worker now h rows)
  reports :
      (now : ℕ) (h : Host) {rows : List WorkerRegistry}
      → Registry rows
      → Registry (heartbeat_worker now h "ONLINE" rows)
  leaves :
      (now : ℕ) (h : Host) {rows : List WorkerRegistry}
      → Registry rows
      → Registry (heartbeat_worker now h "OFFLINE" rows)

abbrev says_running : WorkerRegistry → Bool
says_running w = str_eq w.status "RUNNING"

update_none_running :
    (p : WorkerRegistry → Bool) (f : WorkerRegistry → WorkerRegistry) (rows : List WorkerRegistry)
    → ((w : WorkerRegistry) → says_running (f w) ≡ false)
    → count says_running rows ≡ 0
    → count says_running (update p f rows) ≡ 0
unfolding count update
update_none_running p f [] h none_there = refl
update_none_running p f (w ∷ ws) h none_there = elim (Bool-cases (says_running w)) [
  | inl busy ↦ let more = rw busy at none_there in let absurd : ⊥ = omega arith in elim absurd [ ]
  | inr other ↦
      let rest = update_none_running p f ws h (rw other at none_there) in
      elim (Bool-cases (p w)) [
        | inl mine ↦ rw (mine, h w) rest
        | inr theirs ↦ rw (theirs, other) rest
      ]
]

heartbeat_none_running :
    (now : ℕ) (h : Host) (status : String) (rows : List WorkerRegistry)
    → str_eq status "RUNNING" ≡ false
    → count says_running rows ≡ 0
    → count says_running (heartbeat_worker now h status rows) ≡ 0
unfolding heartbeat_worker count
heartbeat_none_running now h status rows other none_there =
    elim (Bool-cases (count (is_worker h.worker_id) rows == 0)) [
      | inl new ↦ rw (new, count-append says_running rows (_ ∷ []), other) (omega arith)
      | inr known ↦
          rw known (update_none_running (is_worker h.worker_id) _ rows (λ w. other) none_there)
    ]

Registry-none_running : {rows : List WorkerRegistry} → Registry rows → count says_running rows ≡ 0
unfolding count register_worker
Registry-none_running nobody = refl
Registry-none_running (registers now h r) =
    heartbeat_none_running now h "ONLINE" _ refl (Registry-none_running r)
Registry-none_running (reports now h r) =
    heartbeat_none_running now h "ONLINE" _ refl (Registry-none_running r)
Registry-none_running (leaves now h r) =
    heartbeat_none_running now h "OFFLINE" _ refl (Registry-none_running r)

nobody_stale :
    (cutoff : ℕ) (rows : List WorkerRegistry)
    → count says_running rows ≡ 0
    → (count (is_stale cutoff) rows ≡ 0) × (select (is_stale cutoff) rows ≡ [])
unfolding count select
nobody_stale cutoff [] h = (refl, refl)
nobody_stale cutoff (w ∷ ws) h = elim (Bool-cases (says_running w)) [
  | inl busy ↦ let more = rw busy at h in let absurd : ⊥ = omega arith in elim absurd [ ]
  | inr other ↦ let rest = nobody_stale cutoff ws (rw other at h) in rw other rest
]

-- In every registry that the workers write, the recovery of lost workers finds none and marks none, however old
-- their heartbeats are.
pub recover_lost_workers_idle :
    (now : ℕ) (lost_at : String) (threshold : ℕ) {rows : List WorkerRegistry}
    → Registry rows
    → recover_lost_workers now lost_at threshold rows ≡ ([], rows)
unfolding recover_lost_workers
recover_lost_workers_idle now lost_at threshold {rows = rows} r =
    let none_stale = nobody_stale (now - seconds threshold) rows (Registry-none_running r) in
    rw
      (
        none_stale.1,
        update-eq_self_of_count (is_stale (now - seconds threshold)) _ rows none_stale.0,
      )
      refl
