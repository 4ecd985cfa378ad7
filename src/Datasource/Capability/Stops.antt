-- ===== src/Datasource/Capability/Stops.antt =====
-- app/datasource/capability.py and the claims: what is claimed on the database that a probe leaves.
use quant_stock.Base.{
  ℕ, ◌≡◌, refl, ◌∙◌, inl, inr, Bool, true, false, not, ◌||◌, String, some, List, [], ◌∷◌, ◌==◌,
  ==_iff, first, update, Bool-cases, arith,
}
use quant_stock.Base.Json.{get}
use quant_stock.Collect.Model.{
  CollectTask, RequestSlice, SourceBinding, Store, get_task, get_binding,
}
use quant_stock.Collect.Repository.{is_stage_value, capability_blocks, claimable, claim_next_slice}
use quant_stock.Collect.Queue.Claiming.{claim_next_slice_correct}
use quant_stock.Collect.Executor.{Response, answered, refused}
use quant_stock.Ops.Claims.{claims}
use quant_stock.Datasource.Capability.{ProbeSpec, settle_probe}

claimable_bound :
    (db : Store) (now : ℕ) (s : RequestSlice) (t : CollectTask) (b : SourceBinding)
    → get_task db s.task_id ≡ some t
    → get_binding db t.source_binding_id ≡ some b
    → claimable db now s ≡ true
    → (is_stage_value (get t.object_scope "stage") || not (capability_blocks b.capability_status))
      ≡ true
unfolding claimable
claimable_bound db now s t b found bound h = ground arith

-- the binding that is read by its id after an UPDATE by its id
first-update :
    (i : ℕ) (f : SourceBinding → SourceBinding) (bs : List SourceBinding) {b : SourceBinding}
    → ((x : SourceBinding)
        → (x.source_binding_id == i) ≡ true
        → ((f x).source_binding_id == i) ≡ true)
    → first (λ b. b.source_binding_id == i) bs ≡ some b
    → first (λ b. b.source_binding_id == i) (update (λ b. b.source_binding_id == i) f bs)
      ≡ some (f b)
unfolding first update
first-update i f [] keeps h = cc
first-update i f (x ∷ bs) keeps h = elim (Bool-cases (x.source_binding_id == i)) [
  | inl mine ↦ let same = rw mine at h in rw (mine, keeps x mine) cc
  | inr other ↦ rw (other, other) (first-update i f bs keeps (rw other at h))
]

-- the binding after the probe has the status that the probe answers
settle_probe-binding :
    (now : ℕ) (b : SourceBinding) (spec : ProbeSpec) (response : Response) (db : Store)
    → get_binding db b.source_binding_id ≡ some b
    → (b' : SourceBinding) × (get_binding
          (settle_probe now b spec response db).1
          b.source_binding_id
        ≡ some b')
      × (b'.capability_status ≡ (settle_probe now b spec response db).0.capability_status)
unfolding settle_probe
settle_probe-binding now b spec (refused failure) db found =
    (_, first-update b.source_binding_id _ db.bindings (λ x m. m) found, refl)
settle_probe-binding now b spec (answered columns rows fingerprint) db found =
    (_, first-update b.source_binding_id _ db.bindings (λ x m. m) found, refl)

settle_probe-task :
    (now : ℕ) (b : SourceBinding) (spec : ProbeSpec) (response : Response) (db : Store) (i : ℕ)
    → get_task (settle_probe now b spec response db).1 i ≡ get_task db i
unfolding settle_probe
settle_probe-task now b spec (refused failure) db i = refl
settle_probe-task now b spec (answered columns rows fingerprint) db i = refl

-- On the database that a probe leaves which has answered a status that blocks a binding, no claim returns a slice
-- of a task of the binding, whatever the time and the worker, unless it is a task that cleans or checks.
pub probe_stops_claims :
    (now : ℕ) (b : SourceBinding) (spec : ProbeSpec) (response : Response) (db : Store) (i : ℕ)
    (t : CollectTask)
    → get_binding db b.source_binding_id ≡ some b
    → get_task db i ≡ some t
    → t.source_binding_id ≡ b.source_binding_id
    → is_stage_value (get t.object_scope "stage") ≡ false
    → capability_blocks (settle_probe now b spec response db).0.capability_status ≡ true
    → (later token : ℕ) (locked : RequestSlice → Bool) (worker : String) (n : ℕ)
    → claims i
        (claim_next_slice later token locked worker n (settle_probe now b spec response db).1).0
      ≡ false
probe_stops_claims now b spec response db i t bound found same collects blocked later token locked
      worker n =
    let after = (settle_probe now b spec response db).1 in
    let (b', bound', status) = settle_probe-binding now b spec response db bound in
    let found' : get_task after i ≡ some t = settle_probe-task now b spec response db i ∙ found in
    elim (claim_next_slice_correct after later locked token worker n) [
      | inl (_, e, _) ↦ rw e
      | inr (s, next, e, _) ↦ rw e (elim (Bool-cases (s.task_id == i)) [
        | inr miss ↦ miss
        | inl hit ↦
            let mine : s.task_id ≡ i = (==_iff s.task_id i).0 hit in
            let allowed =
              claimable_bound after later s t b' (rw mine found') (rw same bound')
                next.candidate.1 in
            let off = rw (collects, status, blocked) at allowed in cc
      ])
    ]
