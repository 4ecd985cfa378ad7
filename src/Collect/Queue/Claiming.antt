-- ===== src/Collect/Queue/Claiming.antt =====
-- What `claim_next_slice` promises: it leases the most urgent claimable slice, and only that one.
use quant_stock.Base.{
  ℕ, ◌≡◌, refl, ◌⊎◌, inl, inr, Bool, true, false, ◌&&◌, not, String, Option, none, some, arith,
  ◌==◌, Option-cases, In, In-select, select-In, IsOrder, best-In, best-eq_none, best-least,
}
use quant_stock.Collect.Model.{RequestSlice, Store, set_slices}
use quant_stock.Collect.Repository.{
  ClaimedSlice, claimable, precedes, next_slice, lease, claim_next_slice,
}

precedes-IsOrder : IsOrder precedes
unfolding precedes
precedes-IsOrder = record {
  irrefl = λ x. ground arith;
  asym = λ x y h. ground arith;
  not_trans = λ x y z h k. ground arith;
}

module _ (db : Store) (now : ℕ) (locked : RequestSlice → Bool) where
  -- the rows that a claim chooses from
  abbrev pub IsCandidate : RequestSlice → Type 0
  IsCandidate s = In s db.slices × (claimable db now s ≡ true) × (locked s ≡ false)

  -- a candidate that no candidate precedes in (priority, slice_order)
  pub record IsNext (s : RequestSlice) : Type 0 where
    pub candidate : IsCandidate s
    pub least : (r : RequestSlice) → IsCandidate r → precedes r s ≡ false

  test-IsCandidate :
      (s : RequestSlice)
      → (claimable db now s && not (locked s)) ≡ true
      → (claimable db now s ≡ true) × (locked s ≡ false)
  test-IsCandidate s h = ground arith

  IsCandidate-test :
      (s : RequestSlice)
      → claimable db now s ≡ true
      → locked s ≡ false
      → (claimable db now s && not (locked s)) ≡ true
  IsCandidate-test s h k = rw (h, k)

  pub next_slice-IsNext : {s : RequestSlice} → next_slice db now locked ≡ some s → IsNext s
  unfolding next_slice
  next_slice-IsNext {s} h =
      let (member, passes) =
        In-select (λ s. claimable db now s && not (locked s)) db.slices (best-In precedes _ h) in
      record {
        candidate = (member, (test-IsCandidate s passes).0, (test-IsCandidate s passes).1);
        least = λ r (m, c, l).
            best-least precedes precedes-IsOrder h
              (select-In (λ s. claimable db now s && not (locked s)) m (IsCandidate-test r c l));
      }

  pub next_slice-none : {s : RequestSlice} → next_slice db now locked ≡ none → ¬ IsCandidate s
  unfolding next_slice
  next_slice-none {s} h (m, c, l) =
      best-eq_none precedes h
        (select-In (λ s. claimable db now s && not (locked s)) m (IsCandidate-test s c l))

  -- the values that a claim may return, with the database that it leaves
  abbrev pub ClaimOutcome : ℕ → String → ℕ → Option ClaimedSlice × Store → Type 0
  ClaimOutcome token worker_id lease_seconds (claimed, db') =
      (((s : RequestSlice) → ¬ IsCandidate s) × (claimed ≡ none) × (db' ≡ db))
      ⊎ ((s : RequestSlice) × IsNext s
          × (claimed
              ≡ some (record {
                slice_id = s.slice_id;
                task_id = s.task_id;
                lease_token = token;
                request_params = s.request_params;
                request_hash = s.request_hash;
              }))
          × (db'
              ≡ set_slices (λ r. r.slice_id == s.slice_id) (lease now token worker_id lease_seconds)
                  db))

  -- What a claim does on each branch. With no candidate it returns None and writes nothing. Else it
  -- returns a most urgent candidate with the new token, and writes exactly the rows of that slice:
  -- they become RUNNING under the token, the worker and the lease's end, one attempt later.
  pub claim_next_slice_correct :
      (token : ℕ) (worker_id : String) (lease_seconds : ℕ)
      → ClaimOutcome token worker_id lease_seconds
          (claim_next_slice now token locked worker_id lease_seconds db)
  unfolding claim_next_slice
  claim_next_slice_correct token worker_id lease_seconds =
      elim (Option-cases (next_slice db now locked)) [
        | inl nothing ↦ rw nothing (inl (λ s. next_slice-none nothing, refl, refl))
        | inr (s, found) ↦ rw found (inr (s, next_slice-IsNext found, refl, refl))
      ]
