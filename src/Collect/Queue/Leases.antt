-- ===== src/Collect/Queue/Leases.antt =====
-- The lease token fences the writes of a worker: only the holder of the current lease writes.
use quant_stock.Base.{
  ℕ, ◌≡◌, refl, ap, ◌≢◌, inl, inr, Bool, true, false, String, some, arith, ◌==◌, if◌then◌else◌,
  Option-cases, count, count_zero, In-update, update-eq_self_of_count,
}
use quant_stock.Base.Json.{Dict}
use quant_stock.Collect.Model.{RequestSlice, Store}
use quant_stock.Collect.Repository.{
  ClaimedSlice, next_slice, lease, claim_next_slice, holds_lease, guarded_update, beat_row,
  heartbeat_slice, complete_row, complete_slice, release_row, release_slice_for_retry, failed_row,
  fail_slice,
}

-- the writes of a lease holder
pub data Write : Type 0 where
  beat : ℕ → ℕ → Write
  complete : ℕ → ℕ → Write
  release : String → ℕ → Write
  fail : String → Write

-- a write by the holder of `token` on slice `slice_id`
unfoldable pub write : ℕ → ℕ → Write → Store → Bool × Store
write slice_id token (beat now lease_seconds) = heartbeat_slice now slice_id token lease_seconds
write slice_id token (complete now rows) = complete_slice now slice_id token rows
write slice_id token (release error_type at) = release_slice_for_retry slice_id token error_type at
write slice_id token (fail error_type) = fail_slice slice_id token error_type

-- what a write does to the row of the lease
abbrev pub written : Write → RequestSlice → RequestSlice
written (beat now lease_seconds) = beat_row now lease_seconds
written (complete now rows) = complete_row now rows
written (release error_type at) = release_row error_type at
written (fail error_type) = failed_row error_type

pub write-eq-guarded_update :
    (slice_id token : ℕ) (w : Write)
    → write slice_id token w ≡ guarded_update slice_id token (written w)
unfolding write heartbeat_slice complete_slice release_slice_for_retry fail_slice
write-eq-guarded_update slice_id token (beat now lease_seconds) = refl
write-eq-guarded_update slice_id token _ = refl

-- complete, release and fail end a lease; a heartbeat prolongs it
abbrev pub settles : Write → Bool
settles (beat _ _) = false
settles _ = true

-- no row is held under this token
abbrev pub IsStale : ℕ → ℕ → Store → Type 0
IsStale slice_id token db = count (holds_lease slice_id token) db.slices ≡ 0

module _ (slice_id token : ℕ) where
  write_of_IsStale :
      (w : Write) (db : Store) → IsStale slice_id token db → write slice_id token w db ≡ (false, db)
  unfolding guarded_update
  write_of_IsStale w db h =
      let kept = update-eq_self_of_count (holds_lease slice_id token) (written w) db.slices h in
      rw write-eq-guarded_update λ i. (ap (λ (k : ℕ). k == 1) h i, record db { slices = kept i })

  settled-not_held :
      (w : Write) (s : RequestSlice)
      → settles w ≡ true
      → holds_lease slice_id token (if holds_lease slice_id token s then written w s else s) ≡ false
  settled-not_held (beat _ _) s h = cc
  settled-not_held (complete now rows) s h = ground arith
  settled-not_held (release error_type at) s h = ground arith
  settled-not_held (fail error_type) s h = ground arith

  pub settled-IsStale :
      (w : Write) (db : Store)
      → settles w ≡ true
      → IsStale slice_id token (write slice_id token w db).1
  unfolding guarded_update
  settled-IsStale w db h = rw write-eq-guarded_update (
      count_zero (holds_lease slice_id token) _ λ r m.
        let (s, _, e) = In-update (holds_lease slice_id token) (written w) db.slices m in
        rw e (settled-not_held w s h))

  -- A write that ends a lease is the last write under its token: any later write by the same holder
  -- is refused and changes nothing.
  pub settled_once :
      (w w' : Write) (db : Store)
      → settles w ≡ true
      → let db' = (write slice_id token w db).1 in write slice_id token w' db' ≡ (false, db')
  settled_once w w' db h = write_of_IsStale w' _ (settled-IsStale w db h)

-- A row that a claim has leased anew is held under no other token.
leased-not_held :
    (slice_id old now token lease_seconds : ℕ) (worker_id : String) (s : RequestSlice)
    → token ≢ old
    → holds_lease slice_id old
        (if s.slice_id == slice_id then lease now token worker_id lease_seconds s else s)
      ≡ false
leased-not_held slice_id old now token lease_seconds worker_id s h = ground arith

claimed_id :
    (s : RequestSlice) (c : ClaimedSlice) {task_id token : ℕ} {params : Dict} {hash : String}
    → some (
        let r : ClaimedSlice = record {
          slice_id = s.slice_id;
          task_id = task_id;
          lease_token = token;
          request_params = params;
          request_hash = hash;
        } in
        r)
      ≡ some c
    → s.slice_id ≡ c.slice_id
claimed_id s c h = ground arith

-- Once a slice has been claimed under a new token, every write under another token is refused and
-- changes nothing, whoever held the slice before.
pub claim_fences :
    (now token lease_seconds : ℕ) (locked : RequestSlice → Bool) (worker_id : String) (db : Store)
    (c : ClaimedSlice) (old : ℕ) (w : Write)
    → (claim_next_slice now token locked worker_id lease_seconds db).0 ≡ some c
    → token ≢ old
    → let db' = (claim_next_slice now token locked worker_id lease_seconds db).1 in
      write c.slice_id old w db' ≡ (false, db')
unfolding claim_next_slice
claim_fences now token lease_seconds locked worker_id db c old w h fresh =
    elim (Option-cases (next_slice db now locked)) [
      | inl nothing ↦ cc (rw nothing at h)
      | inr (s, found) ↦
          let same : s.slice_id ≡ c.slice_id = claimed_id s c (rw found at h) in
          write_of_IsStale c.slice_id old w _ (
            rw (found, ← same)
              (count_zero (holds_lease s.slice_id old) _ λ r m.
                let (q, _, e) =
                  In-update (λ q. q.slice_id == s.slice_id)
                    (lease now token worker_id lease_seconds) db.slices m in
                rw e (leased-not_held s.slice_id old now token lease_seconds worker_id q fresh)))
    ]
