-- ===== src/Collect/Queue/Steps.antt =====
-- Everything that the repository and the operator do to the queue, as one step relation: which row
-- changes a step can make, and what holds of the slices in every state that is reached.
use quant_stock.Base.{
  none, ℕ, ◌≡◌, sym, ◌∙◌, subst, ◌⊎◌, inl, inr, Bool, true, false, String, Option, some, List,
  arith, ◌==◌, Option-cases, update, In, first, ==_iff, &&-eq_true, update_none, first-eq_some,
}
use quant_stock.Base.Result.{Result, ok, err}
use quant_stock.Collect.Model.{CollectTask, RequestSlice, Store}
use quant_stock.Collect.Repository.{
  ClaimedSlice, slice_is_queued, slice_is_running, claimable, lease, next_slice, claim_next_slice,
  holds_lease, guarded_update,
}
use quant_stock.Collect.Recovery.{
  requeue, recover_expired_claims, fail_row, fail_claim_after_unhandled,
}
use quant_stock.Collect.Queue.Claiming.{next_slice-IsNext}
use quant_stock.Collect.Queue.Leases.{Write, write, written, write-eq-guarded_update}
use quant_stock.Collect.Queue.Recovering.{IsKeyed, is_recovered, recover_expired_claims-eq-update}
use quant_stock.Ops.Service.{
  pause_task, resume_task, cancel_task, retry_task, is_queued_of, cancel_row, is_failed_of,
  retry_row, slice_is_failed,
}

-- how a row may change
pub data Change (r : RequestSlice) : RequestSlice → Type 0 where
  same : Change r r
  leased :
      (now token : ℕ) (worker : String) (n : ℕ)
      → slice_is_queued r.status ≡ true
      → Change r (lease now token worker n r)
  wrote : (w : Write) → slice_is_running r.status ≡ true → Change r (written w r)
  requeued : (now : ℕ) → slice_is_running r.status ≡ true → Change r (requeue now r)
  aborted :
      (error_type : String) → slice_is_running r.status ≡ true → Change r (fail_row error_type r)
  dropped : slice_is_queued r.status ≡ true → Change r (cancel_row r)
  retried : slice_is_failed r.status ≡ true → Change r (retry_row r)

-- the new table is one UPDATE of the old, each changed row changed in one of these ways
pub record Sweep (old new : List RequestSlice) : Type 0 where
  pub passes : RequestSlice → Bool
  pub write_row : RequestSlice → RequestSlice
  pub change : (r : RequestSlice) → In r old → passes r ≡ true → Change r (write_row r)
  pub swept : new ≡ update passes write_row old

-- The operator's requests; a ValueError leaves the database as it was.
pub data Request : Type 0 where
  pause : ℕ → ℕ → Option String → Request
  resume : ℕ → Request
  cancel : ℕ → ℕ → Option String → Request
  retry : ℕ → Option String → Request

unfoldable pub perform : Request → Store → Result (Option CollectTask × Store)
perform (pause now task_id reason) db = pause_task now task_id reason db
perform (resume task_id) db = resume_task task_id db
perform (cancel now task_id reason) db = cancel_task now task_id reason db
perform (retry task_id reason) db = retry_task task_id reason db

abbrev pub committed : Result (Option CollectTask × Store) → Store → Store
committed (ok (t, db')) db = db'
committed (err e) db = db

pub data Step (db : Store) : Store → Type 0 where
  claim :
      (now token : ℕ) (locked : RequestSlice → Bool) (worker : String) (n : ℕ)
      → Step db (claim_next_slice now token locked worker n db).1
  hold : (slice_id token : ℕ) (w : Write) → Step db (write slice_id token w db).1
  recover :
      (now : ℕ) (locked : RequestSlice → Bool) → Step db (recover_expired_claims now locked db).1
  abort :
      (now : ℕ) (c : ClaimedSlice) (worker error_type message : String)
      → Step db (fail_claim_after_unhandled now c worker error_type message db)
  operate : (q : Request) → Step db (committed (perform q db) db)

pub data Reach (db : Store) : Store → Type 0 where
  here : Reach db db
  next : {a b : Store} → Reach db a → Step a b → Reach db b

claimable-queued :
    (db : Store) (now : ℕ) (s : RequestSlice)
    → claimable db now s ≡ true
    → slice_is_queued s.status ≡ true
unfolding claimable
claimable-queued db now s h = ground arith

running_of_holds :
    (slice_id token : ℕ) (s : RequestSlice)
    → holds_lease slice_id token s ≡ true
    → slice_is_running s.status ≡ true
running_of_holds slice_id token s h = ground arith

running_of_recovered :
    (now : ℕ) (locked : RequestSlice → Bool) (s : RequestSlice)
    → is_recovered now locked s ≡ true
    → slice_is_running s.status ≡ true
running_of_recovered now locked s h = ground arith

pub slices-pause :
    (now i : ℕ) (reason : Option String) (db : Store)
    → (committed (pause_task now i reason db) db).slices ≡ db.slices
unfolding pause_task
slices-pause now i reason db = ground arith

slices-resume : (i : ℕ) (db : Store) → (committed (resume_task i db) db).slices ≡ db.slices
unfolding resume_task
slices-resume i db = ground arith

-- Either nothing is written, or all the rows that the request is about.
slices-cancel :
    (now i : ℕ) (reason : Option String) (db : Store)
    → ((committed (cancel_task now i reason db) db).slices ≡ db.slices)
      ⊎ ((committed (cancel_task now i reason db) db).slices
          ≡ update (is_queued_of i) cancel_row db.slices)
unfolding cancel_task
slices-cancel now i reason db = ground arith

slices-retry :
    (i : ℕ) (reason : Option String) (db : Store)
    → ((committed (retry_task i reason db) db).slices ≡ db.slices)
      ⊎ ((committed (retry_task i reason db) db).slices
          ≡ update (is_failed_of i) retry_row db.slices)
unfolding retry_task
slices-retry i reason db = ground arith

-- Without a row under the token nothing is written.
pub slices-abort_none :
    (now : ℕ) (c : ClaimedSlice) (worker error_type message : String) (db : Store)
    → first (holds_lease c.slice_id c.lease_token) db.slices ≡ none
    → (fail_claim_after_unhandled now c worker error_type message db).slices ≡ db.slices
unfolding fail_claim_after_unhandled
slices-abort_none now c worker error_type message db nothing = rw nothing

pub slices-abort_some :
    (now : ℕ) (c : ClaimedSlice) (worker error_type message : String) (db : Store)
    {s : RequestSlice}
    → first (holds_lease c.slice_id c.lease_token) db.slices ≡ some s
    → (fail_claim_after_unhandled now c worker error_type message db).slices
      ≡ update (λ r. r.slice_id == s.slice_id) (fail_row error_type) db.slices
unfolding fail_claim_after_unhandled
slices-abort_some now c worker error_type message db found = rw found (ground arith)

slices-abort :
    (now : ℕ) (c : ClaimedSlice) (worker error_type message : String) (db : Store)
    → ((fail_claim_after_unhandled now c worker error_type message db).slices ≡ db.slices)
      ⊎ ((s : RequestSlice) × (first (holds_lease c.slice_id c.lease_token) db.slices ≡ some s)
          × ((fail_claim_after_unhandled now c worker error_type message db).slices
              ≡ update (λ r. r.slice_id == s.slice_id) (fail_row error_type) db.slices))
slices-abort now c worker error_type message db =
    elim (Option-cases (first (holds_lease c.slice_id c.lease_token) db.slices)) [
      | inl nothing ↦ inl (slices-abort_none now c worker error_type message db nothing)
      | inr (s, found) ↦ inr (s, found, slices-abort_some now c worker error_type message db found)
    ]

Sweep-of_eq : {old new : List RequestSlice} → new ≡ old → Sweep old new
Sweep-of_eq {old} e = record {
  passes = λ _. false;
  write_row = λ r. r;
  change = λ r m h. same;
  swept = e ∙ sym (update_none (λ r. r) old);
}

-- an UPDATE of the rows with the key of one row
Sweep-of_key :
    (s : RequestSlice) (f : RequestSlice → RequestSlice) {old new : List RequestSlice}
    → IsKeyed old
    → In s old
    → Change s (f s)
    → new ≡ update (λ r. r.slice_id == s.slice_id) f old
    → Sweep old new
Sweep-of_key s f keyed member change e = record {
  passes = λ r. r.slice_id == s.slice_id;
  write_row = f;
  change = λ r m h.
      subst (λ q. Change q (f q)) (keyed s r member m (sym ((==_iff r.slice_id s.slice_id).0 h)))
        change;
  swept = e;
}

operate-Sweep : (q : Request) (db : Store) → Sweep db.slices (committed (perform q db) db).slices
unfolding perform
operate-Sweep (pause now i reason) db = Sweep-of_eq (slices-pause now i reason db)
operate-Sweep (resume i) db = Sweep-of_eq (slices-resume i db)
operate-Sweep (cancel now i reason) db = elim (slices-cancel now i reason db) [
  | inl kept ↦ Sweep-of_eq kept
  | inr e ↦ record {
    passes = is_queued_of i;
    write_row = cancel_row;
    change = λ r m h. dropped (&&-eq_true _ _ h).1;
    swept = e;
  }
]
operate-Sweep (retry i reason) db = elim (slices-retry i reason db) [
  | inl kept ↦ Sweep-of_eq kept
  | inr e ↦ record {
    passes = is_failed_of i;
    write_row = retry_row;
    change = λ r m h. retried (&&-eq_true _ _ h).1;
    swept = e;
  }
]

pub Step-Sweep : {db db' : Store} → IsKeyed db.slices → Step db db' → Sweep db.slices db'.slices
unfolding claim_next_slice guarded_update
Step-Sweep {db} keyed (claim now token locked worker n) =
    elim (Option-cases (next_slice db now locked)) [
      | inl nothing ↦ Sweep-of_eq (rw nothing)
      | inr (s, found) ↦
          let chosen = (next_slice-IsNext db now locked found).candidate in
          Sweep-of_key s (lease now token worker n) keyed chosen.0
            (leased now token worker n (claimable-queued db now s chosen.1)) (rw found)
    ]
Step-Sweep {db} keyed (hold slice_id token w) = record {
  passes = holds_lease slice_id token;
  write_row = written w;
  change = λ r m h. wrote w (running_of_holds slice_id token r h);
  swept = rw (write-eq-guarded_update slice_id token w);
}
Step-Sweep {db} keyed (recover now locked) = record {
  passes = is_recovered now locked;
  write_row = requeue now;
  change = λ r m h. requeued now (running_of_recovered now locked r h);
  swept = recover_expired_claims-eq-update now locked db keyed;
}
Step-Sweep {db} keyed (abort now c worker error_type message) =
    elim (slices-abort now c worker error_type message db) [
      | inl kept ↦ Sweep-of_eq kept
      | inr (s, found, e) ↦
          let (member, held) =
            first-eq_some (holds_lease c.slice_id c.lease_token) db.slices found in
          Sweep-of_key s (fail_row error_type) keyed member
            (aborted error_type (running_of_holds c.slice_id c.lease_token s held)) e
    ]
Step-Sweep {db} keyed (operate q) = operate-Sweep q db
