-- ===== src/Collect/Queue/Recovering.antt =====
-- `recover_expired_claims` loops over the expired leases; on a table with its primary key the loop
-- does to the slices what one UPDATE would do.
use quant_stock.Base.{
  ℕ, ◌≡◌, refl, sym, ap, ◌∙◌, inl, inr, Bool, true, false, ◌&&◌, ◌||◌, not, List, [], ◌∷◌, arith,
  ◌==◌, if◌then◌else◌, Bool-cases, update, select, In, here, there, ==_iff, In-select, select-In,
  update-update, update_congr, update_none,
}
use quant_stock.Collect.Model.{RequestSlice, Store}
use quant_stock.Collect.Recovery.{
  requeue, recover_slice, recover_all, is_expired_claim, recover_expired_claims,
}

-- slice_id is a key of the table
abbrev pub IsKeyed : List RequestSlice → Type 0
IsKeyed slices = (r s : RequestSlice) → In r slices → In s slices → r.slice_id ≡ s.slice_id → r ≡ s

module _ (stored : Store) where
  slices-recover_slice :
      (now : ℕ) (s : RequestSlice) (db : Store)
      → (recover_slice now stored s db).slices
        ≡ update (λ r. r.slice_id == s.slice_id) (requeue now) db.slices
  unfolding recover_slice
  slices-recover_slice now s db = ground arith

-- the ids of the rows that the loop runs over
unfoldable pub listed : List RequestSlice → RequestSlice → Bool
listed [] r = false
listed (s ∷ rows) r = r.slice_id == s.slice_id || listed rows r

listed-requeue :
    (now : ℕ) (rows : List RequestSlice) (r : RequestSlice)
    → listed rows (requeue now r) ≡ listed rows r
unfolding listed
listed-requeue now [] r = refl
listed-requeue now (s ∷ rows) r = rw (listed-requeue now rows r)

fuse :
    (now : ℕ) (s : RequestSlice) (rows : List RequestSlice) (a : RequestSlice)
    → let a' = (if a.slice_id == s.slice_id then requeue now a else a) in
      (if listed rows a' then requeue now a' else a')
      ≡ (if a.slice_id == s.slice_id || listed rows a then requeue now a else a)
fuse now s rows a = elim (Bool-cases (a.slice_id == s.slice_id)) [
  | inl same ↦ rw (same, listed-requeue now rows a) (again (listed rows a))
  | inr other ↦ rw other
]
  where
    again : (b : Bool) → (if b then requeue now (requeue now a) else requeue now a) ≡ requeue now a
    again true = refl
    again false = refl

module _ (stored : Store) where
  slices-recover_all :
      (now : ℕ) (rows : List RequestSlice) (db : Store)
      → (recover_all now stored rows db).slices ≡ update (listed rows) (requeue now) db.slices
  unfolding recover_all listed
  slices-recover_all now [] db = sym (update_none (requeue now) db.slices)
  slices-recover_all now (s ∷ rows) db =
      slices-recover_all now rows (recover_slice now stored s db)
      ∙ ap (update (listed rows) (requeue now)) (slices-recover_slice stored now s db)
      ∙ update-update (λ r. r.slice_id == s.slice_id) (listed rows)
          (λ r. r.slice_id == s.slice_id || listed rows r) (requeue now) (requeue now) (requeue now)
          db.slices (fuse now s rows)

listed-In : {r : RequestSlice} {rows : List RequestSlice} → In r rows → listed rows r ≡ true
unfolding listed
listed-In {r} (here {x = s} {xs = rows} e) = ground (arith, ap (λ (q : RequestSlice). q.slice_id) e)
listed-In {r} (there {x = s} {xs = rows} m) = ground (arith, listed-In m)

In-listed :
    (r : RequestSlice) (rows : List RequestSlice)
    → listed rows r ≡ true
    → (s : RequestSlice) × In s rows × (r.slice_id ≡ s.slice_id)
unfolding listed
In-listed r [] h = cc
In-listed r (s ∷ rows) h = elim (Bool-cases (r.slice_id == s.slice_id)) [
  | inl same ↦ (s, here refl, (==_iff _ _).0 same)
  | inr other ↦ let (q, m, e) = In-listed r rows (rw other at h) in (q, there m, e)
]

-- the WHERE clause, with the rows that other transactions hold skipped
abbrev pub is_recovered : ℕ → (RequestSlice → Bool) → RequestSlice → Bool
is_recovered now locked s = is_expired_claim now s && not (locked s)

listed-select :
    (p : RequestSlice → Bool) (slices : List RequestSlice)
    → IsKeyed slices
    → (r : RequestSlice) → In r slices
    → listed (select p slices) r ≡ p r
listed-select p slices keyed r m = elim (Bool-cases (p r)) [
  | inl passes ↦ rw passes (listed-In (select-In p m passes))
  | inr fails ↦ elim (Bool-cases (listed (select p slices) r)) [
    | inl found ↦
        let (s, selected, e) = In-listed r (select p slices) found in
        let (m', passes) = In-select p slices selected in
        let same : r ≡ s = keyed r s m m' e in cc (ap p same)
    | inr absent ↦ rw (fails, absent)
  ]
]

-- Where `slice_id` is a key, the loop over the expired leases leaves the slices as one UPDATE would:
-- each RUNNING slice whose lease has ended, and that nobody has locked, goes back to RETRY_WAIT with
-- no lease, due at once, and every other slice stays as it is.
pub recover_expired_claims-eq-update :
    (now : ℕ) (locked : RequestSlice → Bool) (db : Store)
    → IsKeyed db.slices
    → (recover_expired_claims now locked db).1.slices
      ≡ update (is_recovered now locked) (requeue now) db.slices
unfolding recover_expired_claims
recover_expired_claims-eq-update now locked db keyed =
    slices-recover_all db now (select (is_recovered now locked) db.slices) db
    ∙ update_congr (listed (select (is_recovered now locked) db.slices)) (is_recovered now locked)
        (requeue now) db.slices (listed-select (is_recovered now locked) db.slices keyed)

-- a test of the key
unfoldable pub is_keyed : List RequestSlice → Bool
unfolding listed
is_keyed [] = true
is_keyed (s ∷ slices) = not (listed slices s) && is_keyed slices

listed_of_id :
    (s : RequestSlice) {r : RequestSlice} {rows : List RequestSlice}
    → In r rows
    → s.slice_id ≡ r.slice_id
    → listed rows s ≡ true
unfolding listed
listed_of_id s {r} (here {x = x} {xs = rows} e) k =
    ground (arith, ap (λ (q : RequestSlice). q.slice_id) e)
listed_of_id s {r} (there {x = x} {xs = rows} m) k = ground (arith, listed_of_id s m k)

unlisted :
    (s : RequestSlice) (rows : List RequestSlice)
    → is_keyed (s ∷ rows) ≡ true
    → (listed rows s ≡ false) × (is_keyed rows ≡ true)
unfolding is_keyed
unlisted s rows h = ground arith

pub is_keyed-IsKeyed : (slices : List RequestSlice) → is_keyed slices ≡ true → IsKeyed slices
is_keyed-IsKeyed [] h r s m n e = elim m [ ]
is_keyed-IsKeyed (x ∷ xs) h r s (here a) (here b) e = a ∙ sym b
is_keyed-IsKeyed (x ∷ xs) h r s (here a) (there n) e =
    cc ((unlisted x xs h).0, listed_of_id x n (ap (λ (q : RequestSlice). q.slice_id) (sym a) ∙ e))
is_keyed-IsKeyed (x ∷ xs) h r s (there m) (here b) e =
    cc (
      (unlisted x xs h).0,
      listed_of_id x m (ap (λ (q : RequestSlice). q.slice_id) (sym b) ∙ sym e),
    )
is_keyed-IsKeyed (x ∷ xs) h r s (there m) (there n) e =
    is_keyed-IsKeyed xs (unlisted x xs h).1 r s m n e
