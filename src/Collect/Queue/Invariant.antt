-- ===== src/Collect/Queue/Invariant.antt =====
-- What holds of every slice, whatever steps the queue takes.
use quant_stock.Base.{
  ◌≡◌, refl, sym, ap, ◌∙◌, subst, inl, inr, true, false, List, arith, if◌then◌else◌, is_none,
  Bool-cases, In, In-update,
}
use quant_stock.Collect.Model.{RequestSlice, Store}
use quant_stock.Collect.Repository.{slice_is_queued, slice_is_running}
use quant_stock.Collect.Queue.Leases.{beat}
use quant_stock.Collect.Queue.Recovering.{IsKeyed}
use quant_stock.Collect.Queue.Steps.{
  Change, same, leased, wrote, Sweep, Step, Step-Sweep, Reach, here, next,
}

pub Change-slice_id : {r r' : RequestSlice} → Change r r' → r'.slice_id ≡ r.slice_id
Change-slice_id same = refl
Change-slice_id (wrote (beat _ _) h) = refl
Change-slice_id (wrote _ h) = refl
Change-slice_id _ = refl

-- each new row is an old row, unchanged or changed in one of the ways of a step
abbrev pub Changes : List RequestSlice → List RequestSlice → Type 0
Changes old new = (r' : RequestSlice) → In r' new → (r : RequestSlice) × In r old × Change r r'

pub Sweep-Changes : {old new : List RequestSlice} → Sweep old new → Changes old new
Sweep-Changes {old} {new} w r' m =
    let (r, member, e) = In-update w.passes w.write_row old (rw w.swept at m) in
    (r, member, subst (Change r) (sym e) (row r member))
  where
    row : (r : RequestSlice) → In r old → Change r (if w.passes r then w.write_row r else r)
    row r member = elim (Bool-cases (w.passes r)) [
      | inl passed ↦ rw passed (w.change r member passed)
      | inr kept ↦ rw kept same
    ]

Sweep-IsKeyed : {old new : List RequestSlice} → Sweep old new → IsKeyed old → IsKeyed new
Sweep-IsKeyed {old} {new} w keyed a b ma mb e =
    let (r, mr, er) = In-update w.passes w.write_row old (rw w.swept at ma) in
    let (s, ms, es) = In-update w.passes w.write_row old (rw w.swept at mb) in
    let one : r ≡ s = keyed r s mr ms (
      sym (kept_id r mr)
      ∙ sym (ap (λ (q : RequestSlice). q.slice_id) er)
      ∙ e
      ∙ ap (λ (q : RequestSlice). q.slice_id) es
      ∙ kept_id s ms) in
    er ∙ ap (λ q. if w.passes q then w.write_row q else q) one ∙ sym es
  where
    kept_id :
        (r : RequestSlice)
        → In r old
        → (if w.passes r then w.write_row r else r).slice_id ≡ r.slice_id
    kept_id r member = elim (Bool-cases (w.passes r)) [
      | inl passed ↦ rw passed (Change-slice_id (w.change r member passed))
      | inr kept ↦ rw kept
    ]

-- A RUNNING slice has an owner, a token and an end of its lease; a queued or failed one has none.
pub record IsSound (s : RequestSlice) : Type 0 where
  pub held :
      slice_is_running s.status ≡ true
      → (is_none s.leased_by ≡ false)
        × (is_none s.lease_token ≡ false)
        × (is_none s.lease_expires_at ≡ false)
  pub free :
      slice_is_queued s.status ≡ true
      → (is_none s.leased_by ≡ true)
        × (is_none s.lease_token ≡ true)
        × (is_none s.lease_expires_at ≡ true)

Change-IsSound : {r r' : RequestSlice} → Change r r' → IsSound r → IsSound r'
Change-IsSound same h = h
Change-IsSound (leased now token worker n q) h = ground arith
Change-IsSound (wrote (beat _ _) q) h = ground arith
Change-IsSound (wrote _ q) h = ground arith
Change-IsSound _ h = ground arith

pub record Inv (db : Store) : Type 0 where
  pub keyed : IsKeyed db.slices
  pub sound : (s : RequestSlice) → In s db.slices → IsSound s

-- Every step keeps the invariant.
pub Step-Inv : {db db' : Store} → Step db db' → Inv db → Inv db'
Step-Inv {db} {db'} step inv =
    let sweep = Step-Sweep inv.keyed step in
    record {
      keyed = Sweep-IsKeyed sweep inv.keyed;
      sound = λ r' m.
          let (r, member, change) = Sweep-Changes sweep r' m in
          Change-IsSound change (inv.sound r member);
    }

-- In every database that the queue reaches from a sound one, by any sequence of claims, writes,
-- recoveries, aborts and operator requests, `slice_id` is a key, each RUNNING slice has an owner, a
-- token and an end of its lease, and each queued slice has none of them.
pub Reach-Inv : {db db' : Store} → Inv db → Reach db db' → Inv db'
Reach-Inv inv here = inv
Reach-Inv inv (next r step) = Step-Inv step (Reach-Inv inv r)
