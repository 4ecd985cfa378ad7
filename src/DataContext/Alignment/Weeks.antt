-- ===== src/DataContext/Alignment/Weeks.antt =====
-- app/datacontext/alignment.py: the weeks that the calendar is cut into.
use quant_stock.Base.{
  ℕ, ◌≡◌, inl, inr, refl, Bool, true, false, Option, none, some, List, [], ◌∷◌, ltb, ◌==◌,
  if◌then◌else◌, In, here, there, Bool-cases, arith,
}
use quant_stock.DataContext.Alignment.{
  insert_day, sorted_days, next_week, week_index, trading_week_index, week_of,
}

insert_day-In : (d : ℕ) (ds : List ℕ) → In d (insert_day d ds)
unfolding insert_day
insert_day-In d [] = here refl
insert_day-In d (e ∷ es) = elim (Bool-cases (d == e)) [
  | inl same ↦ rw same (here (ground arith))
  | inr other ↦ elim (Bool-cases (ltb d e)) [
    | inl less ↦ rw (other, less) (here refl)
    | inr more ↦ rw (other, more) (there (insert_day-In d es))
  ]
]

any_branch :
    (a b : Bool) (d : ℕ) {x : ℕ} {kept placed : List ℕ}
    → In x kept
    → In x placed
    → In x (if a then kept else (if b then d ∷ kept else placed))
any_branch true b d m n = m
any_branch false true d m n = there m
any_branch false false d m n = n

In-insert_day : (d : ℕ) {x : ℕ} {ds : List ℕ} → In x ds → In x (insert_day d ds)
unfolding insert_day
In-insert_day d (here {x = e} {xs = es} p) = any_branch (d == e) (ltb d e) d (here p) (here p)
In-insert_day d (there {x = e} {xs = es} m) =
    any_branch (d == e) (ltb d e) d (there m) (there (In-insert_day d m))

sorted_days-In : {d : ℕ} {calendar : List ℕ} → In d calendar → In d (sorted_days calendar)
unfolding sorted_days
sorted_days-In (here {x = e} {xs = es} p) = rw p (insert_day-In e (sorted_days es))
sorted_days-In (there {x = e} {xs = es} m) = In-insert_day e (sorted_days-In m)

same_week : (current : ℕ) (previous : Option ℕ) (d : ℕ) → next_week current previous d ≡ current
same_week current none d = refl
same_week current (some p) d = refl

week_constant :
    (current : ℕ) {d : ℕ} (previous : Option ℕ) {ds : List ℕ}
    → In d ds
    → week_of (week_index current previous ds) d ≡ some current
unfolding week_index week_of
week_constant current {d} previous (here {x = e} {xs = es} p) =
    let same : (e == d) ≡ true = ground arith in rw same (rw (same_week current previous e))
week_constant current {d} previous (there {x = e} {xs = es} m) =
    rw (same_week current previous e, week_constant current (some e) m) (either (e == d))
  where
    either : (b : Bool) → (if b then some current else some current) ≡ some current
    either true = refl
    either false = refl

-- Every day of the calendar is put into the week 0, whatever days the calendar leaves out.
pub trading_week_index_constant :
    (calendar : List ℕ) {d : ℕ} → In d calendar → week_of (trading_week_index calendar) d ≡ some 0
unfolding trading_week_index
trading_week_index_constant calendar m = week_constant 0 none (sorted_days-In m)
