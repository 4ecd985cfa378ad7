-- ===== src/Collect/Scheduler/Exact.antt =====
-- app/collect/scheduler.py, _open_trade_dates: the open days that it reads.
use quant_stock.Base.{
  ◌≡◌, ◌≢◌, ◌≤◌, ◌<◌, ◌↔◌, ◌⊎◌, inl, inr, refl, ap, sym, ◌∙◌, subst, Bool, true, false, String,
  Option, none, some, List, [], ◌∷◌, ◌==◌, str_eq, str_eq_iff, count, In, here, there, In-sort,
  sort-In, IsSorted, IsOrder, sort-IsSorted, count-sort, Bool-cases, arith,
}
use quant_stock.Base.TextOrder.{text_before, text_before_asym, text_before_trans, text_before_total}
use quant_stock.Base.Json.{Json, str, get}
use quant_stock.Collect.Model.{RawRow}
use quant_stock.Collect.Scheduler.Dates.{
  open_date, is_open_day, in_window, keep_date, window_dates, distinct, open_dates,
}

pub text_before_irrefl : (s : String) → text_before s s ≡ false
text_before_irrefl s = elim (Bool-cases (text_before s s)) [
  | inl less ↦ text_before_asym s s less
  | inr not_less ↦ not_less
]

text_before_not_trans :
    (x y z : String) → text_before x y ≡ false → text_before y z ≡ false → text_before x z ≡ false
text_before_not_trans x y z xy yz = elim (Bool-cases (text_before x z)) [
  | inr not_less ↦ not_less
  | inl less ↦ elim (Bool-cases (str_eq x y)) [
    | inl same ↦ let e : x ≡ y = (str_eq_iff x y).0 same in let bad = rw e at less in cc
    | inr differ ↦
        let ne : x ≢ y = λ e. let same = (str_eq_iff x y).1 e in cc in
        elim (text_before_total x y ne) [
          | inl xy_less ↦ cc
          | inr yx_less ↦ let bad = text_before_trans y x z yx_less less in cc
        ]
  ]
]

text_before-IsOrder : IsOrder text_before
text_before-IsOrder = record {
  irrefl = text_before_irrefl;
  asym = text_before_asym;
  not_trans = text_before_not_trans;
}

-- a row of the calendar that says of a day that it is open
abbrev pub SaysOpen : RawRow → String → Type 0
SaysOpen r c =
    (r.item_code ≡ "trade_calendar")
    × (get r.business "is_open" ≡ some (str "1"))
    × (get r.business "cal_date" ≡ some (str c))

-- the day is past the watermark, where there is one
abbrev pub IsPast : Option String → String → Type 0
IsPast none c = Unit {0}
IsPast (some after) c = text_before after c ≡ true

-- an open day of the calendar that is due and past the watermark
abbrev pub IsOpen : Option String → String → List RawRow → String → Type 0
IsOpen after through rows c =
    ((r : RawRow) × In r rows × SaysOpen r c)
    × ((c ≡ through) ⊎ (text_before c through ≡ true))
    × IsPast after c

is_open_day_iff :
    (is_calendar : Bool) (opened day : Option Json) (c : String)
    → (is_open_day is_calendar opened day ≡ some c)
      ↔ ((is_calendar ≡ true) × (opened ≡ some (str "1")) × (day ≡ some (str c)))
is_open_day_iff true (some (str o)) (some (str d)) c = elim (Bool-cases (str_eq o "1")) [
  | inl one ↦
      let e = (str_eq_iff o "1").0 one in
      (
        (λ h. let h' = rw one at h in (refl, ap (λ (x : String). some (str x)) e, cc)),
        (λ (calendar, opened, named). rw one cc),
      )
  | inr differ ↦ (
    (λ h. let h' = rw differ at h in cc),
    (λ (calendar, opened, named). let same : str_eq o "1" ≡ true = (str_eq_iff o "1").1 cc in cc),
  )
]
is_open_day_iff b o d c = (λ h. cc, λ (calendar, opened, named). cc)

open_date_iff : (r : RawRow) (c : String) → (open_date r ≡ some c) ↔ SaysOpen r c
unfolding open_date
open_date_iff r c = (
  λ h.
      let (calendar, opened, day) =
        (is_open_day_iff (str_eq r.item_code "trade_calendar") (get r.business "is_open")
            (get r.business "cal_date") c).0
          h in
      ((str_eq_iff r.item_code "trade_calendar").0 calendar, opened, day),
  λ (calendar, opened, day).
      (is_open_day_iff (str_eq r.item_code "trade_calendar") (get r.business "is_open")
          (get r.business "cal_date") c).1
        ((str_eq_iff r.item_code "trade_calendar").1 calendar, opened, day),
)

due_iff :
    (through c : String)
    → (text_before through c ≡ false) ↔ ((c ≡ through) ⊎ (text_before c through ≡ true))
due_iff through c = (
  λ late. elim (Bool-cases (str_eq c through)) [
    | inl same ↦ inl ((str_eq_iff c through).0 same)
    | inr differ ↦
        let ne : c ≢ through = λ e. let same = (str_eq_iff c through).1 e in cc in
        elim (text_before_total c through ne) [ inl less ↦ inr less | inr more ↦ cc ]
  ],
  λ d. elim d [
    | inl same ↦ rw same (text_before_irrefl through)
    | inr less ↦ text_before_asym c through less
  ],
)

in_window_iff :
    (after : Option String) (through c : String)
    → (in_window after through c ≡ true)
      ↔ (((c ≡ through) ⊎ (text_before c through ≡ true)) × IsPast after c)
in_window_iff none through c =
    let due = due_iff through c in
    (λ h. ((due.0 (ground arith)), tt), λ h. let d = due.1 h.0 in rw d refl)
in_window_iff (some after) through c =
    let due = due_iff through c in
    (
      λ h. ((due.0 (ground arith)), (ground arith)),
      λ (h, past). let d = due.1 h in rw (d, past) refl,
    )

-- the days that the rows name in the window
abbrev IsNamed : Option String → String → List RawRow → String → Type 0
IsNamed after through rows c =
    (r : RawRow) × In r rows × (open_date r ≡ some c) × (in_window after through c ≡ true)

IsNamed-iff :
    (after : Option String) (through : String) (rows : List RawRow) (c : String)
    → IsNamed after through rows c ↔ IsOpen after through rows c
IsNamed-iff after through rows c = (
  λ n.
      let inside = (in_window_iff after through c).0 n.3 in
      ((n.0, n.1, (open_date_iff n.0 c).0 n.2), inside.0, inside.1),
  λ ((r, at, says), due, past).
      (r, at, (open_date_iff r c).1 says, (in_window_iff after through c).1 (due, past)),
)

module _ (after : Option String) (through : String) where
  In-keep_date :
      (o : Option String) {c : String} {rest : List String}
      → In c (keep_date after through o rest)
      → ((o ≡ some c) × (in_window after through c ≡ true)) ⊎ In c rest
  In-keep_date none m = inr m
  In-keep_date (some d) {c = c} m = elim (Bool-cases (in_window after through d)) [
    | inr outside ↦ inr (rw outside at m)
    | inl inside ↦ elim (rw inside at m) [
      | here same ↦ inl (ap some (sym same), ap (in_window after through) same ∙ inside)
      | there later ↦ inr later
    ]
  ]

  keep_date-In :
      (o : Option String) {c : String} {rest : List String}
      → In c rest
      → In c (keep_date after through o rest)
  keep_date-In none m = m
  keep_date-In (some d) m = elim (Bool-cases (in_window after through d)) [
    | inr outside ↦ rw outside m
    | inl inside ↦ rw inside (there m)
  ]

  In-window_dates :
      (rows : List RawRow) {c : String}
      → In c (window_dates after through rows)
      → IsNamed after through rows c
  unfolding window_dates
  In-window_dates [] m = elim m [ ]
  In-window_dates (r ∷ rows) m = elim (In-keep_date (open_date r) m) [
    | inl (day, inside) ↦ (r, here refl, day, inside)
    | inr later ↦
        let (q, at, day, inside) = In-window_dates rows later in (q, there at, day, inside)
  ]

  window_dates-In :
      {c : String} {r : RawRow} {rows : List RawRow}
      → In r rows
      → open_date r ≡ some c
      → in_window after through c ≡ true
      → In c (window_dates after through rows)
  unfolding window_dates
  window_dates-In {c = c} (here {x = x} {xs = xs} same) day inside =
      rw (ap open_date (sym same) ∙ day, inside) (here refl)
  window_dates-In (there {x = x} {xs = xs} at) day inside =
      keep_date-In (open_date x) (window_dates-In at day inside)

In-distinct : (cs : List String) {c : String} → In c (distinct cs) → In c cs
unfolding distinct
In-distinct [] m = m
In-distinct (d ∷ cs) m = elim (Bool-cases (count (str_eq d) (distinct cs) == 0)) [
  | inr known ↦ there (In-distinct cs (rw known at m))
  | inl new ↦ elim (rw new at m) [
    | here same ↦ here same
    | there later ↦ there (In-distinct cs later)
  ]
]

counted-In :
    (p : String → Bool) (cs : List String) → 0 < count p cs → (c : String) × In c cs × (p c ≡ true)
unfolding count
counted-In p [] h = let absurd : ⊥ = omega arith in elim absurd [ ]
counted-In p (c ∷ cs) h = elim (Bool-cases (p c)) [
  | inl found ↦ (c, here refl, found)
  | inr other ↦ let (d, at, found) = counted-In p cs (rw other at h) in (d, there at, found)
]

distinct-In : {c : String} {cs : List String} → In c cs → In c (distinct cs)
unfolding distinct
distinct-In {c = c} (here {x = d} {xs = cs} same) =
    elim (Bool-cases (count (str_eq d) (distinct cs) == 0)) [
      | inl new ↦ rw new (here same)
      | inr known ↦
          let (e, at, equal) = counted-In (str_eq d) (distinct cs) (ground arith) in
          rw known
            (subst (λ (x : String). In x (distinct cs)) (sym (same ∙ (str_eq_iff d e).0 equal)) at)
    ]
distinct-In {c = c} (there {x = d} {xs = cs} at) =
    elim (Bool-cases (count (str_eq d) (distinct cs) == 0)) [
      | inl new ↦ rw new (there (distinct-In at))
      | inr known ↦ rw known (distinct-In at)
    ]

distinct-once : (cs : List String) (c : String) → count (str_eq c) (distinct cs) ≤ 1
unfolding distinct count
distinct-once [] c = omega arith
distinct-once (d ∷ cs) c =
    let rest = distinct-once cs c in
    elim (Bool-cases (count (str_eq d) (distinct cs) == 0)) [
      | inr known ↦ rw known rest
      | inl new ↦ rw new (elim (Bool-cases (str_eq c d)) [
        | inr other ↦ rw other rest
        | inl same ↦
            let alike : c ≡ d = (str_eq_iff c d).0 same in
            let nothing : count (str_eq c) (distinct cs) ≡ 0 = rw alike (ground arith) in
            rw (same, nothing) (omega arith)
      ])
    ]

-- The days that _open_trade_dates reads are exactly those that a row of the collected calendar says are open, that
-- are not after the last day due, and that are after the watermark, where there is one: each is named once, and
-- they stand in ascending order.
pub open_dates_exact :
    (after : Option String) (through : String) (rows : List RawRow)
    → ((c : String)
        → (In c (open_dates after through rows) ↔ IsOpen after through rows c)
          × (count (str_eq c) (open_dates after through rows) ≤ 1))
      × IsSorted text_before (open_dates after through rows)
unfolding open_dates
open_dates_exact after through rows =
    let dates = distinct (window_dates after through rows) in
    (
      (λ c. (
        (
          (λ m. (IsNamed-iff after through rows c).0 (
              In-window_dates after through rows
                (In-distinct (window_dates after through rows) (In-sort text_before dates m)))),
          (λ o.
              let n = (IsNamed-iff after through rows c).1 o in
              sort-In text_before (distinct-In (window_dates-In after through n.1 n.2 n.3))),
        ),
        rw (count-sort text_before (str_eq c) dates)
            (distinct-once (window_dates after through rows) c),
      )),
      sort-IsSorted text_before text_before-IsOrder dates,
    )
