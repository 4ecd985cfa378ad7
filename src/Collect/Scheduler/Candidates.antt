-- ===== src/Collect/Scheduler/Candidates.antt =====
-- app/collect/scheduler.py, _schedule_definition: the business dates that a scan goes through.
use quant_stock.Base.{
  ◌≡◌, ◌≢◌, ◌↔◌, refl, ap, sym, ◌∙◌, subst, inl, inr, ℕ, false, String, Option, none, some, List,
  [], ◌∷◌, str_eq, str_eq_iff, In, here, there, IsSorted, Bool-cases,
}
use quant_stock.Base.Result.{ok, ok_or_err}
use quant_stock.Base.TextOrder.{text_before, text_before_total}
use quant_stock.Base.Calendar.{ymd}
use quant_stock.Collect.Model.{Store}
use quant_stock.Collect.Scheduler.Dates.{parse_date, parse_dates, open_dates}
use quant_stock.Collect.Scheduler.Exact.{IsOpen, open_dates_exact, text_before_irrefl}
use quant_stock.Collect.Scheduler.{ymd_of, open_trade_dates, last_one, candidates_of}

-- a list of dates that is read has a first date that is read
parse_dates_cons :
    (c : String) (cs : List String) {ds : List ℕ}
    → parse_dates (c ∷ cs) ≡ ok ds
    → (d : ℕ) × (rest : List ℕ) × (parse_date c ≡ ok d)
      × (parse_dates cs ≡ ok rest)
      × (ds ≡ d ∷ rest)
unfolding parse_dates
parse_dates_cons c cs h = elim (ok_or_err (parse_date c)) [
  | inr (e, bad) ↦ let h' = rw bad at h in cc
  | inl (d, good) ↦ elim (ok_or_err (parse_dates cs)) [
    | inr (e, bad) ↦ let h' = rw (good, bad) at h in cc
    | inl (rest, fine) ↦ let h' = rw (good, fine) at h in (d, rest, good, fine, cc)
  ]
]

parse_dates_nil : {ds : List ℕ} → parse_dates [] ≡ ok ds → ds ≡ []
unfolding parse_dates
parse_dates_nil h = cc

In-parse_dates :
    (cs : List String) {ds : List ℕ} {d : ℕ}
    → parse_dates cs ≡ ok ds
    → In d ds
    → (c : String) × In c cs × (parse_date c ≡ ok d)
In-parse_dates [] {d = d} h m = elim (subst (λ (xs : List ℕ). In d xs) (parse_dates_nil h) m) [ ]
In-parse_dates (c ∷ cs) {d = d} h m =
    let (e, rest, read, others, same) = parse_dates_cons c cs h in
    elim (subst (λ (xs : List ℕ). In d xs) same m) [
      | here first ↦ (c, here refl, read ∙ ap ok (sym first))
      | there later ↦ let (b, at, found) = In-parse_dates cs others later in (b, there at, found)
    ]

parse_dates-In :
    {c : String} {cs : List String} {ds : List ℕ} {d : ℕ}
    → parse_dates cs ≡ ok ds
    → In c cs
    → parse_date c ≡ ok d
    → In d ds
parse_dates-In h (here {x = x} {xs = cs} same) read =
    let (e, rest, read', others, eq) = parse_dates_cons x cs h in rw eq (here cc)
parse_dates-In h (there {x = x} {xs = cs} at) read =
    let (e, rest, read', others, eq) = parse_dates_cons x cs h in
    rw eq (there (parse_dates-In others at read))

-- the last date that is read is the last text
parse_dates-last_one :
    (cs : List String) {ds : List ℕ}
    → parse_dates cs ≡ ok ds
    → parse_dates (last_one cs) ≡ ok (last_one ds)
unfolding last_one
parse_dates-last_one [] h = let e = parse_dates_nil h in h ∙ ap ok (e ∙ sym (ap last_one e))
parse_dates-last_one (x ∷ []) h =
    let (d, rest, read, others, same) = parse_dates_cons x [] h in
    let e = same ∙ ap (λ (xs : List ℕ). d ∷ xs) (parse_dates_nil others) in
    h ∙ ap ok (e ∙ sym (ap last_one e))
parse_dates-last_one (x ∷ y ∷ ys) h =
    let (d, rest, read, others, same) = parse_dates_cons x (y ∷ ys) h in
    let (d', rest', read', others', same') = parse_dates_cons y ys others in
    let e = same ∙ ap (λ (xs : List ℕ). d ∷ xs) same' in
    parse_dates-last_one (y ∷ ys) others ∙ ap ok (ap last_one same' ∙ sym (ap last_one e))

unordered : (c d : String) → text_before c d ≡ false → text_before d c ≡ false → c ≡ d
unordered c d no_later no_earlier = elim (Bool-cases (str_eq c d)) [
  | inl same ↦ (str_eq_iff c d).0 same
  | inr differ ↦
      let ne : c ≢ d = λ e. let same = (str_eq_iff c d).1 e in cc in
      elim (text_before_total c d ne) [ inl less ↦ cc | inr more ↦ cc ]
]

module _ {c : String} where
  In-last_one :
      (cs : List String)
      → IsSorted text_before cs
      → In c (last_one cs)
      → In c cs × ((b : String) → In b cs → text_before c b ≡ false)
  unfolding last_one
  In-last_one [] s m = elim m [ ]
  In-last_one (x ∷ []) s (here e) =
      (here e, λ b n. elim n [ here k ↦ rw (e, k) (text_before_irrefl x) | there l ↦ elim l [ ] ])
  In-last_one (x ∷ []) s (there l) = elim l [ ]
  In-last_one (x ∷ y ∷ ys) s m =
      let (at, latest) = In-last_one (y ∷ ys) s.1 m in
      (there at, λ b n. elim n [ here k ↦ rw k (s.0 c at) | there l ↦ latest b l ])

  last_one-In :
      (cs : List String)
      → IsSorted text_before cs
      → In c cs
      → ((b : String) → In b cs → text_before c b ≡ false)
      → In c (last_one cs)
  unfolding last_one
  last_one-In [] s m latest = elim m [ ]
  last_one-In (x ∷ []) s m latest = m
  last_one-In (x ∷ y ∷ ys) s (there m) latest =
      last_one-In (y ∷ ys) s.1 m (λ b n. latest b (there n))
  last_one-In (x ∷ y ∷ ys) s (here e) latest =
      let no_later = latest y (there (here refl)) in
      let no_earlier : text_before y c ≡ false = rw e (s.0 y (here refl)) in
      last_one-In (y ∷ ys) s.1 (here (unordered c y no_later no_earlier))
        (λ b n. latest b (there n))

-- Without a watermark, no open day that is due comes later.
abbrev pub IsLatest : Store → Option ℕ → ℕ → String → Type 0
IsLatest db none through c =
    (b : String) → IsOpen none (ymd through) db.raw_rows b → text_before c b ≡ false
IsLatest db (some day) through c = Unit {0}

-- a day of the calendar that a scan goes through
abbrev pub IsCandidate : Store → Option ℕ → ℕ → ℕ → Type 0
IsCandidate db after through d =
    (c : String) × IsOpen (ymd_of after) (ymd through) db.raw_rows c
    × (parse_date c ≡ ok d)
    × IsLatest db after through c

-- The business dates that a scan goes through, when the dates of the calendar can be read, are exactly the days
-- that a row of the collected calendar says are open, that are not after the last day due, and that are after the
-- day of the watermark; and where there is no watermark, only the latest of these.
pub candidates_of_exact :
    (db : Store) (after : Option ℕ) (through : ℕ) {dates : List ℕ}
    → open_trade_dates db after through ≡ ok dates
    → (d : ℕ) → In d (candidates_of after dates) ↔ IsCandidate db after through d
unfolding open_trade_dates candidates_of
candidates_of_exact db (some day) through {dates = dates} h d =
    let named = open_dates_exact (some (ymd day)) (ymd through) db.raw_rows in
    let days = open_dates (some (ymd day)) (ymd through) db.raw_rows in
    (
      (λ m. let (c, at, read) = In-parse_dates days h m in (c, ((named.0 c).0.0 at), read, tt)),
      (λ (c, opened, read, past). parse_dates-In h ((named.0 c).0.1 opened) read),
    )
candidates_of_exact db none through {dates = dates} h d =
    let named = open_dates_exact none (ymd through) db.raw_rows in
    let days = open_dates none (ymd through) db.raw_rows in
    (
      (λ m.
          let (c, at, read) = In-parse_dates (last_one days) (parse_dates-last_one days h) m in
          let (member, latest) = In-last_one days named.1 at in
          (c, ((named.0 c).0.0 member), read, λ b o. latest b ((named.0 b).0.1 o))),
      (λ (c, opened, read, latest).
          parse_dates-In (parse_dates-last_one days h)
            (last_one-In days named.1 ((named.0 c).0.1 opened) λ b n. latest b ((named.0 b).0.0 n))
            read),
    )
