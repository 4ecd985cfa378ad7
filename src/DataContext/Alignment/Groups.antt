-- ===== src/DataContext/Alignment/Groups.antt =====
-- app/datacontext/alignment.py: what _group_by puts together.
use quant_stock.Base.{
  ℕ, ◌≡◌, ◌↔◌, inl, inr, refl, sym, ap, ◌∙◌, Bool, true, false, ◌&&◌, Option, none, some, List, [],
  ◌∷◌, ◌++◌, ◌==◌, str_eq, str_eq_iff, if◌then◌else◌, Bool-cases, &&-eq_true, arith, select,
}
use quant_stock.DataContext.Alignment.{
  GroupKey, week_key, month_key, same_option, same_key, add_row, group_by,
}

same_option_iff : (a b : Option ℕ) → (same_option a b ≡ true) ↔ (a ≡ b)
same_option_iff none none = (λ _. refl, λ _. refl)
same_option_iff none (some b) = (λ h. cc, λ h. cc)
same_option_iff (some a) none = (λ h. cc, λ h. cc)
same_option_iff (some a) (some b) =
    (λ h. ap (λ (n : ℕ). some n) (ground arith), λ h. let e : a ≡ b = cc in ground arith)

same_key_iff : (a b : GroupKey) → (same_key a b ≡ true) ↔ (a ≡ b)
same_key_iff (week_key c w) (week_key d v) = (
  λ h.
      let parts = &&-eq_true _ _ h in
      week_eq ((str_eq_iff c d).0 parts.0) ((same_option_iff w v).0 parts.1),
  λ h. rw ((str_eq_iff c d).1 (cc), (same_option_iff w v).1 (cc)),
)
  where
    week_eq : c ≡ d → w ≡ v → week_key c w ≡ week_key d v
    week_eq p q = cc
same_key_iff (week_key c w) (month_key d y m) = (λ h. cc, λ h. cc)
same_key_iff (month_key c y m) (week_key d v) = (λ h. cc, λ h. cc)
same_key_iff (month_key c y m) (month_key d z n) = (
  λ h.
      let parts = &&-eq_true (str_eq c d) ((y == z) && (m == n)) h in
      month_eq ((str_eq_iff c d).0 parts.0) (ground arith) (ground arith),
  λ h.
      let same_year : y ≡ z = cc in
      let same_month : m ≡ n = cc in
      let same_code : c ≡ d = cc in rw ((str_eq_iff c d).1 same_code) (ground arith),
)
  where
    month_eq : c ≡ d → y ≡ z → m ≡ n → month_key c y m ≡ month_key d z n
    month_eq p q r = cc

-- equal keys compare alike
same_key_congr : (a b k : GroupKey) → same_key a b ≡ true → same_key a k ≡ same_key b k
same_key_congr a b k h = rw ((same_key_iff a b).0 h)

same_key_apart :
    (a b k : GroupKey) → same_key a k ≡ true → same_key a b ≡ false → same_key b k ≡ false
same_key_apart a b k h n = elim (Bool-cases (same_key b k)) [
  | inl met ↦
      let e = (same_key_iff a b).1 ((same_key_iff a k).0 h ∙ sym ((same_key_iff b k).0 met)) in cc
  | inr apart ↦ apart
]

append_nil : {A : Type 0} (xs : List A) → xs ++ [] ≡ xs
append_nil [] = refl
append_nil (x ∷ xs) = ap (λ ys. x ∷ ys) (append_nil xs)

append_assoc : {A : Type 0} (xs ys zs : List A) → (xs ++ ys) ++ zs ≡ xs ++ (ys ++ zs)
append_assoc [] ys zs = refl
append_assoc (x ∷ xs) ys zs = ap (λ us. x ∷ us) (append_assoc xs ys zs)

module _ {A : Type 0} (key : A → GroupKey) where
  -- the rows of the first group that has the key
  abbrev pub rows_of : GroupKey → List (GroupKey × List A) → List A
  rows_of k [] = []
  rows_of k (g ∷ gs) = if same_key g.0 k then g.1 else rows_of k gs

  abbrev one_if : Bool → A → List A
  one_if b r = if b then r ∷ [] else []

  rows_of-add_row :
      (k : GroupKey) (r : A) (gs : List (GroupKey × List A))
      → rows_of k (add_row key r gs) ≡ rows_of k gs ++ one_if (same_key (key r) k) r
  unfolding add_row
  rows_of-add_row k r [] = refl
  rows_of-add_row k r (g ∷ gs) = elim (Bool-cases (same_key g.0 (key r))) [
    | inl same ↦
        rw (same, sym (same_key_congr g.0 (key r) k same)) (grown (same_key g.0 k) (rows_of k gs))
    | inr other ↦ elim (Bool-cases (same_key g.0 k)) [
      | inl mine ↦ rw (other, mine, same_key_apart g.0 (key r) k mine other) (sym (append_nil g.1))
      | inr not_mine ↦ rw (other, not_mine) (rows_of-add_row k r gs)
    ]
  ]
    where
      grown :
          (b : Bool) (rest : List A)
          → (if b then g.1 ++ r ∷ [] else rest) ≡ (if b then g.1 else rest) ++ one_if b r
      grown true rest = refl
      grown false rest = sym (append_nil rest)

  rows_of-group_by :
      (k : GroupKey) (rs : List A) (gs : List (GroupKey × List A))
      → rows_of k (group_by key rs gs) ≡ rows_of k gs ++ select (λ r. same_key (key r) k) rs
  unfolding group_by select
  rows_of-group_by k [] gs = sym (append_nil _)
  rows_of-group_by k (r ∷ rs) gs =
      rw
        (
          rows_of-group_by k rs (add_row key r gs),
          rows_of-add_row k r gs,
          append_assoc (rows_of k gs) (one_if (same_key (key r) k) r)
              (select (λ r. same_key (key r) k) rs),
        )
        (ap (λ xs. rows_of k gs ++ xs) (joined (same_key (key r) k)))
    where
      joined :
          (b : Bool)
          → one_if b r ++ select (λ r. same_key (key r) k) rs ≡ (
              if b
              then r ∷ select (λ r. same_key (key r) k) rs
              else select (λ r. same_key (key r) k) rs)
      joined true = refl
      joined false = refl

  -- The group that is found under a key holds exactly the rows that have the key, each as often as it
  -- is given and in the order in which the rows are given.
  pub group_by-eq-select :
      (k : GroupKey) (rows : List A)
      → rows_of k (group_by key rows []) ≡ select (λ r. same_key (key r) k) rows
  group_by-eq-select k rows = rows_of-group_by k rows []
