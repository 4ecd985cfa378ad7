-- ===== src/DataContext/Snapshot/Inputs.antt =====
-- app/datacontext/snapshot_builder.py: which batches a snapshot freezes.
use quant_stock.Base.{
  ℕ, ◌≡◌, ◌≤◌, ◌↔◌, ◌⊎◌, inl, inr, refl, Bool, true, false, ◌&&◌, not, String, Option, none, some,
  List, [], ◌∷◌, ◌==◌, str_eq_iff, if◌then◌else◌, is_none, select, In, here, there, In-select,
  select-In, Bool-cases, &&-eq_true, ap, ◌∙◌, map, arith,
}
use quant_stock.Base.Result.{Result, ok, err, ◌>>=◌}
use quant_stock.DataContext.Query.{TimeMode, DateTime, contains}
use quant_stock.DataContext.Cutoff.{
  resolve_cutoff, IsAdmissible, CutoffOutcome, resolve_cutoff_exact,
}
use quant_stock.DataContext.Snapshot.{
  ItemRow, DataSnapshot, DataSnapshotInput, input_of, item_ids, is_empty, build_at, build_snapshot,
  PublishedBatch, holds_id, published_by, is_candidate, is_unverified, included_batches,
}

holds_id_iff : (n : ℕ) (ids : List ℕ) → (holds_id n ids ≡ true) ↔ In n ids
unfolding holds_id
holds_id_iff n [] = (λ h. cc, λ m. elim m [ ])
holds_id_iff n (i ∷ ids) = (
  λ h. elim (Bool-cases (n == i)) [
    | inl same ↦ here (ground arith)
    | inr other ↦ there ((holds_id_iff n ids).0 (rw other at h))
  ],
  found (λ m. (holds_id_iff n ids).1 m),
)
  where
    either : (b : Bool) → (if b then true else true) ≡ true
    either true = refl
    either false = refl

    found :
        (In n ids → holds_id n ids ≡ true)
        → In n (i ∷ ids)
        → (if n == i then true else holds_id n ids) ≡ true
    found rest (here e) = let same : (n == i) ≡ true = ground arith in rw same
    found rest (there m) = rw (rest m) (either (n == i))

none_iff : {A : Type 0} (o : Option A) → (is_none o ≡ true) ↔ (o ≡ none)
none_iff none = (λ _. refl, λ _. refl)
none_iff (some a) = (λ h. cc, λ h. cc)

abbrev pub PublishedBy : ℕ → Option ℕ → Type 0
PublishedBy cutoff none = Unit
PublishedBy cutoff (some t) = t ≤ cutoff

published_by-PublishedBy :
    (cutoff : ℕ) (t : Option ℕ) → (published_by cutoff t ≡ true) ↔ PublishedBy cutoff t
published_by-PublishedBy cutoff none = (λ _. tt, λ _. refl)
published_by-PublishedBy cutoff (some t) = ground arith

-- a batch of an item asked for, published and current at the cutoff, with a quality run behind it
abbrev pub IsAdmitted : List ℕ → ℕ → PublishedBatch → Type 0
IsAdmitted ids cutoff b =
    In b.data_item_id ids
    × (b.status ≡ "PUBLISHED")
    × (b.superseded_at ≡ none)
    × PublishedBy cutoff b.published_at
    × (is_none b.published_quality_run_id ≡ false)

is_candidate-IsAdmitted :
    (ids : List ℕ) (cutoff : ℕ) (b : PublishedBatch)
    → ((is_candidate ids cutoff b && not (is_unverified b)) ≡ true) ↔ IsAdmitted ids cutoff b
is_candidate-IsAdmitted ids cutoff b = ground (
  arith,
  holds_id_iff b.data_item_id ids,
  str_eq_iff b.status "PUBLISHED",
  none_iff b.superseded_at,
  published_by-PublishedBy cutoff b.published_at,
)

map_iff :
    {A B : Type 0} (f : A → B) (xs : List A) (y : B)
    → In y (map f xs) ↔ ((x : A) × In x xs × (y ≡ f x))
map_iff {A = A} f xs y = (back xs, λ h. forth h.1 h.2)
  where
    back : (xs : List A) → In y (map f xs) → (x : A) × In x xs × (y ≡ f x)
    back [] m = elim m [ ]
    back (x ∷ xs) (here e) = (x, here refl, e)
    back (x ∷ xs) (there m) = let h = back xs m in (h.0, there h.1, h.2)

    forth : {x : A} {xs : List A} → In x xs → y ≡ f x → In y (map f xs)
    forth (here e) p = here (p ∙ ap f e)
    forth (there m) p = there (forth m p)

included_batches-IsAdmitted :
    (ids : List ℕ) (cutoff : ℕ) (batches : List PublishedBatch) (b : PublishedBatch)
    → In b (included_batches ids cutoff batches) ↔ (In b batches × IsAdmitted ids cutoff b)
unfolding included_batches
included_batches-IsAdmitted ids cutoff batches b = (
  λ m.
      let outer =
        In-select (λ c. not (is_unverified c)) (select (is_candidate ids cutoff) batches) m in
      let inner = In-select (is_candidate ids cutoff) batches outer.0 in
      (inner.0, (is_candidate-IsAdmitted ids cutoff b).0 (rw (inner.1, outer.1))),
  λ h.
      let parts =
        &&-eq_true (is_candidate ids cutoff b) (not (is_unverified b))
          ((is_candidate-IsAdmitted ids cutoff b).1 h.1) in
      select-In (λ c. not (is_unverified c)) (select-In (is_candidate ids cutoff) h.0 parts.0)
        parts.1,
)

-- no code asks for no item
item_ids-none : (items : List ItemRow) → item_ids [] items ≡ []
unfolding item_ids select contains
item_ids-none [] = refl
item_ids-none (i ∷ items) = item_ids-none items

empty-cases {ℓ} : {A : Type ℓ} (xs : List A) → (xs ≡ []) ⊎ (is_empty xs ≡ false)
empty-cases [] = inl refl
empty-cases (x ∷ xs) = inr refl

module _ (text_before : String → String → Bool) (digest : List String → String) (now : ℕ)
    (items : List ItemRow) (batches : List PublishedBatch) (codes : List String) (as_of : DateTime)
    (policy adjustment : String) (requested : Option DateTime) where
  -- what a build may answer
  abbrev pub SnapshotOutcome : Result (DataSnapshot × List DataSnapshotInput) → Type 0
  SnapshotOutcome (ok (s, inputs)) =
      (s.status ≡ "READY")
      × ((d : ℕ)
          → IsAdmissible now TimeMode.backtest (some as_of) requested d
            ↔ (d ≤ s.available_at_cutoff))
      × ((i : DataSnapshotInput)
          → In i inputs ↔ (
              (b : PublishedBatch) × (In b batches
                × IsAdmitted (item_ids codes items) s.available_at_cutoff b)
              × (i ≡ input_of policy as_of s.available_at_cutoff b)))
  SnapshotOutcome (err e) = item_ids codes items ≡ []

  inputs_iff :
      (cutoff : ℕ) (i : DataSnapshotInput)
      → In i (
          map
            (input_of policy as_of cutoff)
            (included_batches (item_ids codes items) cutoff batches))
        ↔ ((b : PublishedBatch) × (In b batches × IsAdmitted (item_ids codes items) cutoff b)
            × (i ≡ input_of policy as_of cutoff b))
  inputs_iff cutoff i =
      let rows = included_batches (item_ids codes items) cutoff batches in
      let mapped = map_iff (input_of policy as_of cutoff) rows i in
      (
        λ m.
            let h = mapped.0 m in
            (
              h.0,
              (included_batches-IsAdmitted (item_ids codes items) cutoff batches h.0).0 h.1,
              h.2,
            ),
        λ h. mapped.1 (
          h.0,
          (included_batches-IsAdmitted (item_ids codes items) cutoff batches h.0).1 h.1,
          h.2,
        ),
      )

  -- a build at a cutoff up to which the instants are admissible
  build_at_exact :
      (cutoff : ℕ)
      → ((d : ℕ) → IsAdmissible now TimeMode.backtest (some as_of) requested d ↔ (d ≤ cutoff))
      → SnapshotOutcome
          (build_at text_before digest items batches codes as_of policy adjustment cutoff)
  unfolding build_at
  build_at_exact cutoff h = elim (empty-cases codes) [
    | inl none_given ↦ rw none_given (item_ids-none items)
    | inr given ↦ elim (empty-cases (item_ids codes items)) [
      | inl none_found ↦ rw (given, ap is_empty none_found) none_found
      | inr found ↦ rw (given, found) (refl, h, inputs_iff cutoff)
    ]
  ]

  never_refused : ¬ ((d : ℕ) → ¬ IsAdmissible now TimeMode.backtest (some as_of) requested d)
  never_refused h = h 0 (ground arith)

  -- A build either raises, and then no item has one of the codes, or answers a READY snapshot at the
  -- latest admissible cutoff whose inputs refer to exactly the batches of those items that were
  -- published by then or have no time of publication, are PUBLISHED and not superseded, and have a
  -- quality run behind them.
  pub build_snapshot_exact :
      SnapshotOutcome (
        build_snapshot text_before digest now items batches codes as_of policy adjustment requested)
  unfolding build_snapshot
  build_snapshot_exact =
      outcome (resolve_cutoff now TimeMode.backtest (some as_of) requested)
        (resolve_cutoff_exact now TimeMode.backtest (some as_of) requested)
    where
      outcome :
          (x : Result ℕ)
          → CutoffOutcome now TimeMode.backtest (some as_of) requested x
          → SnapshotOutcome
              (x >>= build_at text_before digest items batches codes as_of policy adjustment)
      outcome (err e) h = elim (never_refused h) [ ]
      outcome (ok c) h = build_at_exact c h
