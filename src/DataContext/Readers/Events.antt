-- ===== src/DataContext/Readers/Events.antt =====
-- app/datacontext/readers/event.py: which events a query is answered with.
use quant_stock.Base.{
  ℕ, ◌≤◌, ◌≡◌, ◌≢◌, refl, ap, ◌↔◌, inl, inr, Bool, true, false, String, List, [], ◌∷◌, ◌++◌, map,
  if◌then◌else◌, here, there, arith, In, In-append, In-append_left, In-append_right,
}
use quant_stock.Base.Result.{Result, ok, err, ◌>>=◌}
use quant_stock.DataContext.Query.{QueryContext}
use quant_stock.DataContext.Cutoff.{CutoffOutcome, resolve_cutoff_exact}
use quant_stock.DataContext.Readers.{
  SuspendRow, LimitRow, EventRow, suspend, limit_price, context_cutoff, suspend_visible,
  read_suspend, limit_visible, read_limit_price, read_events, asks_for,
}
use quant_stock.DataContext.Readers.Gate.{InWindow, resolve_security_codes}
use quant_stock.DataContext.Readers.Answer.{Admissible, Shown, answer_iff, seen_iff}

abbrev pub SuspendSeen : ℕ → QueryContext → SuspendRow → Type 0
SuspendSeen now q r =
    Shown now q (resolve_security_codes q.security_scope) r.security_code r.quality_status
      r.available_at
    × InWindow q.start_date q.end_date r.trade_date

suspend_right :
    (now : ℕ) (q : QueryContext) (c : ℕ)
    → ((d : ℕ) → Admissible now q d ↔ (d ≤ c))
    → (r : SuspendRow) → (suspend_visible c q r ≡ true) ↔ SuspendSeen now q r
unfolding suspend_visible
suspend_right now q c h r =
    seen_iff now q c h _ r.security_code r.quality_status r.available_at q.start_date q.end_date
      r.trade_date

module _ {Num : Type 0} (now : ℕ) (q : QueryContext) where
  abbrev pub LimitSeen : LimitRow Num → Type 0
  LimitSeen r =
      Shown now q (resolve_security_codes q.security_scope) r.security_code r.quality_status
        r.available_at
      × InWindow q.start_date q.end_date r.trade_date

  -- an event of a family that is asked for, shown as a row of that family's table
  abbrev pub EventSeen : List SuspendRow → List (LimitRow Num) → EventRow Num → Type 0
  EventSeen suspends limits (suspend r) =
      (asks_for "suspend" q.event_type ≡ true) × In r suspends × SuspendSeen now q r
  EventSeen suspends limits (limit_price r) =
      (asks_for "limit_price" q.event_type ≡ true) × In r limits × LimitSeen r

  limit_right :
      (c : ℕ)
      → ((d : ℕ) → Admissible now q d ↔ (d ≤ c))
      → (r : LimitRow Num) → (limit_visible c q r ≡ true) ↔ LimitSeen r
  unfolding limit_visible
  limit_right c h r =
      seen_iff now q c h _ r.security_code r.quality_status r.available_at q.start_date q.end_date
        r.trade_date

-- the rows of one family in the merged answer, `f` marking the family
module _ {A E : Type 0} (f : A → E) (injective : (x y : A) → f x ≡ f y → x ≡ y) where
  In-map : {r : A} {xs : List A} → In r xs → In (f r) (map f xs)
  In-map (here e) = here (ap f e)
  In-map (there m) = there (In-map m)

  map-In : {r : A} (xs : List A) → In (f r) (map f xs) → In r xs
  map-In [] m = elim m [ ]
  map-In {r} (x ∷ xs) (here e) = here (injective r x e)
  map-In (x ∷ xs) (there m) = there (map-In xs m)

  part_iff :
      (wanted : Bool) (r : A) (xs : List A)
      → In (f r) (if wanted then map f xs else []) ↔ ((wanted ≡ true) × In r xs)
  part_iff true r xs = (λ m. (refl, map-In xs m), λ h. In-map h.1)
  part_iff false r xs = (λ m. elim m [ ], λ h. cc)

  module _ {B : Type 0} (g : B → E) (apart : (x : A) (y : B) → f x ≢ g y) where
    no_other : {r : A} (ys : List B) → ¬ In (f r) (map g ys)
    no_other [] m = elim m [ ]
    no_other {r} (y ∷ ys) (here e) = apart r y e
    no_other (y ∷ ys) (there m) = no_other ys m

    other_part :
        (wanted : Bool) {r : A} (ys : List B) → ¬ In (f r) (if wanted then map g ys else [])
    other_part true ys m = no_other ys m
    other_part false ys m = elim m [ ]

module _ {Num : Type 0} (a b : Bool) (xs : List SuspendRow) (ys : List (LimitRow Num)) where
  merged : List (EventRow Num)
  merged = (if a then map suspend xs else []) ++ (if b then map limit_price ys else [])

  merged-suspend : (r : SuspendRow) → In (suspend r) merged ↔ ((a ≡ true) × In r xs)
  unfolding merged
  merged-suspend r = (
    λ m. elim (In-append _ _ m) [
      | inl here_a ↦ (part_iff suspend (λ x y e. cc) a r xs).0 here_a
      | inr there_b ↦
          elim (other_part suspend (λ x y e. cc) limit_price (λ x y e. cc) b ys there_b) [ ]
    ],
    λ h. In-append_left _ ((part_iff suspend (λ x y e. cc) a r xs).1 h),
  )

  merged-limit_price : (r : LimitRow Num) → In (limit_price r) merged ↔ ((b ≡ true) × In r ys)
  unfolding merged
  merged-limit_price r = (
    λ m. elim (In-append _ _ m) [
      | inl here_a ↦
          elim (other_part limit_price (λ x y e. cc) suspend (λ x y e. cc) a xs here_a) [ ]
      | inr there_b ↦ (part_iff limit_price (λ x y e. cc) b r ys).0 there_b
    ],
    λ h. In-append_right _ ((part_iff limit_price (λ x y e. cc) b r ys).1 h),
  )

suspend_answer :
    (code_before : String → String → Bool) (c : ℕ) (q : QueryContext) (suspends : List SuspendRow)
    (r : SuspendRow)
    → In r (read_suspend code_before c q suspends)
      ↔ (In r suspends × (suspend_visible c q r ≡ true))
unfolding read_suspend
suspend_answer code_before c q suspends r = answer_iff _ (suspend_visible c q) suspends r

module _ {Num : Type 0} (code_before : String → String → Bool) (now : ℕ) where
  -- what `read_events` may answer
  abbrev pub EventAnswer :
      List SuspendRow → List (LimitRow Num) → QueryContext → Result (List (EventRow Num)) → Type 0
  EventAnswer suspends limits q (ok rows) =
      (e : EventRow Num) → In e rows ↔ EventSeen now q suspends limits e
  EventAnswer suspends limits q (err e) = (d : ℕ) → ¬ Admissible now q d

  limit_answer :
      (c : ℕ) (q : QueryContext) (limits : List (LimitRow Num)) (r : LimitRow Num)
      → In r (read_limit_price code_before now c q limits)
        ↔ (In r limits × (limit_visible c q r ≡ true))
  unfolding read_limit_price
  limit_answer c q limits r = answer_iff _ (limit_visible c q) limits r

  event_iff :
      (suspends : List SuspendRow) (limits : List (LimitRow Num)) (q : QueryContext) (c : ℕ)
      → ((d : ℕ) → Admissible now q d ↔ (d ≤ c))
      → (e : EventRow Num)
      → In e (
          merged
            (asks_for "suspend" q.event_type)
            (asks_for "limit_price" q.event_type)
            (read_suspend code_before c q suspends)
            (read_limit_price code_before now c q limits))
        ↔ EventSeen now q suspends limits e
  event_iff suspends limits q c h (suspend r) = ground (
    arith,
    merged-suspend (asks_for "suspend" q.event_type) (asks_for "limit_price" q.event_type)
        (read_suspend code_before c q suspends) (read_limit_price code_before now c q limits) r,
    suspend_answer code_before c q suspends r,
    suspend_right now q c h r,
  )
  event_iff suspends limits q c h (limit_price r) = ground (
    arith,
    merged-limit_price (asks_for "suspend" q.event_type) (asks_for "limit_price" q.event_type)
        (read_suspend code_before c q suspends) (read_limit_price code_before now c q limits) r,
    limit_answer c q limits r,
    limit_right now q c h r,
  )

  -- An event query is answered with exactly the suspensions and price limits, of the families it asks
  -- for, that were available at an instant admissible to it, that pass the publish gate, and whose
  -- code and date it asks for; it raises only where no instant is admissible.
  pub read_events_exact :
      (suspends : List SuspendRow) (limits : List (LimitRow Num)) (q : QueryContext)
      → EventAnswer suspends limits q (read_events code_before now suspends limits q)
  unfolding read_events merged
  read_events_exact suspends limits q =
      outcome (context_cutoff now q)
        (resolve_cutoff_exact now q.time_mode q.as_of_time q.available_at_cutoff)
    where
      outcome :
          (x : Result ℕ)
          → CutoffOutcome now q.time_mode q.as_of_time q.available_at_cutoff x
          → EventAnswer suspends limits q (
              x >>= λ c. ok (
                (if asks_for "suspend" q.event_type
                  then map suspend (read_suspend code_before c q suspends)
                  else [])
                ++ (if asks_for "limit_price" q.event_type
                    then map limit_price (read_limit_price code_before now c q limits)
                    else [])))
      outcome (err e) h = h
      outcome (ok c) h = event_iff suspends limits q c h
