-- ===== src/DataContext/Readers/Gate.antt =====
-- app/datacontext/readers/__init__.py: the publish gate and the scope, as tests and as statements.
use quant_stock.Base.{
  ℕ, ◌≤◌, ◌≡◌, refl, ◌≢◌, ◌↔◌, ◌⊎◌, inl, inr, Bool, true, false, ◌&&◌, not, String, Option, none,
  some, List, [], ◌∷◌, arith, leb, str_eq, str_eq_iff, if◌then◌else◌, In, here, there, Bool-cases,
}
use quant_stock.DataContext.Query.{
  QualityPolicy, SecurityScope, is_full_market, quality_policy_allowed_statuses, contains,
}

-- quality_column != 'FAILED', or quality_column IN (allowed)
unfoldable pub build_quality_clause : QualityPolicy → String → Bool
unfolding quality_policy_allowed_statuses contains
build_quality_clause QualityPolicy.lenient status = not (str_eq status "FAILED")
build_quality_clause QualityPolicy.strict status =
    contains status (quality_policy_allowed_statuses QualityPolicy.strict)
build_quality_clause QualityPolicy.standard status =
    contains status (quality_policy_allowed_statuses QualityPolicy.standard)

-- the codes of a list that is there and not empty
abbrev pub listed_codes : Option (List String) → Option (List String)
listed_codes none = none
listed_codes (some []) = none
listed_codes (some (c ∷ cs)) = some (c ∷ cs)

unfoldable pub resolve_security_codes : SecurityScope → Option (List String)
resolve_security_codes scope = if is_full_market scope then none else listed_codes scope.codes

-- `if codes is not None: security_code IN codes`
abbrev pub in_codes : Option (List String) → String → Bool
in_codes none code = true
in_codes (some codes) code = contains code codes

abbrev pub not_before : Option ℕ → ℕ → Bool
not_before none d = true
not_before (some start) d = leb start d

abbrev pub not_after : Option ℕ → ℕ → Bool
not_after none d = true
not_after (some end) d = leb d end

-- available_at <= cutoff
abbrev pub no_later : ℕ → ℕ → Bool
no_later cutoff t = leb t cutoff

-- the conditions of every reader: available_at <= cutoff, the publish gate and the scope's codes
abbrev pub passes : ℕ → QualityPolicy → Option (List String) → String → String → ℕ → Bool
passes cutoff policy codes code status t =
    no_later cutoff t && build_quality_clause policy status && in_codes codes code

-- the dates of a query, each bound only if it is given
abbrev pub within : Option ℕ → Option ℕ → ℕ → Bool
within start end d = not_before start d && not_after end d

-- The design of the publish gate: FAILED is never shown, STRICT shows PASSED alone, STANDARD also
-- WARNING, and LENIENT whatever has not failed.
abbrev pub Admits : QualityPolicy → String → Type 0
Admits QualityPolicy.strict status = status ≡ "PASSED"
Admits QualityPolicy.standard status = (status ≡ "PASSED") ⊎ (status ≡ "WARNING")
Admits QualityPolicy.lenient status = status ≢ "FAILED"

-- a list of codes, if there is one, holds the code
abbrev pub InScope : Option (List String) → String → Type 0
InScope none code = Unit
InScope (some codes) code = In code codes

-- a window with open ends
abbrev pub InWindow : Option ℕ → Option ℕ → ℕ → Type 0
InWindow none none d = Unit
InWindow (some a) none d = a ≤ d
InWindow none (some b) d = d ≤ b
InWindow (some a) (some b) d = (a ≤ d) × (d ≤ b)

pub clause_iff :
    (policy : QualityPolicy) (s : String) → (build_quality_clause policy s ≡ true) ↔ Admits policy s
unfolding build_quality_clause
clause_iff QualityPolicy.strict s = ground (arith, str_eq_iff s "PASSED")
clause_iff QualityPolicy.standard s = ground (arith, str_eq_iff s "PASSED", str_eq_iff s "WARNING")
clause_iff QualityPolicy.lenient s = ground (arith, str_eq_iff s "FAILED")

contains-In : (s : String) (xs : List String) → contains s xs ≡ true → In s xs
unfolding contains
contains-In s [] h = cc
contains-In s (x ∷ xs) h = elim (Bool-cases (str_eq s x)) [
  | inl same ↦ here ((str_eq_iff s x).0 same)
  | inr other ↦ there (contains-In s xs (rw other at h))
]

In-contains : (s : String) {xs : List String} → In s xs → contains s xs ≡ true
unfolding contains
In-contains s (here {x = x} {xs = xs} e) = rw ((str_eq_iff s x).1 e)
In-contains s (there {x = x} {xs = xs} m) = rw (In-contains s m) (either (str_eq s x))
  where
    either : (b : Bool) → (if b then true else true) ≡ true
    either true = refl
    either false = refl

pub scope_iff :
    (codes : Option (List String)) (s : String) → (in_codes codes s ≡ true) ↔ InScope codes s
scope_iff none s = (λ _. tt, λ _. refl)
scope_iff (some codes) s = (contains-In s codes, In-contains s)

pub window_iff : (a b : Option ℕ) (d : ℕ) → (within a b d ≡ true) ↔ InWindow a b d
window_iff none none d = (λ _. tt, λ _. refl)
window_iff (some a) none d = ground arith
window_iff none (some b) d = ground arith
window_iff (some a) (some b) d = ground arith

pub passes_iff :
    (cutoff : ℕ) (policy : QualityPolicy) (codes : Option (List String)) (code status : String)
    (t : ℕ)
    → (passes cutoff policy codes code status t ≡ true)
      ↔ ((t ≤ cutoff) × Admits policy status × InScope codes code)
passes_iff cutoff policy codes code status t =
    ground (arith, clause_iff policy status, scope_iff codes code)
