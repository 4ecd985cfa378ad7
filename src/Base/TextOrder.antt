-- ===== src/Base/TextOrder.antt =====
-- Python's order on texts, by code points, as `sorted` uses it on the keys of a dict.
use Prim.Native.Nat.{ℕ}
use Prim.Native.Char.{code}
use Prim.Native.String.{String}
use mathlib.Core.Path.{◌≡◌, refl}
use mathlib.Core.Logic.{◌⊎◌, inl, inr, ◌≢◌}
use mathlib.Core.Bool.{Bool, true, false}
use mathlib.Core.List.{List, [], ◌∷◌}
use native.Mathlib.Omega.{arith}
use text.Mathlib.TextEquality.{Char-path}
use quant_stock.Base.Tests.{ltb, ◌==◌, if◌then◌else◌, Bool-cases}
use quant_stock.Base.Text.{codes}

codes_before : List ℕ → List ℕ → Bool
codes_before [] [] = false
codes_before [] (y ∷ ys) = true
codes_before (x ∷ xs) [] = false
codes_before (x ∷ xs) (y ∷ ys) = let rest = codes_before xs ys in if x == y then rest else ltb x y

unfoldable pub text_before : String → String → Bool
unfolding codes_before
text_before s t = codes_before (codes s) (codes t)

asym : (xs ys : List ℕ) → codes_before xs ys ≡ true → codes_before ys xs ≡ false
unfolding codes_before
asym [] [] h = cc
asym [] (y ∷ ys) h = refl
asym (x ∷ xs) [] h = cc
asym (x ∷ xs) (y ∷ ys) h = ground (arith, asym xs ys)

trans :
    (xs ys zs : List ℕ)
    → codes_before xs ys ≡ true
    → codes_before ys zs ≡ true
    → codes_before xs zs ≡ true
unfolding codes_before
trans [] [] zs h k = cc
trans [] (y ∷ ys) [] h k = cc
trans [] (y ∷ ys) (z ∷ zs) h k = refl
trans (x ∷ xs) [] zs h k = cc
trans (x ∷ xs) (y ∷ ys) [] h k = cc
trans (x ∷ xs) (y ∷ ys) (z ∷ zs) h k = ground (arith, trans xs ys zs)

tri : (xs ys : List ℕ) → codes_before xs ys ≡ false → codes_before ys xs ≡ false → xs ≡ ys
unfolding codes_before
tri [] [] h k = refl
tri [] (y ∷ ys) h k = cc
tri (x ∷ xs) [] h k = cc
tri (x ∷ xs) (y ∷ ys) h k = elim (Bool-cases (x == y)) [
  | inl same ↦ let e : x ≡ y = ground arith in let rest : xs ≡ ys = ground (arith, tri xs ys) in cc
  | inr other ↦ ground arith
]

codes_inj : (s t : String) → codes s ≡ codes t → s ≡ t
codes_inj String.[] String.[] h = refl
codes_inj String.[] (String.◌∷◌ d t) h = cc
codes_inj (String.◌∷◌ c s) String.[] h = cc
codes_inj (String.◌∷◌ c s) (String.◌∷◌ d t) h =
    let first : code c ≡ code d = cc in
    let rest : codes s ≡ codes t = cc in
    let same_char = Char-path c d first in let same_rest = codes_inj s t rest in cc

pub text_before_asym : (s t : String) → text_before s t ≡ true → text_before t s ≡ false
unfolding text_before
text_before_asym s t = asym (codes s) (codes t)

pub text_before_trans :
    (s t u : String) → text_before s t ≡ true → text_before t u ≡ true → text_before s u ≡ true
unfolding text_before
text_before_trans s t u = trans (codes s) (codes t) (codes u)

-- of two texts that differ, one comes first
pub text_before_total : (s t : String) → s ≢ t → (text_before s t ≡ true) ⊎ (text_before t s ≡ true)
unfolding text_before
text_before_total s t ne = elim (Bool-cases (codes_before (codes s) (codes t))) [
  | inl less ↦ inl less
  | inr not_less ↦ elim (Bool-cases (codes_before (codes t) (codes s))) [
    | inl more ↦ inr more
    | inr not_more ↦ absurd (ne (codes_inj s t (tri (codes s) (codes t) not_less not_more)))
  ]
]
