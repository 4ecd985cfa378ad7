-- ===== src/Governance/MinuteRules/Grid.antt =====
-- app/governance/minute_rules.py: which minutes a trading day has.
use quant_stock.Base.{
  ℕ, zero, suc, ◌+◌, ◌*◌, ◌-◌, ◌≡◌, ◌≤◌, ◌<◌, ◌↔◌, ◌≢◌, ◌⊎◌, inl, inr, true, String, List, ◌∷◌,
  ◌++◌, leb, str_eq, str_eq_iff, In, here, there, In-append, In-append_left, In-append_right,
  Bool-cases, length, length-append, arith,
}
use quant_stock.Base.Result.{Result, ok, err}
use quant_stock.Governance.MinuteRules.{at_time, minutes_until, session, expected_minute_grid}

In-minutes_until : (fuel t end : ℕ) {x : ℕ} → In x (minutes_until fuel t end) → (t ≤ x) × (x ≤ end)
unfolding minutes_until
In-minutes_until zero t end m = elim m [ ]
In-minutes_until (suc fuel) t end m = elim (Bool-cases (leb t end)) [
  | inl more ↦ step (ground arith) (λ r. In-minutes_until fuel (t + 1) end r) (rw more at m)
  | inr over ↦ elim (rw over at m) [ ]
]
  where
    step :
        {x : ℕ} {rest : List ℕ}
        → t ≤ end
        → (In x rest → (t + 1 ≤ x) × (x ≤ end))
        → In x (t ∷ rest)
        → (t ≤ x) × (x ≤ end)
    step low later (here e) = ground arith
    step low later (there r) = let k = later r in ground arith

-- enough fuel reaches every minute up to the end
minutes_until-In :
    (fuel t end x : ℕ) → end < t + fuel → t ≤ x → x ≤ end → In x (minutes_until fuel t end)
unfolding minutes_until
minutes_until-In zero t end x enough low high = let absurd : ⊥ = omega arith in elim absurd [ ]
minutes_until-In (suc fuel) t end x enough low high = elim (cases t x low) [
  | inl same ↦ rw more (here same)
  | inr later ↦
      rw more (there (minutes_until-In fuel (t + 1) end x (omega arith) (omega arith) high))
]
  where
    more : leb t end ≡ true
    more = ground arith

    cases : (t x : ℕ) → t ≤ x → (x ≡ t) ⊎ (t < x)
    cases t x low = ground arith

length-minutes_until :
    (fuel t end : ℕ) → end < t + fuel → length (minutes_until fuel t end) ≡ (end + 1) - t
unfolding minutes_until
length-minutes_until zero t end enough = omega arith
length-minutes_until (suc fuel) t end enough = elim (Bool-cases (leb t end)) [
  | inl more ↦
      rw more (let rest = length-minutes_until fuel (t + 1) end (omega arith) in ground arith)
  | inr over ↦ rw over (ground arith)
]

session_iff : (start end x : ℕ) → start ≤ end → In x (session start end) ↔ ((start ≤ x) × (x ≤ end))
session_iff start end x proper = (
  In-minutes_until ((end + 1) - start) start end,
  λ h. minutes_until-In ((end + 1) - start) start end x (omega arith) h.0 h.1,
)

-- a minute of one of the two sessions
abbrev pub IsTradingMinute : ℕ → ℕ → Type 0
IsTradingMinute day x =
    ((day * 1440 + 570 ≤ x) × (x ≤ day * 1440 + 690))
    ⊎ ((day * 1440 + 781 ≤ x) × (x ≤ day * 1440 + 900))

abbrev pub GridOutcome : ℕ → String → Result (List ℕ) → Type 0
GridOutcome day frequency (ok grid) =
    (length grid ≡ 241) × ((x : ℕ) → In x grid ↔ IsTradingMinute day x)
GridOutcome day frequency (err e) = frequency ≢ "1min"

-- The grid of a day at "1min" has 241 times, and a time is in it exactly if it is a minute of that day
-- from 9:30 to 11:30 or from 13:01 to 15:00; for every other frequency the code raises.
pub expected_minute_grid_exact :
    (day : ℕ) (frequency : String) → GridOutcome day frequency (expected_minute_grid day frequency)
unfolding expected_minute_grid
expected_minute_grid_exact day frequency = elim (Bool-cases (str_eq frequency "1min")) [
  | inl formal ↦ rw formal (size, λ x. member x)
  | inr other ↦ rw other (λ e. let same = (str_eq_iff frequency "1min").1 e in cc)
]
  where
    morning : List ℕ
    morning = session (at_time day 9 30) (at_time day 11 30)

    afternoon : List ℕ
    afternoon = session (at_time day 13 1) (at_time day 15 0)

    size : length (morning ++ afternoon) ≡ 241
    size =
        let first =
          length-minutes_until ((at_time day 11 30 + 1) - at_time day 9 30) (at_time day 9 30)
            (at_time day 11 30) (omega arith) in
        let second =
          length-minutes_until ((at_time day 15 0 + 1) - at_time day 13 1) (at_time day 13 1)
            (at_time day 15 0) (omega arith) in
        omega (arith, length-append morning afternoon)

    member : (x : ℕ) → In x (morning ++ afternoon) ↔ IsTradingMinute day x
    member x =
        let first = session_iff (at_time day 9 30) (at_time day 11 30) x (omega arith) in
        let second = session_iff (at_time day 13 1) (at_time day 15 0) x (omega arith) in
        (
          λ m. elim (In-append morning afternoon m) [
            | inl a ↦ inl (let k = first.0 a in ground arith)
            | inr b ↦ inr (let k = second.0 b in ground arith)
          ],
          λ h. elim h [
            | inl a ↦ In-append_left afternoon (first.1 (ground arith))
            | inr b ↦ In-append_right morning (second.1 (ground arith))
          ],
        )
