-- ===== src/Indicator/Regime/Smooth/Daily.antt =====
-- A change of the smoothed daily state lasts.
use cryptotips.Indicator.Regime.Segments.Cover.{state_eq_iff}
use cryptotips.Indicator.Regime.Smooth.{smooth_days, smooth_days_loop, count_state}
use cryptotips.Base.{
  ap, length-take, refl, sym, inr, if_rule, leb→le, inl, Bool-cases, leb, if◌then◌else◌, zero, suc,
  [], arith, take, ◌+◌, ◌≡◌, ◌≤◌, length, ◌∷◌, ◌≢◌, List, ℕ,
}
use cryptotips.Indicator.Regime.Features.{state_eq, State}

count-count :
    (s t : State) (xs : List State) → s ≢ t → count_state s xs + count_state t xs ≤ length xs
count-count s t [] h = omega arith
count-count s t (x ∷ xs) h =
    ground (arith, state_eq_iff x s, state_eq_iff x t, count-count s t xs h)

count-take : (s : State) (n : ℕ) (xs : List State) → count_state s (take n xs) ≤ count_state s xs
count-take s zero xs = omega arith
count-take s (suc n) [] = omega arith
count-take s (suc n) (x ∷ xs) = ground (arith, count-take s n xs)

-- Behind a day of state `prev`, a new state holds for three days, or to the end of the slice.
abbrev pub Persists : State → List State → Type 0
Persists prev [] = Unit
Persists prev (a ∷ []) = Unit
Persists prev (a ∷ b ∷ []) = a ≢ prev → b ≡ a
Persists prev (a ∷ b ∷ c ∷ rest) = (a ≢ prev → (b ≡ a) × (c ≡ a)) × Persists a (b ∷ c ∷ rest)

count-cons : (t x : State) (xs : List State) → count_state t (x ∷ xs) ≤ suc (count_state t xs)
count-cons t x xs = ground arith

count-skip : (t s : State) (xs : List State) → s ≢ t → count_state t (s ∷ xs) ≡ count_state t xs
count-skip t s xs h = ground (arith, state_eq_iff s t)

-- A state with too few days in the window gives way to the state before.
gives_way :
    (s t : State) (window : List State)
    → (s ≢ t → count_state t window ≤ 3)
    → (if leb 4 (count_state t window) then t else s) ≡ s
gives_way s t window h = elim (Bool-cases (state_eq s t)) [
  | inl same ↦
      if_rule (λ r. r ≡ s) (leb 4 (count_state t window)) (λ _. sym ((state_eq_iff s t).0 same))
        λ _. refl
  | inr differ ↦
      if_rule (λ r. r ≡ s) (leb 4 (count_state t window))
        (λ e. absurd (omega (arith, h (λ q. cc ((state_eq_iff s t).1 q)), leb→le _ _ e))) λ _. refl
]

module _ (s : State) (before : List State) (four : length before ≤ 4)
    (won : 4 ≤ count_state s (s ∷ before)) where
  -- The days before a change have at most one other state.
  few : (t : State) → s ≢ t → count_state t before ≤ 1
  few t ne = omega (arith, count-count s t before ne, count-cons s s before)

  -- The day behind a change keeps its state, and so does the one behind that.
  second_day : (t : State) → (if leb 4 (count_state t (t ∷ s ∷ take 3 before)) then t else s) ≡ s
  second_day t = gives_way s t (t ∷ s ∷ take 3 before) λ ne. omega (
    arith,
    count-cons t t (s ∷ take 3 before),
    count-skip t s (take 3 before) ne,
    count-take t 3 before,
    few t ne,
  )

  third_day :
      (t u : State)
      → (if leb 4 (count_state u (u ∷ t ∷ s ∷ take 2 (take 3 before))) then u else s) ≡ s
  third_day t u = gives_way s u (u ∷ t ∷ s ∷ take 2 (take 3 before)) λ ne. omega (
    arith,
    count-cons u u (t ∷ s ∷ take 2 (take 3 before)),
    count-cons u t (s ∷ take 2 (take 3 before)),
    count-skip u s (take 2 (take 3 before)) ne,
    count-take u 2 (take 3 before),
    count-take u 3 before,
    few u ne,
  )

length-smooth_days_loop :
    (before : List State) (prev : State) (states : List State)
    → length (smooth_days_loop before prev states) ≡ length states
unfolding smooth_days_loop
length-smooth_days_loop before prev [] = refl
length-smooth_days_loop before prev (s ∷ states) = ap suc (
    length-smooth_days_loop (s ∷ take 3 before)
      (if leb 4 (count_state s (s ∷ before)) then s else prev) states)

smooth_days_loop-Persists :
    (before : List State) (prev : State) (states : List State)
    → length before ≤ 4
    → Persists prev (smooth_days_loop before prev states)
unfolding smooth_days_loop
smooth_days_loop-Persists before prev [] h = tt
smooth_days_loop-Persists before prev (s ∷ []) h = tt
smooth_days_loop-Persists before prev (s ∷ t ∷ []) h =
    elim (Bool-cases (leb 4 (count_state s (s ∷ before)))) [
      | inl won ↦ rw won λ _. second_day s before h (leb→le _ _ won) t
      | inr lost ↦ rw lost λ ne. absurd (ne refl)
    ]
smooth_days_loop-Persists before prev (s ∷ t ∷ u ∷ states) h = (
  elim (Bool-cases (leb 4 (count_state s (s ∷ before)))) [
    | inl won ↦ rw won λ _.
        let second = second_day s before h (leb→le _ _ won) t in
        (second, rw second (third_day s before h (leb→le _ _ won) t u))
    | inr lost ↦ rw lost λ ne. absurd (ne refl)
  ],
  smooth_days_loop-Persists (s ∷ take 3 before)
      (if leb 4 (count_state s (s ∷ before)) then s else prev) (t ∷ u ∷ states)
      (omega (arith, length-take 3 before)),
)

-- A change of the smoothed daily state lasts at least three days, or to the end of the series: from
-- the fifth day on, a state that differs from the day before is kept on the next two days.
pub smooth_days-Persists :
    (a b c d : State) (states : List State)
    → (rest : List State) × (smooth_days (a ∷ b ∷ c ∷ d ∷ states) ≡ a ∷ b ∷ c ∷ d ∷ rest)
      × (length rest ≡ length states)
      × Persists d rest
unfolding smooth_days
smooth_days-Persists a b c d states = (
  smooth_days_loop (d ∷ c ∷ b ∷ a ∷ []) d states,
  refl,
  length-smooth_days_loop (d ∷ c ∷ b ∷ a ∷ []) d states,
  smooth_days_loop-Persists (d ∷ c ∷ b ∷ a ∷ []) d states (omega arith),
)
