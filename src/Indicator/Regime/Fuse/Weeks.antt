-- ===== src/Indicator/Regime/Fuse/Weeks.antt =====
-- The pointer of expandWeeklyToDaily against a search of all weeks.
use mathlib.Core.Path.{ap₂}
use cryptotips.Base.{
  inr, le→leb, inl, sym, Bool-cases, ◌∙◌, arith, refl, [], ap, leb, if◌then◌else◌, map, ◌<◌, ◌≡◌,
  ◌≤◌, ◌∷◌, List, ℕ,
}
use cryptotips.Indicator.Regime.Fuse.{expand_weekly_to_daily, Point, advance, expand_loop}
use cryptotips.Float.{Float}

-- Not before `d`, and in order.
abbrev pub InOrder : ℕ → List ℕ → Type 0
InOrder d [] = Unit
InOrder d (x ∷ xs) = (d ≤ x) × InOrder x xs

InOrder-weaken : (a b : ℕ) (xs : List ℕ) → a ≤ b → InOrder b xs → InOrder a xs
InOrder-weaken a b [] h o = tt
InOrder-weaken a b (x ∷ xs) h (p, o) = (omega arith, o)

module _ {F : Type 0} ⦃fl : Float F⦄ where
  -- The last of the weeks that is not after the day, or `week`.
  abbrev pub latest : ℕ → Point F → List (Point F) → Point F
  latest day week [] = week
  latest day week (next ∷ weeks) = latest day (if leb next.date day then next else week) weeks

  abbrev pub week_dates : List (Point F) → List ℕ
  week_dates = map λ p. p.date

  latest_early :
      (day first : ℕ) (week : Point F) (weeks : List (Point F))
      → day < first
      → InOrder first (week_dates weeks)
      → latest day week weeks ≡ week
  latest_early day first week [] h o = refl
  latest_early day first week (next ∷ weeks) h (p, o) =
      ap (λ w. latest day w weeks) {y = week} (ground arith)
      ∙ latest_early day next.date week weeks (omega arith) o

  -- A search for this or a later day may begin where the pointer stands.
  advance-latest :
      (day later : ℕ) (week : Point F) (weeks : List (Point F))
      → day ≤ later
      → let moved = advance day week weeks in latest later week weeks ≡ latest later moved.0 moved.1
  unfolding advance
  advance-latest day later week [] h = refl
  advance-latest day later week (next ∷ weeks) h = elim (Bool-cases (leb next.date day)) [
    | inl passed ↦
        rw (passed, le→leb next.date later (ground arith)) (advance-latest day later next weeks h)
    | inr ahead ↦ rw ahead refl
  ]

  -- On the day itself the search ends at the pointer.
  advance_stops :
      (day first : ℕ) (week : Point F) (weeks : List (Point F))
      → InOrder first (week_dates weeks)
      → let moved = advance day week weeks in
        (latest day moved.0 moved.1 ≡ moved.0) × ((d : ℕ) × InOrder d (week_dates moved.1))
  unfolding advance
  advance_stops day first week [] o = (refl, (0, tt))
  advance_stops day first week (next ∷ weeks) (p, o) = elim (Bool-cases (leb next.date day)) [
    | inl passed ↦ rw passed (advance_stops day next.date next weeks o)
    | inr ahead ↦ rw ahead (
      latest_early day next.date week (next ∷ weeks) (ground arith) (omega arith, o),
      (first, (p, o)),
    )
  ]

  map-latest :
      (days : List ℕ) (day : ℕ) (week : Point F) (weeks : List (Point F))
      → InOrder day days
      → let moved = advance day week weeks in
        map (λ d. latest d week weeks) days ≡ map (λ d. latest d moved.0 moved.1) days
  map-latest [] day week weeks o = refl
  map-latest (d ∷ days) day week weeks (p, o) =
      ap₂ ◌∷◌ (advance-latest day d week weeks p)
        (map-latest days day week weeks (InOrder-weaken day d days p o))

  expand_loop-eq-latest :
      (days : List ℕ) (week : Point F) (weeks : List (Point F)) (from first : ℕ)
      → InOrder first (week_dates weeks)
      → InOrder from days
      → expand_loop (week, weeks) days ≡ map (λ d. latest d week weeks) days
  unfolding expand_loop
  expand_loop-eq-latest [] week weeks from first o p = refl
  expand_loop-eq-latest (day ∷ days) week weeks from first o (p, ps) =
      let (stops, (d, rest)) = advance_stops day first week weeks o in
      let moved = advance day week weeks in
      ap₂ ◌∷◌ (sym (advance-latest day day week weeks (omega arith) ∙ stops)) (
        expand_loop-eq-latest days moved.0 moved.1 day d rest ps
        ∙ sym (map-latest days day week weeks ps))

  -- For weeks and days in order of time, the one pass of expandWeeklyToDaily gives each day the week
  -- that a search of all weeks finds: the last one that does not begin after the day, or the first
  -- week for a day before them all.
  pub expand-eq-latest :
      (week : Point F) (weeks : List (Point F)) (days : List ℕ)
      → InOrder 0 (week_dates (week ∷ weeks))
      → InOrder 0 days
      → expand_weekly_to_daily (week ∷ weeks) days ≡ map (λ d. latest d week weeks) days
  unfolding expand_weekly_to_daily
  expand-eq-latest week weeks days (p, o) q = expand_loop-eq-latest days week weeks 0 week.date o q
