-- ===== src/SpotBtc/Replay/V8/Switches.antt =====
-- How often RunV8Replay can change its regime.
use cryptotips.SpotBtc.Replay.{regime_eq, MarketRegime}
use cryptotips.SpotBtc.Replay.Points.{ClassPoint}
use cryptotips.SpotBtc.Replay.Track.{
  awaited_track, switch_key, may_switch, switch_track, catch_up, Track, follow, follow_until,
}
use cryptotips.SpotBtc.Config.{Config}
use cryptotips.SpotBtc.Replay.Maps.{update_at}
use cryptotips.Float.{Float}
use cryptotips.Base.{
  ◌⊎◌, inr, inl, leb, Bool-cases, ltb, [], arith, if_rule, ◌≤◌, ◌*◌, ◌∷◌, ◌≡◌, ◌+◌, List, ℕ,
}

-- All switches, of every kind.
abbrev pub total_of : List (ℕ × ℕ) → ℕ
total_of [] = 0
total_of ((k, n) ∷ m) = n + total_of m

total_of-update_at :
    (k : ℕ) (m : List (ℕ × ℕ)) → total_of (update_at 0 k (λ n. n + 1) m) ≡ total_of m + 1
total_of-update_at k [] = omega arith
total_of-update_at k ((j, n) ∷ m) = ground (arith, total_of-update_at k m)

-- One more switch at `total` switches, `since` bars after the last one.
switch_fits :
    (stay total since n : ℕ)
    → (total ≡ 0) ⊎ (stay * total + since ≤ n + stay)
    → stay ≤ since
    → stay * (total + 1) + 0 ≤ n + stay
switch_fits stay total since n (inl none_yet) far = rw none_yet (grind arith)
switch_fits stay total since n (inr h) far = grind arith

module _ {F : Type 0} ⦃fl : Float F⦄ where
  -- There was no switch yet, or each switch but the first has used up the bars that it must stay away
  -- from the one before it.
  abbrev pub Spaced : Config F → ℕ → Track F → Type 0
  Spaced cfg n tr =
      (total_of tr.switches ≡ 0)
      ⊎ (cfg.regime_min_stay_bars * total_of tr.switches + tr.bars_since_switch
          ≤ n + cfg.regime_min_stay_bars)

  switch_track-Spaced :
      (cfg : Config F) (n : ℕ) (cand : MarketRegime) (tr : Track F)
      → Spaced cfg n tr
      → cfg.regime_min_stay_bars ≤ tr.bars_since_switch
      → Spaced cfg n (switch_track cfg cand tr)
  switch_track-Spaced cfg n cand tr h far =
      if_rule (Spaced cfg n) (leb cfg.regime_min_confirm_bars tr.confirm.pending_count)
        (λ _. inr (
          rw (total_of-update_at (switch_key tr.confirm.current cand) tr.switches) (
            switch_fits cfg.regime_min_stay_bars (total_of tr.switches) tr.bars_since_switch n h
              far)))
        λ _. h

  follow-Spaced :
      (cfg : Config F) (n : ℕ) (p : ClassPoint F) (tr : Track F)
      → Spaced cfg n tr
      → Spaced cfg n (follow cfg p tr)
  unfolding follow
  follow-Spaced cfg n p tr h = elim (Bool-cases (may_switch cfg p tr)) [
    | inl may ↦
        rw may (switch_track-Spaced cfg n p.regime (awaited_track p.regime tr) h (ground arith))
    | inr no_switch ↦
        rw no_switch
          (if_rule (Spaced cfg n) (regime_eq p.regime tr.confirm.current) (λ _. h) λ _. h)
  ]

  follow_until-Spaced :
      (cfg : Config F) (n t : ℕ) (ps : List (ClassPoint F)) (tr : Track F)
      → Spaced cfg n tr
      → Spaced cfg n (follow_until cfg t ps tr)
  unfolding follow_until
  follow_until-Spaced cfg n t [] tr h = h
  follow_until-Spaced cfg n t (p ∷ ps) tr h =
      if_rule (Spaced cfg n) (ltb t p.time) (λ _. h)
        λ _. follow_until-Spaced cfg n t ps (follow cfg p tr) (follow-Spaced cfg n p tr h)

  pub later-Spaced :
      (cfg : Config F) (n : ℕ) (tr : Track F) → Spaced cfg n tr → Spaced cfg (n + 1) tr
  later-Spaced cfg n tr (inl none_yet) = inl none_yet
  later-Spaced cfg n tr (inr apart) = inr (omega (arith, apart))

  -- A bar counts for the distance.
  pub catch_up-Spaced :
      (cfg : Config F) (n t : ℕ) (tr : Track F)
      → Spaced cfg n tr
      → Spaced cfg (n + 1) (catch_up cfg t tr)
  unfolding catch_up
  catch_up-Spaced cfg n t tr h = elim (follow_until-Spaced cfg n t tr.coming tr h) [
    | inl none_yet ↦ inl none_yet
    | inr apart ↦ inr (omega (arith, apart))
  ]
