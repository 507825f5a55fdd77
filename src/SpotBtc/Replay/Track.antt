-- ===== src/SpotBtc/Replay/Track.antt =====
-- strategies/spot_btc_conservative_v1/replay.go: how the bar loops follow the regime points.
pub mod Adopts
use cryptotips.SpotBtc.Config.{Config}
use cryptotips.SpotBtc.Replay.Maps.{update_at}
use cryptotips.SpotBtc.Replay.{regime_bear, regime_eq, regime_range, regime_bull, MarketRegime}
use cryptotips.SpotBtc.Replay.Points.{Confirm, awaited, confirm_start, ClassPoint}
use cryptotips.Float.{◌≤?◌, Float}
use cryptotips.Base.{◌&&◌, not, Bool, [], leb, ltb, ◌+◌, if◌then◌else◌, ◌*◌, ◌∷◌, List, ℕ}

abbrev regime_code : MarketRegime → ℕ
regime_code regime_bull = 0
regime_code regime_range = 1
regime_code regime_bear = 2

-- A number for each text such as "BULL->RANGE".
abbrev pub switch_key : MarketRegime → MarketRegime → ℕ
switch_key prev cur = regime_code prev * 3 + regime_code cur

abbrev pub count_switch : MarketRegime → MarketRegime → List (ℕ × ℕ) → List (ℕ × ℕ)
count_switch prev cur m = update_at 0 (switch_key prev cur) (λ n. n + 1) m

-- v8 and v9: the points that are still to come, and the regime.
pub record Track (F : Type 0) : Type 0 where
  pub coming : List (ClassPoint F)
  pub confirm : Confirm
  pub bars_since_switch : ℕ
  pub switches : List (ℕ × ℕ)

-- v7
pub record TrackV7 (F : Type 0) : Type 0 where
  pub coming_v7 : List (ClassPoint F)
  pub regime_v7 : MarketRegime
  pub switches_v7 : List (ℕ × ℕ)

module _ {F : Type 0} where
  abbrev pub track_start : List (ClassPoint F) → Track F
  track_start points = record {
    coming = points;
    confirm = confirm_start;
    bars_since_switch = 999;
    switches = [];
  }

  abbrev pub follow_v7 : ClassPoint F → MarketRegime × List (ℕ × ℕ) → MarketRegime × List (ℕ × ℕ)
  follow_v7 p (cur, m) =
      if regime_eq p.regime cur then (cur, m) else (p.regime, count_switch cur p.regime m)

  abbrev pub catch_up_v7_from : ℕ → List (ClassPoint F) → MarketRegime × List (ℕ × ℕ) → TrackV7 F
  catch_up_v7_from t [] (cur, m) = record { coming_v7 = []; regime_v7 = cur; switches_v7 = m }
  catch_up_v7_from t (p ∷ ps) (cur, m) =
      let rest = catch_up_v7_from t ps (follow_v7 p (cur, m)) in
      if ltb t p.time then record { coming_v7 = p ∷ ps; regime_v7 = cur; switches_v7 = m } else rest

  abbrev pub catch_up_v7 : ℕ → TrackV7 F → TrackV7 F
  catch_up_v7 t tr = catch_up_v7_from t tr.coming_v7 (tr.regime_v7, tr.switches_v7)

module _ {F : Type 0} ⦃fl : Float F⦄ where
  -- The conditions under which a point counts for another regime.
  abbrev pub may_switch : Config F → ClassPoint F → Track F → Bool
  may_switch cfg p tr =
      not (regime_eq p.regime tr.confirm.current)
      && leb cfg.regime_min_stay_bars tr.bars_since_switch
      && (cfg.regime_hysteresis ≤? fl.abs p.score)

  abbrev pub awaited_track : MarketRegime → Track F → Track F
  awaited_track cand tr = record tr { confirm = awaited cand tr.confirm }

  abbrev pub switch_track : Config F → MarketRegime → Track F → Track F
  switch_track cfg cand tr =
      if leb cfg.regime_min_confirm_bars tr.confirm.pending_count
      then record tr {
        confirm = record tr.confirm { current = cand; pending_count = 0 };
        bars_since_switch = 0;
        switches = count_switch tr.confirm.current cand tr.switches;
      }
      else tr

  -- The body of the loop over the points.
  unfoldable pub follow : Config F → ClassPoint F → Track F → Track F
  follow cfg p tr =
      if may_switch cfg p tr
      then switch_track cfg p.regime (awaited_track p.regime tr)
      else if regime_eq p.regime tr.confirm.current
      then record tr { confirm = record tr.confirm { pending_count = 0 } }
      else tr

  unfoldable pub follow_until : Config F → ℕ → List (ClassPoint F) → Track F → Track F
  unfolding follow
  follow_until cfg t [] tr = record tr { coming = [] }
  follow_until cfg t (p ∷ ps) tr =
      let rest = follow_until cfg t ps (follow cfg p tr) in
      if ltb t p.time then record tr { coming = p ∷ ps } else rest

  -- The points up to the time of the bar, and the bar itself.
  unfoldable pub catch_up : Config F → ℕ → Track F → Track F
  unfolding follow_until
  catch_up cfg t tr =
      let followed = follow_until cfg t tr.coming tr in
      record followed { bars_since_switch = followed.bars_since_switch + 1 }
