-- ===== src/Indicator/Regime/Classify.antt =====
-- The votes of classifyTrend1D and classifyCP1W, one index at a time.
use cryptotips.Indicator.Series.{zip_with}
use cryptotips.Base.{◌&&◌, Bool, List, if◌then◌else◌}
use cryptotips.Indicator.Regime.Features.{range, bear, bull, State}
use cryptotips.Float.{dec, ◌<?◌, ◌=?◌, ◌≤?◌, of_ℕ, ◌⊕◌, Float}

-- What the votes of one index come to.
pub record Votes (F : Type 0) : Type 0 where
  pub bull_votes : F
  pub bear_votes : F
  pub range_votes : F

module _ {F : Type 0} ⦃fl : Float F⦄ where
  abbrev pub zero_votes : Votes F
  zero_votes = record { bull_votes = of_ℕ 0; bear_votes = of_ℕ 0; range_votes = of_ℕ 0 }

  abbrev pub for_bull : F → Votes F → Votes F
  for_bull x v = record v { bull_votes = v.bull_votes ⊕ x }

  abbrev pub for_bear : F → Votes F → Votes F
  for_bear x v = record v { bear_votes = v.bear_votes ⊕ x }

  abbrev pub for_range : F → Votes F → Votes F
  for_range x v = record v { range_votes = v.range_votes ⊕ x }

  -- `x >= limit`, else `x <= -limit`, else neither.
  abbrev pub three_ways :
      F → F → (Votes F → Votes F) → (Votes F → Votes F) → (Votes F → Votes F) → Votes F → Votes F
  three_ways x limit up down flat v =
      if limit ≤? x then up v else if x ≤? fl.neg limit then down v else flat v

  unfoldable pub day_votes : F → F → F → F → F → F → Votes F
  day_votes close ema200 slope20 ret90 ret180 dd365 =
      let v1 =
        if ema200 <? close
        then for_bull (dec 35 2) zero_votes
        else for_bear (dec 25 2) zero_votes in
      let v2 =
        three_ways slope20 (dec 4 3) (for_bull (dec 30 2)) (for_bear (dec 30 2))
          (for_range (dec 20 2)) v1 in
      let v3 =
        three_ways ret180 (dec 18 2) (for_bull (dec 20 2)) (for_bear (dec 20 2))
          (for_range (dec 10 2)) v2 in
      let v4 =
        if dec 35 2 ≤? dd365
        then for_bear (dec 15 2) v3
        else if (dd365 ≤? dec 18 2) && (fl.neg (dec 5 2) <? ret90)
        then for_bull (dec 10 2) v3
        else for_range (dec 15 2) v3 in
      if fl.abs slope20 ≤? dec 25 4 then for_range (dec 30 2) v4 else v4

  unfoldable pub week_votes : F → F → F → F → F → F → Votes F
  week_votes close ema52 slope8 ret26 dd52 vol8 =
      let v1 =
        if ema52 <? close then for_bull (dec 35 2) zero_votes else for_bear (dec 30 2) zero_votes in
      let v2 =
        three_ways slope8 (dec 2 2) (for_bull (dec 25 2)) (for_bear (dec 25 2))
          (for_range (dec 25 2)) v1 in
      let v3 =
        three_ways ret26 (dec 15 2) (for_bull (dec 20 2)) (for_bear (dec 20 2))
          (for_range (dec 10 2)) v2 in
      let v4 =
        if dec 30 2 ≤? dd52
        then for_bear (dec 20 2) v3
        else if dd52 ≤? dec 15 2
        then for_bull (dec 10 2) v3
        else for_range (dec 15 2) v3 in
      if vol8 ≤? dec 35 3 then for_range (dec 20 2) v4 else v4

  abbrev pub bull_wins : Votes F → Bool
  bull_wins v = (v.bear_votes ≤? v.bull_votes) && (v.range_votes ≤? v.bull_votes)

  abbrev pub bear_wins : Votes F → Bool
  bear_wins v = (v.bull_votes ≤? v.bear_votes) && (v.range_votes ≤? v.bear_votes)

  unfoldable pub verdict : Votes F → State
  verdict v = if bull_wins v then bull else if bear_wins v then bear else range

  -- The score of a verdict; `range_score` is the score of a range.
  abbrev pub score_of : Votes F → F → F
  score_of v range_score =
      if bull_wins v
      then fl.math_min (of_ℕ 1) v.bull_votes
      else if bear_wins v
      then fl.neg (fl.math_min (of_ℕ 1) v.bear_votes)
      else range_score

  unfoldable pub day_score : Votes F → F
  day_score v = score_of v (
      if v.range_votes =? of_ℕ 0
      then of_ℕ 0
      else if v.bear_votes <? v.bull_votes
      then dec 2 1
      else fl.neg (dec 2 1))

  unfoldable pub week_score : Votes F → F
  week_score v = score_of v (of_ℕ 0)

  -- The votes of all indices, from six series of one length.
  abbrev pub zip_votes :
      (F → F → F → F → F → F → Votes F)
      → List F
      → List F
      → List F
      → List F
      → List F
      → List F
      → List (Votes F)
  zip_votes f us vs ws xs ys zs =
      zip_with (λ h g. h g)
        (zip_with (λ h e. h e)
          (zip_with (λ h d. h d) (zip_with (λ h c. h c) (zip_with f us vs) ws) xs) ys)
        zs
