-- ===== src/SpotBtc/Replay/Track/Adopts.antt =====
-- The loop over the regime points takes over a regime that lasts.
use cryptotips.SpotBtc.Replay.Track.{
  awaited_track, catch_up, follow_until, may_switch, switch_track, Track, follow,
}
use cryptotips.SpotBtc.Replay.Points.{awaited, ClassPoint, Confirm}
use cryptotips.Base.{
  subst, suc, lt→ltb, ◌∙◌, leb, sym, ◌++◌, arith, length, ltb, inr, inl, refl, Bool-cases, [],
  false, ◌<◌, ◌≤◌, if◌then◌else◌, ◌+◌, ◌∷◌, ◌⊎◌, List, true, ℕ, ◌≡◌,
}
use cryptotips.SpotBtc.Config.{Config}
use cryptotips.SpotBtc.Replay.{regime_bear, regime_range, regime_bull, regime_eq, MarketRegime}
use cryptotips.Float.{◌≤?◌, Float}

regime_eq_self : (r : MarketRegime) → regime_eq r r ≡ true
regime_eq_self regime_bull = refl
regime_eq_self regime_range = refl
regime_eq_self regime_bear = refl

regime_eq_sound : (r s : MarketRegime) → regime_eq r s ≡ true → r ≡ s
regime_eq_sound r s h = ground arith

not_due : (t time : ℕ) → time ≤ t → ltb t time ≡ false
not_due t time h = ground arith

module _ {F : Type 0} ⦃fl : Float F⦄ (cfg : Config F) (t : ℕ) (cand : MarketRegime) where
  -- A point that is due, for the regime, and with a score that is high enough.
  abbrev pub IsVote : ClassPoint F → Type 0
  IsVote p = (p.regime ≡ cand) × ((cfg.regime_hysteresis ≤? fl.abs p.score) ≡ true) × (p.time ≤ t)

  abbrev pub AllVotes : List (ClassPoint F) → Type 0
  AllVotes [] = Unit
  AllVotes (p ∷ ps) = IsVote p × AllVotes ps

  abbrev pub NoneDue : List (ClassPoint F) → Type 0
  NoneDue [] = Unit
  NoneDue (p ∷ ps) = t < p.time

  abbrev votes_of : Confirm → ℕ
  votes_of c = if regime_eq cand c.pending then c.pending_count else 0

  -- The regime is taken over already, or at the latest with the `n`-th vote from here.
  abbrev AdoptsBy : ℕ → Track F → Type 0
  AdoptsBy n tr =
      (tr.confirm.current ≡ cand)
      ⊎ (((regime_eq cand tr.confirm.current) ≡ false)
          × (cfg.regime_min_stay_bars ≤ tr.bars_since_switch)
          × (cfg.regime_min_confirm_bars ≤ votes_of tr.confirm + n))

  -- The same, where the votes until now are not enough.
  abbrev Waits : ℕ → Track F → Type 0
  Waits n tr =
      (tr.confirm.current ≡ cand)
      ⊎ (((regime_eq cand tr.confirm.current) ≡ false)
          × (cfg.regime_min_stay_bars ≤ tr.bars_since_switch)
          × (cfg.regime_min_confirm_bars ≤ votes_of tr.confirm + n)
          × (votes_of tr.confirm < cfg.regime_min_confirm_bars))

  without_bound : (n : ℕ) (tr : Track F) → Waits (suc n) tr → AdoptsBy (suc n) tr
  without_bound n tr (inl adopted) = inl adopted
  without_bound n tr (inr (other, stayed, enough, few)) = inr (other, stayed, enough)

  -- A vote counts, and changes nothing else.
  awaited-Vote :
      (c : Confirm)
      → let c' = awaited cand c in
        (c'.current ≡ c.current)
        × (c'.pending_count ≡ votes_of c + 1)
        × (votes_of c' ≡ votes_of c + 1)
  awaited-Vote c = elim (Bool-cases (regime_eq cand c.pending)) [
    | inl same ↦ rw same (rw same (refl, refl, refl))
    | inr other ↦ rw other (rw (regime_eq_self cand) (refl, refl, refl))
  ]

  switch_track-Waits :
      (n : ℕ) (tr : Track F)
      → ((regime_eq cand tr.confirm.current) ≡ false)
      → cfg.regime_min_stay_bars ≤ tr.bars_since_switch
      → cfg.regime_min_confirm_bars ≤ votes_of tr.confirm + n
      → tr.confirm.pending_count ≡ votes_of tr.confirm
      → Waits n (switch_track cfg cand tr)
  switch_track-Waits n tr other stayed enough count =
      elim (Bool-cases (leb cfg.regime_min_confirm_bars tr.confirm.pending_count)) [
        | inl votes ↦ rw votes (inl refl)
        | inr few ↦ rw few (inr (other, stayed, enough, ground arith))
      ]

  follow-Waits :
      (n : ℕ) (p : ClassPoint F) (tr : Track F)
      → IsVote p
      → AdoptsBy (suc n) tr
      → Waits n (follow cfg p tr)
  unfolding follow
  follow-Waits n p tr (e, strong, due) (inl adopted) =
      let same : regime_eq p.regime tr.confirm.current ≡ true =
        rw e (rw adopted (regime_eq_self cand)) in
      rw same (inl adopted)
  follow-Waits n p tr (e, strong, due) (inr (other, stayed, enough)) =
      let (current, count, votes) = awaited-Vote tr.confirm in
      let may : may_switch cfg p tr ≡ true = rw (e, other, strong) (ground arith) in
      rw may (
        rw e (
          switch_track-Waits n (awaited_track cand tr) (rw current other) stayed
            (omega (arith, votes)) (count ∙ sym votes)))

  follow_until-Adopts :
      (ps later : List (ClassPoint F)) (tr : Track F)
      → AllVotes ps
      → NoneDue later
      → Waits (length ps) tr
      → (follow_until cfg t (ps ++ later) tr).confirm.current ≡ cand
  unfolding follow_until
  follow_until-Adopts [] [] tr v d (inl adopted) = adopted
  follow_until-Adopts [] (p ∷ ps) tr v d (inl adopted) = rw (lt→ltb _ _ d) adopted
  follow_until-Adopts [] later tr v d (inr (other, stayed, enough, few)) = absurd (omega arith)
  follow_until-Adopts (p ∷ ps) later tr ((e, strong, due), vs) d h = rw (not_due t p.time due) (
      follow_until-Adopts ps later (follow cfg p tr) vs d
        (follow-Waits (length ps) p tr (e, strong, due) (without_bound (length ps) tr h)))

  begins :
      (ps : List (ClassPoint F)) (tr : Track F)
      → cfg.regime_min_confirm_bars ≤ suc (length ps)
      → cfg.regime_min_stay_bars ≤ tr.bars_since_switch
      → AdoptsBy (suc (length ps)) tr
  begins ps tr enough stayed = elim (Bool-cases (regime_eq cand tr.confirm.current)) [
    | inl same ↦ inl (sym (regime_eq_sound cand tr.confirm.current same))
    | inr other ↦ inr (other, stayed, omega arith)
  ]

  -- If a regime has its votes, as many as it must be confirmed with and at least one, in the points
  -- that are due and not yet seen, and the last switch is as long ago as the profile wants, then after
  -- the bar it is the regime of v8 and v9, whatever it was before, and whatever other regime was waiting.
  pub catch_up-Adopts :
      (p : ClassPoint F) (ps later : List (ClassPoint F)) (tr : Track F)
      → tr.coming ≡ p ∷ ps ++ later
      → AllVotes (p ∷ ps)
      → NoneDue later
      → cfg.regime_min_confirm_bars ≤ length (p ∷ ps)
      → cfg.regime_min_stay_bars ≤ tr.bars_since_switch
      → (catch_up cfg t tr).confirm.current ≡ cand
  unfolding catch_up follow_until
  catch_up-Adopts p ps later tr e (v, vs) d enough stayed =
      subst (λ points. (follow_until cfg t points tr).confirm.current ≡ cand) (sym e)
        (rw (not_due t p.time v.2) (
          follow_until-Adopts ps later (follow cfg p tr) vs d
            (follow-Waits (length ps) p tr v (begins ps tr enough stayed))))
