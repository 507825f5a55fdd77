-- ===== src/SpotBtc/Replay/V10/Follows.antt =====
-- RunV10Replay holds what the regime says.
use cryptotips.Base.Outcome.{Returns-if, value, ok, Returns}
use cryptotips.SpotBtc.Replay.Book.{each_bar}
use cryptotips.SpotBtc.Replay.Times.Days.{day_key-positive}
use cryptotips.SpotBtc.Replay.V10.Latest.{detect_v10_regime-IsLatest, points_of, IsLatest}
use cryptotips.Indicator.Series.{last_or}
use cryptotips.SpotBtc.Replay.Times.{day_key}
use cryptotips.SpotBtc.Replay.V10.Turns.{
  Turns-same, turn_to-regime, turn_to-regime_day, turn_to-Turned, IsHeld, IsPriced, Turns,
}
use cryptotips.SpotBtc.Replay.Candles.{klines_until}
use cryptotips.Models.{KlineRecord}
use cryptotips.SpotBtc.Replay.{MarketRegime}
use cryptotips.SpotBtc.Replay.V10.{
  detect_v10_regime, turn_to, StateV10, look_at_days, bar_v10, state_v10,
}
use cryptotips.Float.{Float}
use cryptotips.Base.{
  ◌++◌, Bool, ap, inr, ◌∙◌, subst, sym, refl, inl, Bool-cases, [], arith, true, ◌∷◌, ◌⊎◌, ◌≡◌, ◌≢◌,
  List, ◌<◌, ◌==◌, ℕ,
}

zero-ne-positive : (n : ℕ) → 0 < n → 0 ≢ n
zero-ne-positive n h e = omega arith

key_cases : (a b : ℕ) → (a == b) ≡ true → b ≡ a
key_cases a b h = ground arith

abbrev date_of : {F : Type 0} → List (KlineRecord F) → ℕ
date_of [] = 0
date_of (d ∷ ds) = day_key (last_or d ds).open_time

nil-ne-cons : {A : Type 0} (x : A) (xs : List A) → [] ≢ x ∷ xs
nil-ne-cons x xs e = cc

module _ {F : Type 0} ⦃fl : Float F⦄ (capital : F) (day_data : List (KlineRecord F)) where
  -- The regime of a date: the one of the last start point at some time at which the last day that has
  -- begun is of that date, computed from the days that have begun by then and their weeks.
  pub record IsRegimeOf (date : ℕ) (r : MarketRegime) : Type 0 where
    pub moment : ℕ
    pub first_day : KlineRecord F
    pub more_days : List (KlineRecord F)
    pub days : klines_until moment day_data ≡ first_day ∷ more_days
    pub dated : date ≡ day_key (last_or first_day more_days).open_time
    pub latest : IsLatest moment (points_of (first_day ∷ more_days)) r

  -- The regime that is kept is that of the date that is kept.
  abbrev Informed : ℕ → MarketRegime → Type 0
  Informed date r = (date ≡ 0) ⊎ IsRegimeOf date r

  -- The states of the loop, over candles with such prices.
  pub data Reached : StateV10 F → Type 0 where
    started : Reached state_v10
    after_bar :
        {s : StateV10 F} (seen : List (KlineRecord F)) (k : KlineRecord F)
        → IsPriced capital k.close
        → Reached s
        → Reached (bar_v10 capital day_data seen k s)

  -- What a bar has done with a state.
  pub record FollowsRegime (k : KlineRecord F) (s s' : StateV10 F) : Type 0 where
    pub turns : Turns s.side s'.side capital k.close s s'
    pub of_the_day :
        (d : KlineRecord F) (ds : List (KlineRecord F))
        → klines_until k.open_time day_data ≡ d ∷ ds
        → IsRegimeOf (day_key (last_or d ds).open_time) s'.side

  -- A look at the days sets the date and the regime, and nothing else.
  abbrev Looked : List (KlineRecord F) → StateV10 F → StateV10 F → Type 0
  Looked days s x =
      (key : ℕ) × (r : MarketRegime) × (x ≡ record s { regime_day = key; regime_v10 = r })
      × Informed x.regime_day x.regime_v10
      × ((d : KlineRecord F) (ds : List (KlineRecord F))
          → days ≡ d ∷ ds
          → IsRegimeOf (day_key (last_or d ds).open_time) x.regime_v10)

  look-Looked :
      (t : ℕ) (s : StateV10 F) (days : List (KlineRecord F))
      → klines_until t day_data ≡ days
      → Informed s.regime_day s.regime_v10
      → Looked days s (look_at_days days t s)
  look-Looked t s [] e inf =
      (s.regime_day, s.regime_v10, refl, inf, λ d ds h. absurd (nil-ne-cons d ds h))
  look-Looked t s (d ∷ ds) e inf = elim (Bool-cases (date_of (d ∷ ds) == s.regime_day)) [
    | inl same ↦
        let date = key_cases (date_of (d ∷ ds)) s.regime_day same in
        rw same (
          s.regime_day,
          s.regime_v10,
          refl,
          inf,
          λ d' ds' h. elim inf [
            | inl none_yet ↦ absurd (
                zero-ne-positive (date_of (d ∷ ds)) (day_key-positive (last_or d ds).open_time)
                  (sym none_yet ∙ date))
            | inr known ↦ subst (λ n. IsRegimeOf n s.regime_v10) (date ∙ ap date_of h) known
          ],
        )
    | inr new_day ↦
        let found : IsRegimeOf (date_of (d ∷ ds)) (detect_v10_regime (d ∷ ds) t) = record {
          moment = t;
          first_day = d;
          more_days = ds;
          days = e;
          dated = refl;
          latest = detect_v10_regime-IsLatest d ds t;
        } in
        rw new_day (
          date_of (d ∷ ds),
          detect_v10_regime (d ∷ ds) t,
          refl,
          inr found,
          λ d' ds' h. subst (λ n. IsRegimeOf n (detect_v10_regime (d ∷ ds) t)) (ap date_of h) found,
        )
  ]

  bar_v10-keeps :
      (seen : List (KlineRecord F)) (k : KlineRecord F) (s : StateV10 F)
      → IsPriced capital k.close
      → IsHeld s
      → Informed s.regime_day s.regime_v10
      → let s' = bar_v10 capital day_data seen k s in
        IsHeld s' × Informed s'.regime_day s'.regime_v10 × FollowsRegime k s s'
  unfolding bar_v10
  bar_v10-keeps seen k s p h inf =
      let t = k.open_time in
      let x = look_at_days (klines_until t day_data) t s in
      let r = x.regime_v10 in
      let turned = turn_to r capital k.close t x in
      let (key, q, same, known, of_day) = look-Looked t s (klines_until t day_data) refl inf in
      let (held, side, turns) =
        turn_to-Turned r capital k.close t x p (subst IsHeld (sym same) h) in
      let from_s : Turns s.side r capital k.close (record s { regime_day = key; regime_v10 = q })
          turned =
        subst (λ y. Turns y.side r capital k.close y turned) same turns in
      (
        held,
        subst (λ n. Informed n turned.regime_v10) (sym (turn_to-regime_day r capital k.close t x))
            (subst (Informed x.regime_day) (sym (turn_to-regime r capital k.close t x)) known),
        record {
          turns =
              subst
                (λ side_now.
                  Turns s.side side_now capital k.close s (bar_v10 capital day_data seen k s))
                (sym side) (Turns-same s.side r capital k.close _ key q s turned from_s);
          of_the_day = λ d ds e. subst (IsRegimeOf (date_of (d ∷ ds))) (sym side) (of_day d ds e);
        },
      )

  Reached-keeps : {s : StateV10 F} → Reached s → IsHeld s × Informed s.regime_day s.regime_v10
  Reached-keeps started = (inl refl, inl refl)
  Reached-keeps (after_bar {s} seen k p reached) =
      let (held, inf) = Reached-keeps reached in
      let (held', inf', _) = bar_v10-keeps seen k s p held inf in (held', inf')

  -- Each candle has such a price.
  abbrev AllPriced : List (KlineRecord F) → Type 0
  AllPriced [] = Unit
  AllPriced (k ∷ ks) = IsPriced capital k.close × AllPriced ks

  -- The loop of RunV10Replay, which leaves out some of the candles, comes to such states alone.
  pub each_bar-Reached :
      (skip : ℕ → Bool) (seen ks : List (KlineRecord F)) (s : StateV10 F)
      → AllPriced ks
      → Reached s
      → Returns Reached
          (each_bar skip (λ before k s. ok (bar_v10 capital day_data before k s)) s seen ks)
  unfolding each_bar
  each_bar-Reached skip seen [] s p r = value r
  each_bar-Reached skip seen (k ∷ ks) s (p, ps) r =
      Returns-if (skip k.open_time) (λ _. each_bar-Reached skip (seen ++ k ∷ []) ks s ps r)
        λ _. each_bar-Reached skip (seen ++ k ∷ []) ks _ ps (after_bar seen k p r)

  -- In a loop of RunV10Replay over candles with positive prices that buy a quantity, whatever is held
  -- before a bar: if some day has begun, then after the bar it holds the side of the regime of the last
  -- such day's date, that is, of the last start point that is not after the time, computed from the
  -- days that have begun at a time on that date; a long in a bull market, a short in a bear market,
  -- nothing in a range. If the side is another one than before, what was held is closed at the candle's
  -- price as one more trade with its gain, and a long of 0.7 of the capital, or a short of twice that,
  -- is opened at the price; otherwise trades, net, entry and quantity stay.
  pub bar_v10-FollowsRegime :
      (seen : List (KlineRecord F)) (k : KlineRecord F) (s : StateV10 F)
      → Reached s
      → IsPriced capital k.close
      → FollowsRegime k s (bar_v10 capital day_data seen k s)
  bar_v10-FollowsRegime seen k s reached p =
      let (held, inf) = Reached-keeps reached in
      let (_, _, follows) = bar_v10-keeps seen k s p held inf in follows
