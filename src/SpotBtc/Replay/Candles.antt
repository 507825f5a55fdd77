-- ===== src/SpotBtc/Replay/Candles.antt =====
-- strategies/spot_btc_conservative_v1/replay.go and regime_calibration.go: candles of a longer interval.
pub mod Grouped
pub mod Hours
use cryptotips.Base.Outcome.{Run}
use cryptotips.SpotBtc.Replay.Times.{iso_week, iso_year}
use cryptotips.SpotBtc.Signal.{Ohlc}
use cryptotips.Models.{KlineRecord}
use cryptotips.Base.{
  ◌-◌, length, index, not, ◌&&◌, ◌==◌, ◌||◌, [], ltb, Bool, if◌then◌else◌, ◌∷◌, List, ℕ,
}
use cryptotips.Float.{◌⊕◌, ◌<?◌, of_ℕ, Float}

-- `t.Before(start) || (!end.IsZero() && t.After(end))`
abbrev pub out_of_window : ℕ → ℕ → ℕ → Bool
out_of_window start end t = ltb t start || (not (end == 0) && ltb end t)

module _ {F : Type 0} ⦃fl : Float F⦄ where
  -- The comparisons of the inner loop, on one candle.
  abbrev pub absorbed : KlineRecord F → KlineRecord F → KlineRecord F
  absorbed c k = record c {
    high = if c.high <? k.high then k.high else c.high;
    low = if k.low <? c.low then k.low else c.low;
    volume = c.volume ⊕ k.volume;
  }

  -- The columns that the candle of four hours leaves empty are those of the zero value.
  abbrev pub begun_4h : KlineRecord F → KlineRecord F → KlineRecord F
  begun_4h first last = record {
    symbol = "";
    interval = "";
    open_time = first.open_time;
    close_time = last.close_time;
    open_price = first.open_price;
    high = first.high;
    low = first.low;
    close = last.close;
    volume = of_ℕ 0;
    quote_volume = of_ℕ 0;
  }

  abbrev pub four_hours : (k1 k2 k3 k4 : KlineRecord F) → KlineRecord F
  four_hours k1 k2 k3 k4 = absorbed (absorbed (absorbed (absorbed (begun_4h k1 k4) k1) k2) k3) k4

  -- Hours that do not fill a candle are dropped.
  unfoldable pub aggregate_1h_to_4h : List (KlineRecord F) → List (KlineRecord F)
  aggregate_1h_to_4h (k1 ∷ k2 ∷ k3 ∷ k4 ∷ ks) = four_hours k1 k2 k3 k4 ∷ aggregate_1h_to_4h ks
  aggregate_1h_to_4h _ = []

  abbrev pub same_week : KlineRecord F → KlineRecord F → Bool
  same_week c d =
      iso_year d.open_time == iso_year c.open_time && iso_week d.open_time == iso_week c.open_time

  abbrev pub week_so_far : KlineRecord F → KlineRecord F → KlineRecord F
  week_so_far c d = record (absorbed c d) { close = d.close; close_time = d.close_time }

  -- The loop, from its second day on.
  unfoldable pub weeks_from : KlineRecord F → List (KlineRecord F) → List (KlineRecord F)
  weeks_from c [] = c ∷ []
  weeks_from c (d ∷ ds) =
      if same_week c d then weeks_from (week_so_far c d) ds else c ∷ weeks_from d ds

  unfoldable pub aggregate_1d_to_1w : List (KlineRecord F) → List (KlineRecord F)
  unfolding weeks_from
  aggregate_1d_to_1w [] = []
  aggregate_1d_to_1w (d ∷ ds) = weeks_from d ds

  -- What the rules read of a candle.
  abbrev pub ohlc_of : KlineRecord F → Ohlc F
  ohlc_of k = record { close = k.close; high = k.high; low = k.low; volume = k.volume }

  -- `daySlice`: the loop stops at the first day after the time.
  abbrev pub days_until : ℕ → List (KlineRecord F) → List (Ohlc F)
  days_until t [] = []
  days_until t (d ∷ ds) =
      let rest = days_until t ds in if ltb t d.open_time then [] else ohlc_of d ∷ rest

  -- The same days, as candles.
  abbrev pub klines_until : ℕ → List (KlineRecord F) → List (KlineRecord F)
  klines_until t [] = []
  klines_until t (d ∷ ds) =
      let rest = klines_until t ds in if ltb t d.open_time then [] else d ∷ rest

  -- The last candle of a slice.
  abbrev pub last_kline : List (KlineRecord F) → Run (KlineRecord F)
  last_kline ks = index ks (length ks - 1)
