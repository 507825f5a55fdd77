-- ===== src/SpotBtc/Replay/V7.antt =====
-- strategies/spot_btc_conservative_v1/regime_calibration.go: runV7Replay.
pub mod Sound
use cryptotips.SpotBtc.Replay.Steps.{step_position}
use cryptotips.Base.Texts.{same_text}
use cryptotips.SpotBtc.Signal.{Ohlc}
use cryptotips.SpotBtc.Replay.{regime_eq, regime_range, MarketRegime}
use cryptotips.SpotBtc.Replay.Ledger.{
  no_points, insufficient_bars, pause_less, risk_blocked, summarise, summary, BarKeys, ReplayResult,
}
use cryptotips.SpotBtc.Config.{Config}
use cryptotips.SpotBtc.Replay.Points.{RegimeCalibParams, ClassPoint, classify_series}
use cryptotips.Models.{KlineRecord}
use cryptotips.SpotBtc.Replay.Candles.{days_until, aggregate_1d_to_1w}
use cryptotips.SpotBtc.Replay.Track.{catch_up_v7, TrackV7}
use cryptotips.SpotBtc.Replay.Times.{month_key, year_week_key, day_key}
use Prim.Native.String.{String}
use cryptotips.Base.{◌==◌, length, ltb, not, ◌&&◌, [], if◌then◌else◌, List, ℕ}
use cryptotips.Float.{Float}
use cryptotips.SpotBtc.Replay.Book.{
  enter_trend, is_flat, over_ledger, bars_to, both_forced_out, each_bar, empty_book, step_both,
  Book,
}
use cryptotips.Base.Outcome.{ok, Run, ◌>>=◌}

pub record StateV7 (F : Type 0) : Type 0 where
  pub book_v7 : Book F
  pub track_v7 : TrackV7 F

abbrev pub keys_by_year : ℕ → BarKeys
keys_by_year t = record { day = day_key t; week = year_week_key t; month = month_key t }

module _ {F : Type 0} ⦃fl : Float F⦄ where
  -- The closing of a range, the entry and the steps.
  unfoldable pub trade_v7 :
      Config F → MarketRegime → BarKeys → F → List (Ohlc F) → List (Ohlc F) → Book F → Run (Book F)
  unfolding step_both
  trade_v7 cfg regime keys price day h4 b =
      let capital = cfg.risk_capital_usdt in
      let blocked = risk_blocked cfg keys b.ledger in
      let out =
        if regime_eq regime regime_range then both_forced_out capital keys.month price b else b in
      (if is_flat out && not blocked then enter_trend cfg regime day h4 out else ok out) >>= λ b'.
      step_both capital keys price (λ d pos. step_position d cfg pos price h4) b'

  unfoldable pub bar_v7 :
      Config F
      → List (KlineRecord F)
      → List (KlineRecord F)
      → KlineRecord F
      → StateV7 F
      → Run (StateV7 F)
  unfolding trade_v7 day_key year_week_key month_key
  bar_v7 cfg day_data seen k s =
      let t = k.open_time in
      let track = catch_up_v7 t s.track_v7 in
      trade_v7 cfg track.regime_v7 (keys_by_year t) k.close (days_until t day_data) (bars_to seen k)
        (over_ledger pause_less s.book_v7)
      >>= λ b. ok (record { book_v7 = b; track_v7 = track })

  abbrev pub state_v7 : List (ClassPoint F) → StateV7 F
  state_v7 points = record {
    book_v7 = empty_book;
    track_v7 = record { coming_v7 = points; regime_v7 = regime_range; switches_v7 = [] };
  }

  abbrev pub summary_v7 : (List F → List F) → String → StateV7 F → ReplayResult F
  summary_v7 in_order tf s = summary (record (summarise in_order "v7" s.book_v7.ledger) {
    regime_switches = s.track_v7.switches_v7;
    timeframe = tf;
  })

  abbrev pub regime_bars_v7 : String → List (KlineRecord F) → List (KlineRecord F)
  regime_bars_v7 tf day_data = if same_text tf "1w" then aggregate_1d_to_1w day_data else day_data

  unfoldable pub run_v7_replay :
      (List F → List F)
      → Config F
      → List (KlineRecord F)
      → List (KlineRecord F)
      → ℕ
      → String
      → RegimeCalibParams F
      → Run (ReplayResult F)
  unfolding bar_v7 aggregate_1d_to_1w classify_series each_bar summarise
  run_v7_replay in_order cfg day_data h4_data start tf p =
      let bars = regime_bars_v7 tf day_data in
      if ltb (length bars) 220 then ok (insufficient_bars (length bars)) else (do
        points ← classify_series bars p
        if length points == 0 then ok no_points else (do
          s ← each_bar (λ t. ltb t start) (bar_v7 cfg day_data) (state_v7 points) [] h4_data
          ok (summary_v7 in_order tf s)))
