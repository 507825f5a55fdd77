-- ===== src/App/Tests.antt =====
-- Runs and examples.
use cryptotips.Models.Klines.{of_pair, open_of, KlineTable}
use cryptotips.Models.Klines.Upserts.{upsert_all, latest_open, IsKlineTable}
use cryptotips.Float.{of_ℕ}
use cryptotips.App.Fetch.Batches.{in_range}
use cryptotips.Models.{select, KlineRecord}
use cryptotips.Base.Act.{crashed, done, ended, give, Ends}
use cryptotips.App.Fetch.Complete.{IsFetched, fetch_all-Complete, IsExchange}
use cryptotips.Base.{
  Option, ◌≢◌, [], refl, take, ◌-◌, arith, true, ◌+◌, ◌∷◌, none, some, ◌*◌, ◌≡◌, List, ℕ,
}
use cryptotips.App.Fetch.{fetch_all, hour_ms, RawKline, Market, start_time}
use cryptotips.Float.Fixed.{Fixed, fixed_float}

abbrev candle_at : ℕ → RawKline
candle_at t = record {
  open_at = t;
  close_at = t + hour_ms - 1;
  open_text = "";
  high_text = "";
  low_text = "";
  close_text = "";
  volume_text = "";
  quote_volume_text = "";
}

abbrev first_hour : ℕ
first_hour = 17_395 * 24 * hour_ms

abbrev candles : List RawKline
candles = candle_at first_hour ∷ candle_at (first_hour + hour_ms) ∷ []

-- The row of a candle, with the price 5 for all four, which the exchange has corrected.
abbrev old_row : KlineRecord Fixed
old_row = record {
  symbol = "BTCUSDT";
  interval = "1h";
  open_time = first_hour;
  close_time = first_hour + 1;
  open_price = of_ℕ 5;
  high = of_ℕ 5;
  low = of_ℕ 5;
  close = of_ℕ 5;
  volume = of_ℕ 5;
  quote_volume = of_ℕ 5;
}

abbrev row_of : Option ℕ → List (KlineRecord Fixed) → Option (KlineRecord Fixed)
row_of none rs = none
row_of (some t) rs = some (record old_row { open_time = t })

row_of-open :
    (table : KlineTable Fixed (List (KlineRecord Fixed))) (t : Option ℕ)
    (rs : List (KlineRecord Fixed))
    → open_of table (row_of t rs) ≡ t
row_of-open table none rs = refl
row_of-open table (some t) rs = refl

-- The table is the list of its rows.
abbrev table : KlineTable Fixed (List (KlineRecord Fixed))
table = record {
  first_latest = λ p s. (done (row_of (latest_open (select p s)) s), s);
  create_in_batches = λ assign n rs s. (done tt, upsert_all assign rs s);
  aggregate = λ p s. (done (0, 0, 0), s);
  upsert_meta = λ m s. (done tt, s);
}

done-ne-crashed : {A : Type 0} (a : A) → done a ≢ crashed
done-ne-crashed a e = cc

table-IsKlineTable : IsKlineTable table (λ s. s) (λ _. ⊥)
table-IsKlineTable = record {
  first-Ends = λ p s. ended (row_of-open table (latest_open (select p s)) s, refl);
  create-Ends = λ n rs s. ended refl;
  aggregate-rows = λ p s. (refl, done-ne-crashed _);
  meta-rows = λ m s. (refl, done-ne-crashed _);
}

-- An exchange with two candles.
abbrev market : Market Fixed (List (KlineRecord Fixed))
market = record {
  klines = λ symbol interval start end limit. give (take limit (in_range start end candles));
  parse_float = λ text. of_ℕ 0;
  table = table;
}

market-IsExchange : IsExchange market "BTCUSDT" "1h" candles (λ s. s) (λ _. ⊥)
market-IsExchange = record {
  sequence = omega arith;
  klines-Ends = λ start end limit s. ended (refl, refl);
}

fetch_all-Complete_example :
    Ends
      (λ stop s'.
        (stop ≡ true)
        × IsFetched market "BTCUSDT" "1h" candles
            (λ s. s)
            (λ _. ⊥)
            market-IsExchange
            table-IsKlineTable
            (start_time "1h" (latest_open (select (of_pair "BTCUSDT" "1h") (old_row ∷ []))))
            (first_hour + 5 * hour_ms)
            (old_row ∷ [])
            s')
      (λ _. ⊥)
      (fetch_all market "BTCUSDT" "1h" (first_hour + 5 * hour_ms) (old_row ∷ []))
fetch_all-Complete_example =
    fetch_all-Complete market "BTCUSDT" "1h" candles (λ s. s) (λ _. ⊥) market-IsExchange
      table-IsKlineTable (first_hour + 5 * hour_ms) (old_row ∷ []) (refl, tt)

lookback-daily :
    start_time "1d" (some (first_hour + 30 * 24 * hour_ms)) ≡ first_hour + 23 * 24 * hour_ms
unfolding start_time
lookback-daily = refl
