-- ===== src/App/Fetch.antt =====
-- app/fetchklines.go: fetchAll, which pages through the candles of the exchange. A time in this module
-- is a number of milliseconds since 1970: those of the exchange are whole, and so are those of the table.
pub mod Batches
pub mod Complete
pub mod Logged
use cryptotips.Models.Klines.{sync_meta, KlineTable, batch_upsert_klines, get_latest_kline_time}
use cryptotips.Base.Texts.{same_text}
use cryptotips.Models.{KlineRecord}
use cryptotips.Base.{
  zero, map, ◌==◌, length, true, ltb, none, suc, false, ◌-◌, [], max, ◌+◌, Bool, some, ◌∷◌, List,
  Option, if◌then◌else◌, ◌*◌, ℕ,
}
use Prim.Native.String.{String}
use cryptotips.Base.Act.{crashed, failed, done, Result, give, Act, ◌>>=◌}

-- A candle as the exchange sends it, with the prices as texts.
pub record RawKline : Type 0 where
  pub open_at : ℕ
  pub close_at : ℕ
  pub open_text : String
  pub high_text : String
  pub low_text : String
  pub close_text : String
  pub volume_text : String
  pub quote_volume_text : String

-- The exchange's client, and the table of candles.
pub record Market (F S : Type 0) : Type 0 where
  -- `NewKlinesService().Symbol(…)….Do`, from a start to an end, with a limit
  pub klines : String → String → ℕ → ℕ → ℕ → Act S (List RawKline)
  -- `strconv.ParseFloat` with the error dropped
  pub parse_float : String → F
  pub table : KlineTable F S

abbrev pub fetch_batch_limit : ℕ
fetch_batch_limit = 1000

abbrev pub hour_ms : ℕ
hour_ms = 3600 * 1000

-- The 17th and, for weeks, the 14th of August 2017.
abbrev pub earliest_time : String → ℕ
earliest_time interval =
    if same_text interval "1w" then 17_392 * 24 * hour_ms else 17_395 * 24 * hour_ms

abbrev pub lookback_bars : String → ℕ
lookback_bars interval =
    if same_text interval "1h"
    then 12
    else if same_text interval "1d"
    then 7
    else if same_text interval "1w"
    then 2
    else 3

abbrev pub interval_ms : String → ℕ
interval_ms interval =
    if same_text interval "1d"
    then 24 * hour_ms
    else if same_text interval "1w"
    then 7 * 24 * hour_ms
    else hour_ms

-- Where the fetch begins: a few bars before the latest candle of the table, or at the earliest time.
unfoldable pub start_time : String → Option ℕ → ℕ
start_time interval none = earliest_time interval
start_time interval (some latest) =
    max (latest - lookback_bars interval * interval_ms interval) (earliest_time interval)

-- `klines[len(klines)-1].CloseTime` of a batch that is not empty.
abbrev pub last_close : ℕ → List RawKline → ℕ
last_close d [] = d
last_close d (k ∷ ks) = last_close k.close_at ks

-- An error is only logged.
abbrev pub logged : {S A : Type 0} → Result A × S → Result Unit × S
logged (done a, s) = (done tt, s)
logged (failed e, s) = (done tt, s)
logged (crashed, s) = (crashed, s)

module _ {F S : Type 0} (market : Market F S) (symbol interval : String) where
  abbrev pub to_record : RawKline → KlineRecord F
  to_record k = record {
    symbol = symbol;
    interval = interval;
    open_time = k.open_at;
    close_time = k.close_at;
    open_price = market.parse_float k.open_text;
    high = market.parse_float k.high_text;
    low = market.parse_float k.low_text;
    close = market.parse_float k.close_text;
    volume = market.parse_float k.volume_text;
    quote_volume = market.parse_float k.quote_volume_text;
  }

  -- The loop, on fuel: `false` says that the fuel ran out.
  unfoldable pub fetch_loop : ℕ → ℕ → ℕ → Act S Bool
  unfolding batch_upsert_klines
  fetch_loop zero end start = give false
  fetch_loop (suc fuel) end start =
      let again = fetch_loop fuel end in
      if ltb end start
      then give true
      else market.klines symbol interval start end fetch_batch_limit >>= λ ks.
          if length ks == 0
          then give true
          else batch_upsert_klines market.table (map to_record ks) >>= λ _.
              if ltb (length ks) fetch_batch_limit then give true else again (last_close 0 ks + 1)

  -- One round more than there are milliseconds from the start to the end.
  unfoldable pub fetch_all : ℕ → Act S Bool
  unfolding fetch_loop start_time get_latest_kline_time sync_meta
  fetch_all now = get_latest_kline_time market.table symbol interval >>= λ latest.
      fetch_loop (now + 2) now (start_time interval latest) >>= λ ended.
      (λ s. logged (sync_meta market.table symbol interval s)) >>= λ _. give ended
