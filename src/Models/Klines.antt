-- ===== src/Models/Klines.antt =====
-- models/kline.go and models/kline_meta.go: the queries of the candles, and the row that sums them up.
-- The id and md5 columns, which no query of the candles reads, are left out.
pub mod Upserts
pub mod Finds
use cryptotips.Base.Texts.{same_text}
use cryptotips.Base.Act.{◌>>=◌, give, reads, Act}
use Prim.Native.String.{String}
use cryptotips.Base.{
  none, length, some, Option, if◌then◌else◌, ◌&&◌, leb, List, ◌||◌, ◌==◌, Bool, ℕ,
}
use cryptotips.Models.{KlineRecord, Database}

-- A bound that is the zero time is not applied.
abbrev from_start : ℕ → ℕ → Bool
from_start start t = (start == 0) || leb start t

abbrev to_end : ℕ → ℕ → Bool
to_end finish t = (finish == 0) || leb t finish

module _ {F : Type 0} where
  abbrev pub get_klines :
      (db : Database F) → String → String → ℕ → ℕ → Act db.State (List (KlineRecord F))
  get_klines db symbol interval start finish = reads λ s. db.find_klines s (λ k.
      (same_text k.symbol symbol)
      && (same_text k.interval interval)
      && from_start start k.open_time
      && to_end finish k.open_time)

  -- The candles of a symbol and an interval.
  abbrev pub of_pair : String → String → KlineRecord F → Bool
  of_pair symbol interval k = same_text k.symbol symbol && same_text k.interval interval

  -- The columns that the upsert assigns on a duplicate key.
  abbrev pub refreshed : KlineRecord F → KlineRecord F → KlineRecord F
  refreshed old new = record old {
    close_time = new.close_time;
    open_price = new.open_price;
    high = new.high;
    low = new.low;
    close = new.close;
    volume = new.volume;
    quote_volume = new.quote_volume;
  }

-- A row of the table that sums up the candles of a symbol and an interval.
pub record KlineMeta : Type 0 where
  pub meta_symbol : String
  pub meta_interval : String
  pub kline_count : ℕ
  pub earliest_at : ℕ
  pub latest_at : ℕ

-- What gorm does for the candles, over an unknown state of the database.
pub record KlineTable (F S : Type 0) : Type 0 where
  -- `Where(…).Order("open_time DESC").First`, with none for ErrRecordNotFound
  pub first_latest : (KlineRecord F → Bool) → Act S (Option (KlineRecord F))
  -- `Clauses(OnConflict{DoUpdates: …}).CreateInBatches(&records, …)`, with the assignment on a
  -- duplicate key and the size of a batch
  pub create_in_batches :
      (KlineRecord F → KlineRecord F → KlineRecord F) → ℕ → List (KlineRecord F) → Act S Unit
  -- `Select("COUNT(*) …, MIN(open_time) …, MAX(open_time) …").Where(…).Scan`
  pub aggregate : (KlineRecord F → Bool) → Act S (ℕ × ℕ × ℕ)
  -- the upsert of the summing row; the time of the update is a column that is left out
  pub upsert_meta : KlineMeta → Act S Unit

module _ {F S : Type 0} (db : KlineTable F S) where
  unfoldable pub batch_upsert_klines : List (KlineRecord F) → Act S Unit
  batch_upsert_klines rs = if length rs == 0 then give tt else db.create_in_batches refreshed 500 rs

  abbrev pub open_of : Option (KlineRecord F) → Option ℕ
  open_of none = none
  open_of (some k) = some k.open_time

  unfoldable pub get_latest_kline_time : String → String → Act S (Option ℕ)
  get_latest_kline_time symbol interval =
      db.first_latest (of_pair symbol interval) >>= λ r. give (open_of r)

  unfoldable pub sync_meta : String → String → Act S Unit
  sync_meta symbol interval =
      db.aggregate (of_pair symbol interval) >>= λ (count, earliest, latest).
      db.upsert_meta (record {
        meta_symbol = symbol;
        meta_interval = interval;
        kline_count = count;
        earliest_at = earliest;
        latest_at = latest;
      })
