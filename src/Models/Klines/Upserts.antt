-- ===== src/Models/Klines/Upserts.antt =====
-- What the table of candles promises, as a list of its rows. Its unique index is of the symbol, the
-- interval and the open time. The decimal columns are taken to hold the prices that they are given.
use Prim.Native.String.{String}
use cryptotips.Models.Klines.{
  KlineMeta, of_pair, refreshed, batch_upsert_klines, get_latest_kline_time, open_of, KlineTable,
}
use cryptotips.Models.{KlineRecord, select}
use cryptotips.Base.Texts.{same_text}
use cryptotips.Base.Act.{Ends-after, crashed, ended, Ends}
use cryptotips.Base.{
  arith, false, length, max, refl, some, ◌≢◌, [], if◌then◌else◌, none, ◌==◌, ◌≡◌, Option, ◌&&◌,
  ◌++◌, ◌∷◌, Bool, List, ℕ,
}

module _ {F : Type 0} where
  abbrev pub same_key : KlineRecord F → KlineRecord F → Bool
  same_key a b =
      same_text a.symbol b.symbol && same_text a.interval b.interval && a.open_time == b.open_time

  -- `INSERT … ON DUPLICATE KEY UPDATE` of a row: the row with its key is assigned to, or it is new.
  abbrev pub upsert_row :
      (KlineRecord F → KlineRecord F → KlineRecord F)
      → KlineRecord F
      → List (KlineRecord F)
      → List (KlineRecord F)
  upsert_row assign r [] = r ∷ []
  upsert_row assign r (x ∷ xs) =
      let rest = upsert_row assign r xs in if same_key x r then assign x r ∷ xs else x ∷ rest

  -- One row after the other.
  abbrev pub upsert_all :
      (KlineRecord F → KlineRecord F → KlineRecord F)
      → List (KlineRecord F)
      → List (KlineRecord F)
      → List (KlineRecord F)
  upsert_all assign [] rows = rows
  upsert_all assign (r ∷ rs) rows = upsert_all assign rs (upsert_row assign r rows)

  pub upsert_all-append :
      (assign : KlineRecord F → KlineRecord F → KlineRecord F) (rs qs rows : List (KlineRecord F))
      → upsert_all assign (rs ++ qs) rows ≡ upsert_all assign qs (upsert_all assign rs rows)
  upsert_all-append assign [] qs rows = refl
  upsert_all-append assign (r ∷ rs) qs rows =
      upsert_all-append assign rs qs (upsert_row assign r rows)

  pub has_rows : (r : KlineRecord F) (rs : List (KlineRecord F)) → (length (r ∷ rs) == 0) ≡ false
  has_rows r rs = ground arith

  -- The largest open time.
  abbrev pub latest_open : List (KlineRecord F) → Option ℕ
  latest_open [] = none
  latest_open (k ∷ ks) = some (later_of k.open_time (latest_open ks))
    where
      later_of : ℕ → Option ℕ → ℕ
      later_of t none = t
      later_of t (some u) = max t u

-- Each statement does what it says, unless it fails or panics, and then `E` is true. The statements on
-- the summing row leave the candles alone, whether they fail or not, and do not panic.
pub record IsKlineTable {F S : Type 0} (db : KlineTable F S) (rows : S → List (KlineRecord F))
    (E : S → Type 0) : Type 0 where
  pub first-Ends :
      (p : KlineRecord F → Bool) (s : S)
      → Ends
          (λ r s'. (open_of db r ≡ latest_open (select p (rows s))) × (rows s' ≡ rows s))
          E
          (db.first_latest p s)
  pub create-Ends :
      (n : ℕ) (rs : List (KlineRecord F)) (s : S)
      → Ends
          (λ _ s'. rows s' ≡ upsert_all refreshed rs (rows s))
          E
          (db.create_in_batches refreshed n rs s)
  pub aggregate-rows :
      (p : KlineRecord F → Bool) (s : S)
      → (rows (db.aggregate p s).1 ≡ rows s) × ((db.aggregate p s).0 ≢ crashed)
  pub meta-rows :
      (m : KlineMeta) (s : S)
      → (rows (db.upsert_meta m s).1 ≡ rows s) × ((db.upsert_meta m s).0 ≢ crashed)

module _ {F S : Type 0} (db : KlineTable F S) (rows : S → List (KlineRecord F)) (E : S → Type 0)
    (laws : IsKlineTable db rows E) where
  pub batch_upsert_klines-Ends :
      (rs : List (KlineRecord F)) (s : S)
      → Ends (λ _ s'. rows s' ≡ upsert_all refreshed rs (rows s)) E (batch_upsert_klines db rs s)
  unfolding batch_upsert_klines
  batch_upsert_klines-Ends [] s = ended refl
  batch_upsert_klines-Ends (r ∷ rs) s = rw (has_rows r rs) (laws.create-Ends 500 (r ∷ rs) s)

  pub get_latest_kline_time-Ends :
      (symbol interval : String) (s : S)
      → Ends
          (λ t s'.
            (t ≡ latest_open (select (of_pair symbol interval) (rows s))) × (rows s' ≡ rows s))
          E
          (get_latest_kline_time db symbol interval s)
  unfolding get_latest_kline_time
  get_latest_kline_time-Ends symbol interval s =
      Ends-after (laws.first-Ends (of_pair symbol interval) s) λ r s1 h. ended h
