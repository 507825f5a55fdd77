-- ===== src/App/Fetch/Complete.antt =====
-- fetchAll ends, and stores every candle of the exchange.
use cryptotips.App.Fetch.Logged.{logged-after}
use cryptotips.Models.Klines.Finds.{
  upsert_all-UniqueKeys, find_row-upsert_all, last_given, UniqueKeys, find_row,
}
use cryptotips.Models.Klines.{of_pair, refreshed, sync_meta}
use cryptotips.Models.Klines.Upserts.{
  get_latest_kline_time-Ends, upsert_all-append, batch_upsert_klines-Ends, latest_open, upsert_all,
  IsKlineTable,
}
use mathlib.Core.Path.{ap₂}
use cryptotips.App.Fetch.Batches.{
  in_range-none, take_all, in_range-UpTo, in_range-drop, in_range-in_range, in_range-FromStart,
  last_close_from, in_range-InSequence, in_range, InSequence,
}
use cryptotips.Models.{select, KlineRecord}
use cryptotips.Base.{
  false, ltb→lt, zero, ◌==◌, ltb, take-append-drop, drop, ap, refl, subst, suc, [], ◌∷◌, ◌≤◌, ◌∙◌,
  arith, sym, ◌+◌, length, ◌++◌, take, true, ◌<◌, Bool, ◌≡◌, map, ℕ, List,
}
use Prim.Native.String.{String}
use cryptotips.App.Fetch.{
  logged, fetch_batch_limit, start_time, fetch_all, fetch_loop, last_close, to_record, RawKline,
  Market,
}
use cryptotips.Base.Act.{Ends-map, ended, Ends-after, Ends-if, Ends}

-- The exchange has a fixed list of candles, which follow one another, and a reply is the first of those
-- in range; a call to it does not change the table. It may fail, and then `E` is true.
pub record IsExchange {F S : Type 0} (market : Market F S) (symbol interval : String)
    (candles : List RawKline) (rows : S → List (KlineRecord F)) (E : S → Type 0) : Type 0 where
  pub sequence : InSequence 0 candles
  pub klines-Ends :
      (start end limit : ℕ) (s : S)
      → Ends
          (λ ks s'. (ks ≡ take limit (in_range start end candles)) × (rows s' ≡ rows s))
          E
          (market.klines symbol interval start end limit s)

zero_of : (n : ℕ) → (n == 0) ≡ true → n ≡ 0
zero_of n h = ground arith

positive_of : (n : ℕ) → (n == 0) ≡ false → 0 < n
positive_of n h = ground arith

within_of : (a b : ℕ) → ltb a b ≡ false → b ≤ a
within_of a b h = ground arith

module _ {F S : Type 0} (market : Market F S) (symbol interval : String) (candles : List RawKline)
    (rows : S → List (KlineRecord F)) (E : S → Type 0)
    (laws : IsExchange market symbol interval candles rows E)
    (tables : IsKlineTable market.table rows E) where
  abbrev records : List RawKline → List (KlineRecord F)
  records = map (to_record market symbol interval)

  -- The loop has ended, and the candles of the range are upserted, in order.
  abbrev Complete : ℕ → ℕ → S → Bool → S → Type 0
  Complete start end s stop s' =
      (stop ≡ true)
      × (rows s' ≡ upsert_all refreshed (records (in_range start end candles)) (rows s))

  map-append : (xs ys : List RawKline) → records (xs ++ ys) ≡ records xs ++ records ys
  map-append [] ys = refl
  map-append (x ∷ xs) ys = ap (◌∷◌ (to_record market symbol interval x)) (map-append xs ys)

  records-none : (ks : List RawKline) → length ks ≡ 0 → records ks ≡ []
  records-none [] h = refl
  records-none (k ∷ ks) h = absurd (omega arith)

  -- The batch is the first part of the range, and what begins behind its close is the rest.
  batch_joins :
      (n start end : ℕ) (ks : List RawKline)
      → ks ≡ take n (in_range start end candles)
      → 0 < length ks
      → (start ≤ last_close 0 ks)
        × (records ks ++ records (in_range (last_close 0 ks + 1) end candles)
            ≡ records (in_range start end candles))
  batch_joins n start end ks e h =
      let xs = in_range start end candles in
      let q = in_range-InSequence 0 start end candles laws.sequence in
      let from = in_range-FromStart start end candles in
      let later : start ≤ last_close 0 (take n xs) =
        last_close_from 0 start n xs from q (subst (λ l. 0 < length l) e h) in
      let rest : in_range (last_close 0 (take n xs) + 1) end candles ≡ drop n xs =
        sym (in_range-in_range start (last_close 0 (take n xs) + 1) end candles (omega arith))
        ∙ in_range-drop 0 end n xs q (in_range-UpTo start end candles) in
      rw e (
        later,
        ap (λ l. records (take n xs) ++ records l) rest
            ∙ sym (map-append (take n xs) (drop n xs))
            ∙ ap records (take-append-drop n xs),
      )

  short_batch : (n : ℕ) (ks xs : List RawKline) → ks ≡ take n xs → length ks < n → ks ≡ xs
  short_batch n ks xs e h = e ∙ take_all n xs (subst (λ l. length l < n) e h)

  fetch_loop-Complete :
      (fuel end start : ℕ) (s : S)
      → 0 < fuel
      → end + 2 ≤ start + fuel
      → Ends (Complete start end s) E (fetch_loop market symbol interval fuel end start s)
  unfolding fetch_loop
  fetch_loop-Complete zero end start s p h = absurd (omega arith)
  fetch_loop-Complete (suc fuel) end start s p h =
      let xs = in_range start end candles in
      let put : List (KlineRecord F) → List (KlineRecord F) =
        λ rs. upsert_all refreshed rs (rows s) in
      Ends-if _ _ s (ltb end start)
        (λ over. ended (refl, rw (in_range-none start end candles (ground arith)) refl))
        λ within. Ends-after (laws.klines-Ends start end fetch_batch_limit s) λ ks s1 (batch, same).
          Ends-if _ _ s1 (length ks == 0)
            (λ empty. ended (
              refl,
              same
                  ∙ ap put (
                      sym (records-none ks (zero_of (length ks) empty))
                      ∙ ap records (
                          short_batch fetch_batch_limit ks xs batch
                            (omega (arith, zero_of (length ks) empty)))),
            ))
            λ filled.
              Ends-after (batch_upsert_klines-Ends market.table rows E tables (records ks) s1)
                λ _ s2 more.
                  let grown = more ∙ ap (upsert_all refreshed (records ks)) same in
                  Ends-if _ _ s2 (ltb (length ks) fetch_batch_limit)
                    (λ short. ended (
                      refl,
                      grown
                          ∙ ap (λ l. put (records l))
                              (short_batch fetch_batch_limit ks xs batch (ltb→lt _ _ short)),
                    ))
                    λ full.
                      let (later, joins) =
                        batch_joins fetch_batch_limit start end ks batch
                          (positive_of (length ks) filled) in
                      Ends-map
                        (fetch_loop-Complete fuel end (last_close 0 ks + 1) s2
                          (omega (arith, within_of end start within)) (omega arith))
                        λ e s3 (stop, all). (
                          stop,
                          all
                              ∙ ap
                                  (upsert_all refreshed
                                    (records (in_range (last_close 0 ks + 1) end candles)))
                                  grown
                              ∙ sym (upsert_all-append refreshed (records ks) _ (rows s))
                              ∙ ap put joins,
                        )

  -- The sum is not written to the table of candles.
  sync_meta-Ends :
      (s : S)
      → Ends (λ _ s'. rows s' ≡ rows s) E (logged (sync_meta market.table symbol interval s))
  unfolding sync_meta
  sync_meta-Ends s =
      let p : KlineRecord F → Bool = of_pair symbol interval in
      logged-after (market.table.aggregate p s) _ rows s E (tables.aggregate-rows p s)
        λ _ s1. tables.meta-rows _ s1

  -- The table after the fetch: by each key, the last of the fetched candles with that key, or else the
  -- row that was there; and no key twice.
  pub record IsFetched (start now : ℕ) (s s' : S) : Type 0 where
    pub found :
        (q : KlineRecord F)
        → find_row q (rows s')
          ≡ last_given q (records (in_range start now candles)) (find_row q (rows s))
    pub unique : UniqueKeys (rows s')

  Complete-IsFetched :
      (start now : ℕ) (s s' : S)
      → UniqueKeys (rows s)
      → rows s' ≡ upsert_all refreshed (records (in_range start now candles)) (rows s)
      → IsFetched start now s s'
  Complete-IsFetched start now s s' u e =
      let fetched = records (in_range start now candles) in
      record {
        found = λ q. ap (find_row q) e ∙ find_row-upsert_all q fetched (rows s);
        unique = subst UniqueKeys (sym e) (upsert_all-UniqueKeys fetched (rows s) u);
      }

  -- Against an exchange whose candles follow one another, fetchAll ends by itself, unless a call to the
  -- exchange or to the table fails. If no key had two rows, none has then, and the table has by each
  -- symbol, interval and open time the candle that begins from the start time to now, with the values
  -- that the exchange gives, if there is one, and otherwise the row that it had before. The start time
  -- is that for the latest open time of the symbol and the interval in the table before.
  pub fetch_all-Complete :
      (now : ℕ) (s : S)
      → UniqueKeys (rows s)
      → Ends
          (λ stop s'.
            (stop ≡ true)
            × IsFetched
                (start_time interval (latest_open (select (of_pair symbol interval) (rows s))))
                now
                s
                s')
          E
          (fetch_all market symbol interval now s)
  unfolding fetch_all
  fetch_all-Complete now s u =
      Ends-after (get_latest_kline_time-Ends market.table rows E tables symbol interval s)
        λ latest s1 (begin, same).
          Ends-after
            (fetch_loop-Complete (now + 2) now (start_time interval latest) s1 (omega arith)
              (omega arith))
            λ e s2 (stop, all). Ends-after (sync_meta-Ends s2) λ _ s3 kept. ended (
              stop,
              Complete-IsFetched
                  (start_time interval (latest_open (select (of_pair symbol interval) (rows s))))
                  now s s3 u
                  (kept
                    ∙ all
                    ∙ ap₂ (upsert_all refreshed)
                        (ap (λ l. records (in_range (start_time interval l) now candles)) begin)
                        same),
            )
