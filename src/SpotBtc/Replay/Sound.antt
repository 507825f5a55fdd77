-- ===== src/SpotBtc/Replay/Sound.antt =====
-- What the steps of a bar keep: one side at most, and counters in their bounds.
use cryptotips.Models.{KlineRecord}
use cryptotips.SpotBtc.Signal.Safe.{Total}
use cryptotips.Base.Outcome.{Returns-if, value, Returns-bind, Returns, Run}
use cryptotips.Base.{
  length-append, subst, length, ◌+◌, [], ◌++◌, ◌∷◌, refl, List, inl, ℕ, true, Bool, arith, ◌⊎◌,
  false, ◌<◌, ◌≡◌, ◌≤◌,
}
use cryptotips.SpotBtc.Replay.{short, long, ReplayPosition, Direction}
use cryptotips.SpotBtc.Replay.Book.{
  each_bar, step_active, both_forced_out, forced_out, with_position, empty_book, is_flat, step_both,
  take_result, position, over_ledger, Book,
}
use cryptotips.Float.{Float}
use cryptotips.SpotBtc.Replay.Ledger.{
  equity_of, earned, marked, BarKeys, pause_less, scored, booked, counted, Ledger,
}

module _ {F : Type 0} where
  -- A long and a short are never open together.
  abbrev pub OneSided : Book F → Type 0
  OneSided b = (b.long_pos.active ≡ false) ⊎ (b.short_pos.active ≡ false)

  -- The third loss in a row becomes a pause.
  pub record IsCounted (l : Ledger F) : Type 0 where
    pub wins_bound : l.wins ≤ l.trade_count
    pub streak_bound : l.consecutive_losses < 3
    pub pause_bound : l.pause_bars ≤ 6

  pub record IsBook (b : Book F) : Type 0 where
    pub one_side : OneSided b
    pub is_counted : IsCounted b.ledger

module _ {F : Type 0} ⦃fl : Float F⦄ where
  scored-IsCounted : (pnl : F) (l : Ledger F) → IsCounted l → IsCounted (counted (scored pnl l))
  scored-IsCounted pnl l c = ground arith

  booked-IsCounted :
      (capital pnl : F) (keys : BarKeys) (l : Ledger F)
      → IsCounted l
      → IsCounted (booked capital keys pnl l)
  unfolding booked
  booked-IsCounted capital pnl keys l c = scored-IsCounted pnl _ (record {
    wins_bound = c.wins_bound;
    streak_bound = c.streak_bound;
    pause_bound = c.pause_bound;
  })

  pub pause_less-IsBook : (b : Book F) → IsBook b → IsBook (over_ledger pause_less b)
  pause_less-IsBook b s = ground arith

  take_result-IsBook :
      (d : Direction) (capital : F) (keys : BarKeys) (r : ReplayPosition F × F × Bool) (b : Book F)
      → IsBook b
      → (position d b).active ≡ true
      → IsBook (take_result d capital keys r b)
  take_result-IsBook long capital keys (pos, pnl, true) b s e = record {
    one_side = ground arith;
    is_counted = booked-IsCounted capital pnl keys b.ledger s.is_counted;
  }
  take_result-IsBook long capital keys (pos, pnl, false) b s e = ground arith
  take_result-IsBook short capital keys (pos, pnl, true) b s e = record {
    one_side = ground arith;
    is_counted = booked-IsCounted capital pnl keys b.ledger s.is_counted;
  }
  take_result-IsBook short capital keys (pos, pnl, false) b s e = ground arith

  step_active-IsBook :
      (d : Direction) (capital : F) (keys : BarKeys)
      (step : ReplayPosition F → Run (ReplayPosition F × F × Bool)) (b : Book F)
      → ((pos : ReplayPosition F) → Total (step pos))
      → IsBook b
      → Returns IsBook (step_active d capital keys step b)
  step_active-IsBook d capital keys step b total s =
      Returns-if (position d b).active
        (λ e.
          Returns-bind (total (position d b))
            λ r _. value (take_result-IsBook d capital keys r b s e))
        λ _. value s

  marked-IsBook : (equity : F) (b : Book F) → IsBook b → IsBook (over_ledger (marked equity) b)
  unfolding marked
  marked-IsBook equity b s = ground arith

  -- The steps of a bar, on both sides.
  pub step_both-IsBook :
      (capital : F) (keys : BarKeys) (price : F)
      (step : Direction → ReplayPosition F → Run (ReplayPosition F × F × Bool)) (b : Book F)
      → ((d : Direction) (pos : ReplayPosition F) → Total (step d pos))
      → IsBook b
      → Returns IsBook (step_both capital keys price step b)
  unfolding step_both
  step_both-IsBook capital keys price step b total s =
      Returns-bind (step_active-IsBook long capital keys (step long) b (total long) s) λ b1 s1.
        Returns-bind (step_active-IsBook short capital keys (step short) b1 (total short) s1)
          λ b2 s2. value (marked-IsBook (equity_of b2.ledger b2.long_pos b2.short_pos price) b2 s2)

  earned-IsCounted :
      (capital pnl : F) (month : ℕ) (l : Ledger F)
      → IsCounted l
      → IsCounted (counted (earned capital month pnl l))
  earned-IsCounted capital pnl month l c = ground arith

  forced_out-IsBook :
      (d : Direction) (capital : F) (month : ℕ) (price : F) (b : Book F)
      → IsBook b
      → IsBook (forced_out d capital month price b)
  forced_out-IsBook long capital month price b s = ground arith
  forced_out-IsBook short capital month price b s = ground arith

  pub both_forced_out-IsBook :
      (capital : F) (month : ℕ) (price : F) (b : Book F)
      → IsBook b
      → IsBook (both_forced_out capital month price b)
  both_forced_out-IsBook capital month price b s =
      forced_out-IsBook short capital month price (forced_out long capital month price b)
        (forced_out-IsBook long capital month price b s)

  -- A position that is opened on an empty book is the only one.
  pub with_position-IsBook :
      (d : Direction) (pos : ReplayPosition F) (b : Book F)
      → is_flat b ≡ true
      → IsBook b
      → IsBook (with_position d pos b)
  with_position-IsBook long pos b flat s = ground arith
  with_position-IsBook short pos b flat s = ground arith

  pub empty_book-IsBook : IsBook {F = F} empty_book
  empty_book-IsBook = record {
    one_side = inl refl;
    is_counted = record {
      wins_bound = omega arith;
      streak_bound = omega arith;
      pause_bound = omega arith;
    };
  }

-- What holds at the start and is kept by every bar holds at the end; `P n` is for `n` candles.
module _ {F S : Type 0} (P : ℕ → S → Type 0) (skip : ℕ → Bool)
    (bar : List (KlineRecord F) → KlineRecord F → S → Run S)
    (waits : (n : ℕ) (s : S) → P n s → P (n + 1) s)
    (keeps : (seen : List (KlineRecord F)) (k : KlineRecord F) (s : S)
      → P (length seen) s
      → Returns (P (length seen + 1)) (bar seen k s)) where
  each_bar_from :
      (s : S) (seen ks : List (KlineRecord F)) (n : ℕ)
      → length seen + length ks ≡ n
      → P (length seen) s
      → Returns (P n) (each_bar skip bar s seen ks)
  unfolding each_bar
  each_bar_from s seen [] n e p = value (subst (λ m. P m s) (omega arith) p)
  each_bar_from s seen (k ∷ ks) n e p =
      let now = seen ++ k ∷ [] in
      let longer : length seen + 1 ≡ length now = omega (arith, length-append {0} seen (k ∷ [])) in
      let total : length now + length ks ≡ n = omega arith in
      Returns-if (skip k.open_time)
        (λ _. each_bar_from s now ks n total (subst (λ m. P m s) longer (waits (length seen) s p)))
        λ _.
          Returns-bind (keeps seen k s p)
            λ s' p'. each_bar_from s' now ks n total (subst (λ m. P m s') longer p')

  pub each_bar-Returns :
      (s : S) (ks : List (KlineRecord F))
      → P 0 s
      → Returns (P (length ks)) (each_bar skip bar s [] ks)
  each_bar-Returns s ks p = each_bar_from s [] ks (length ks) (omega arith) p
