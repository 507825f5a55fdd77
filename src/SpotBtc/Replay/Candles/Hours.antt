-- ===== src/SpotBtc/Replay/Candles/Hours.antt =====
-- aggregate1hTo4h: how many candles there are, and what each of them spans.
use cryptotips.SpotBtc.Replay.Candles.{aggregate_1h_to_4h, four_hours}
use cryptotips.Models.{KlineRecord}
use cryptotips.Float.Order.{le_of_not-lt, le_of_lt, IsOrdered}
use cryptotips.Base.{
  refl, arith, ◌∙◌, inr, inl, ◌<◌, Bool-cases, [], length, if◌then◌else◌, ◌∷◌, ◌⊎◌, List, ◌≡◌,
}
use cryptotips.Float.{◌<?◌, ◌⊕◌, IsNum, of_ℕ, ◌≼◌, Float}

module _ {F : Type 0} ⦃fl : Float F⦄ where
  abbrev pub PricesNum : List (KlineRecord F) → Type 0
  PricesNum [] = Unit
  PricesNum (k ∷ ks) = IsNum k.high × IsNum k.low × PricesNum ks

  -- The range of a candle holds that of an hour.
  abbrev pub Spans : KlineRecord F → KlineRecord F → Type 0
  Spans c k = (k.high ≼ c.high) × (c.low ≼ k.low)

  abbrev pub OneOf : F → F → F → F → F → Type 0
  OneOf x a b c d = (x ≡ a) ⊎ (x ≡ b) ⊎ (x ≡ c) ⊎ (x ≡ d)

  -- A candle of four hours: it opens with the first and closes with the last, its range is the least that
  -- holds all four, and its volume is theirs.
  abbrev pub IsFourHours : (c k1 k2 k3 k4 : KlineRecord F) → Type 0
  IsFourHours c k1 k2 k3 k4 =
      (c.open_time ≡ k1.open_time)
      × (c.close_time ≡ k4.close_time)
      × (c.open_price ≡ k1.open_price)
      × (c.close ≡ k4.close)
      × (c.volume ≡ of_ℕ 0 ⊕ k1.volume ⊕ k2.volume ⊕ k3.volume ⊕ k4.volume)
      × (Spans c k1 × Spans c k2 × Spans c k3 × Spans c k4)
      × OneOf c.high k1.high k2.high k3.high k4.high
      × OneOf c.low k1.low k2.low k3.low k4.low

  -- Four hours for each candle, and at most three at the end for none.
  abbrev pub FourByFour : List (KlineRecord F) → List (KlineRecord F) → Type 0
  FourByFour (c ∷ cs) (k1 ∷ k2 ∷ k3 ∷ k4 ∷ ks) = IsFourHours c k1 k2 k3 k4 × FourByFour cs ks
  FourByFour (c ∷ cs) _ = ⊥
  FourByFour [] ks = length ks < 4

  abbrev wider : F → F → F
  wider a b = if a <? b then b else a

  abbrev narrower : F → F → F
  narrower a b = if b <? a then b else a

  -- A choice of one of two, four times.
  picks_one :
      (pick : F → F → F)
      → ((x y : F) → (pick x y ≡ x) ⊎ (pick x y ≡ y))
      → (a b c d : F) → OneOf (pick (pick (pick (pick a a) b) c) d) a b c d
  picks_one pick either a b c d = elim (either (pick (pick (pick a a) b) c) d) [
    | inr e ↦ inr (inr (inr e))
    | inl e ↦ elim (either (pick (pick a a) b) c) [
      | inr f ↦ inr (inr (inl (e ∙ f)))
      | inl f ↦ elim (either (pick a a) b) [
        | inr g ↦ inr (inl (e ∙ f ∙ g))
        | inl g ↦ inl (e ∙ f ∙ g ∙ elim (either a a) [ inl h ↦ h | inr h ↦ h ])
      ]
    ]
  ]

  wider-either : (x y : F) → (wider x y ≡ x) ⊎ (wider x y ≡ y)
  wider-either x y = ground arith

  narrower-either : (x y : F) → (narrower x y ≡ x) ⊎ (narrower x y ≡ y)
  narrower-either x y = ground arith

  module _ (laws : IsOrdered F) where
    wider-le : (a b : F) → IsNum a → IsNum b → (a ≼ wider a b) × (b ≼ wider a b) × IsNum (wider a b)
    wider-le a b p q = elim (Bool-cases (a <? b)) [
      | inl less ↦ rw less (le_of_lt laws a b less, q, q)
      | inr more ↦ rw more (p, le_of_not-lt laws a b p q more, p)
    ]

    narrower-le :
        (a b : F)
        → IsNum a
        → IsNum b
        → (narrower a b ≼ a) × (narrower a b ≼ b) × IsNum (narrower a b)
    narrower-le a b p q = elim (Bool-cases (b <? a)) [
      | inl less ↦ rw less (le_of_lt laws b a less, q, q)
      | inr more ↦ rw more (p, le_of_not-lt laws b a q p more, p)
    ]

    highest_of_four :
        (a b c d : F)
        → IsNum a × IsNum b × IsNum c × IsNum d
        → let h = wider (wider (wider (wider a a) b) c) d in (a ≼ h) × (b ≼ h) × (c ≼ h) × (d ≼ h)
    highest_of_four a b c d (p, q, r, s) =
        let h1 = wider-le a a p p in
        let h2 = wider-le (wider a a) b h1.2 q in
        let h3 = wider-le (wider (wider a a) b) c h2.2 r in
        let h4 = wider-le (wider (wider (wider a a) b) c) d h3.2 s in
        let up = λ (x : F) (below : x ≼ wider (wider (wider a a) b) c).
          laws.le_trans x (wider (wider (wider a a) b) c) (wider (wider (wider (wider a a) b) c) d)
            below h4.0 in
        let b3 = laws.le_trans b (wider (wider a a) b) (wider (wider (wider a a) b) c) h2.1 h3.0 in
        let a2 = laws.le_trans a (wider a a) (wider (wider a a) b) h1.0 h2.0 in
        let a3 = laws.le_trans a (wider (wider a a) b) (wider (wider (wider a a) b) c) a2 h3.0 in
        (up a a3, up b b3, up c h3.1, h4.1)

    lowest_of_four :
        (a b c d : F)
        → IsNum a × IsNum b × IsNum c × IsNum d
        → let h = narrower (narrower (narrower (narrower a a) b) c) d in
          (h ≼ a) × (h ≼ b) × (h ≼ c) × (h ≼ d)
    lowest_of_four a b c d (p, q, r, s) =
        let h1 = narrower-le a a p p in
        let h2 = narrower-le (narrower a a) b h1.2 q in
        let h3 = narrower-le (narrower (narrower a a) b) c h2.2 r in
        let h4 = narrower-le (narrower (narrower (narrower a a) b) c) d h3.2 s in
        let down = λ (x : F) (above : narrower (narrower (narrower a a) b) c ≼ x).
          laws.le_trans (narrower (narrower (narrower (narrower a a) b) c) d)
            (narrower (narrower (narrower a a) b) c) x h4.0 above in
        let b3 =
          laws.le_trans (narrower (narrower (narrower a a) b) c) (narrower (narrower a a) b) b h3.0
            h2.1 in
        let a2 = laws.le_trans (narrower (narrower a a) b) (narrower a a) a h2.0 h1.0 in
        let a3 =
          laws.le_trans (narrower (narrower (narrower a a) b) c) (narrower (narrower a a) b) a h3.0
            a2 in
        (down a a3, down b b3, down c h3.1, h4.1)

    four_hours-IsFourHours :
        (k1 k2 k3 k4 : KlineRecord F) (ks : List (KlineRecord F))
        → PricesNum (k1 ∷ k2 ∷ k3 ∷ k4 ∷ ks)
        → IsFourHours (four_hours k1 k2 k3 k4) k1 k2 k3 k4
    four_hours-IsFourHours k1 k2 k3 k4 ks (h1, l1, (h2, l2, (h3, l3, (h4, l4, _)))) =
        let (a, b, c, d) = highest_of_four k1.high k2.high k3.high k4.high (h1, h2, h3, h4) in
        let (u, v, w, x) = lowest_of_four k1.low k2.low k3.low k4.low (l1, l2, l3, l4) in
        (
          refl,
          refl,
          refl,
          refl,
          refl,
          ((a, u), (b, v), (c, w), (d, x)),
          picks_one wider wider-either k1.high k2.high k3.high k4.high,
          picks_one narrower narrower-either k1.low k2.low k3.low k4.low,
        )

    -- Where the prices are numbers, each candle of four hours is made of the next four: it opens with the
    -- first and closes with the last, its high and its low are those of one of them and beyond none, and
    -- its volume is the sum of theirs; at most three hours at the end are in no candle.
    pub aggregate_1h_to_4h-FourByFour :
        (ks : List (KlineRecord F)) → PricesNum ks → FourByFour (aggregate_1h_to_4h ks) ks
    unfolding aggregate_1h_to_4h
    aggregate_1h_to_4h-FourByFour [] p = omega arith
    aggregate_1h_to_4h-FourByFour (k1 ∷ []) p = omega arith
    aggregate_1h_to_4h-FourByFour (k1 ∷ k2 ∷ []) p = omega arith
    aggregate_1h_to_4h-FourByFour (k1 ∷ k2 ∷ k3 ∷ []) p = omega arith
    aggregate_1h_to_4h-FourByFour (k1 ∷ k2 ∷ k3 ∷ k4 ∷ ks) p =
        (four_hours-IsFourHours k1 k2 k3 k4 ks p, aggregate_1h_to_4h-FourByFour ks p.2.2.2.2)
