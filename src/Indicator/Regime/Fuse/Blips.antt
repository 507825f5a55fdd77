-- ===== src/Indicator/Regime/Fuse/Blips.antt =====
-- No single day of another state is left before the last two days.
use cryptotips.Indicator.Regime.Segments.Cover.{state_eq_iff}
use cryptotips.Base.{refl, [], suc, ◌≢◌, ap, arith, inl, ◌<◌, ◌⊎◌, length, ◌∷◌, ◌≡◌, List}
use cryptotips.Indicator.Regime.Features.{State}
use cryptotips.Indicator.Regime.Fuse.{settle, settle_point, Point, settle_loop}
use cryptotips.Float.{Float}

module _ {F : Type 0} ⦃fl : Float F⦄ where
  -- Behind a day of state `prev`: a day of another state is not followed by one of state `prev` again,
  -- unless that one is the last day.
  abbrev pub Settled : State → List (Point F) → Type 0
  Settled prev [] = Unit
  Settled prev (x ∷ []) = Unit
  Settled prev (x ∷ y ∷ rest) =
      (0 < length rest → x.state ≢ prev → y.state ≢ prev) × Settled x.state (y ∷ rest)

  length-settle_loop :
      (prev : State) (ps : List (Point F)) → length (settle_loop prev ps) ≡ length ps
  unfolding settle_loop
  length-settle_loop prev [] = refl
  length-settle_loop prev (x ∷ []) = refl
  length-settle_loop prev (x ∷ y ∷ []) = refl
  length-settle_loop prev (x ∷ y ∷ z ∷ rest) =
      ap suc (length-settle_loop (settle_point prev x y).state (y ∷ z ∷ rest))

  -- The first day of the result keeps its state or takes the one before.
  record Headed (prev : State) (y : Point F) (ps out : List (Point F)) : Type 0 where
    first : Point F
    others : List (Point F)
    shape : out ≡ first ∷ others
    kept : (first.state ≡ y.state) ⊎ (first.state ≡ prev)
    same_length : length others ≡ length ps

  settle_loop-Headed :
      (prev : State) (y : Point F) (ps : List (Point F))
      → Headed prev y ps (settle_loop prev (y ∷ ps))
  unfolding settle_loop
  settle_loop-Headed prev y [] = record {
    first = y;
    others = [];
    shape = refl;
    kept = inl refl;
    same_length = refl;
  }
  settle_loop-Headed prev y (z ∷ []) = record {
    first = y;
    others = z ∷ [];
    shape = refl;
    kept = inl refl;
    same_length = refl;
  }
  settle_loop-Headed prev y (z ∷ w ∷ ps) = record {
    first = settle_point prev y z;
    others = _;
    shape = refl;
    kept = ground arith;
    same_length = length-settle_loop (settle_point prev y z).state (z ∷ w ∷ ps);
  }

  settle_loop-Settled : (prev : State) (ps : List (Point F)) → Settled prev (settle_loop prev ps)
  unfolding settle_loop
  settle_loop-Settled prev [] = tt
  settle_loop-Settled prev (x ∷ []) = tt
  settle_loop-Settled prev (x ∷ y ∷ []) = ((λ h. absurd (omega arith)), tt)
  settle_loop-Settled prev (x ∷ y ∷ z ∷ rest) =
      let x' = settle_point prev x y in
      let headed = settle_loop-Headed x'.state y (z ∷ rest) in
      let later = settle_loop-Settled x'.state (y ∷ z ∷ rest) in
      rw headed.shape (stays headed.first headed.kept, rw headed.shape at later)
    where
      stays :
          (y' : Point F)
          → (y'.state ≡ y.state) ⊎ (y'.state ≡ (settle_point prev x y).state)
          → 0
            < length (Headed.others (settle_loop-Headed (settle_point prev x y).state y (z ∷ rest)))
          → (settle_point prev x y).state ≢ prev
          → y'.state ≢ prev
      stays y' kept h differs e =
          ground (arith, state_eq_iff x.state prev, state_eq_iff y.state prev)

  -- In the fused series no day stands alone: a day whose state differs from the day before is followed
  -- by another day that differs from that one too, unless the following day is the last.
  pub settle-Settled :
      (x : Point F) (ps : List (Point F))
      → (settle (x ∷ ps) ≡ x ∷ settle_loop x.state ps) × Settled x.state (settle_loop x.state ps)
  unfolding settle
  settle-Settled x ps = (refl, settle_loop-Settled x.state ps)
