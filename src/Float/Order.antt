-- ===== src/Float/Order.antt =====
-- What IEEE 754 promises of the comparisons: `<=` is a total order on the values that are not NaN,
-- `<` is its strict part, and a comparison with NaN is false.
use cryptotips.Base.{ℕ, ◌≡◌, false, not, ◌⊎◌, arith}
use cryptotips.Float.{Float, ◌<?◌, ◌≤?◌, ◌≼◌, ◌≺◌, IsNum, of_ℕ}

pub record IsOrdered (F : Type 0) ⦃fl : Float F⦄ : Type 0 where
  pub num_of_le : (x y : F) → x ≼ y → IsNum x × IsNum y
  pub num_of_lt : (x y : F) → x ≺ y → IsNum x × IsNum y
  pub le_trans : (x y z : F) → x ≼ y → y ≼ z → x ≼ z
  pub le_total : (x y : F) → IsNum x → IsNum y → (x ≼ y) ⊎ (y ≼ x)
  pub lt-eq-not-le : (x y : F) → IsNum x → IsNum y → (x <? y) ≡ not (y ≤? x)
  pub num-of_ℕ : (n : ℕ) → IsNum {F = F} (of_ℕ n)

module _ {F : Type 0} ⦃fl : Float F⦄ (laws : IsOrdered F) where
  open laws use {num_of_le, num_of_lt, le_trans, le_total, lt-eq-not-le}

  pub le_of_lt : (x y : F) → x ≺ y → x ≼ y
  le_of_lt x y h =
      let (nx, ny) = num_of_lt x y h in ground (arith, lt-eq-not-le x y nx ny, le_total x y nx ny)

  -- A comparison that fails between numbers gives the other one.
  pub le_of_not-lt : (x y : F) → IsNum x → IsNum y → (x <? y) ≡ false → y ≼ x
  le_of_not-lt x y nx ny h = ground (arith, lt-eq-not-le x y nx ny)

  pub lt_of_not-le : (x y : F) → IsNum x → IsNum y → (x ≤? y) ≡ false → y ≺ x
  lt_of_not-le x y nx ny h = ground (arith, lt-eq-not-le y x ny nx)

  pub lt_of_lt-le : (x y z : F) → x ≺ y → y ≼ z → x ≺ z
  lt_of_lt-le x y z h k =
      let (nx, ny) = num_of_lt x y h in
      let (_, nz) = num_of_le y z k in
      ground (arith, lt-eq-not-le x y nx ny, lt-eq-not-le x z nx nz, le_trans y z x k)
