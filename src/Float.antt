-- ===== src/Float.antt =====
-- The type float64, as far as the program uses it: a carrier with the operations of the language
-- and of package math. Each component takes it as an instance argument, so no definition depends on
-- how a number is represented; the laws that a proof needs are a record of their own.
pub mod Order
pub mod Fixed
use cryptotips.Base.{ℕ, ◌≡◌, Bool, true, if◌then◌else◌}

-- `dec m k` is the literal m * 10^-k.
pub record Float (F : Type 0) : Type 0 where
  pub of_ℕ : ℕ → F
  pub dec : ℕ → ℕ → F
  pub add : F → F → F
  pub sub : F → F → F
  pub mul : F → F → F
  pub div : F → F → F
  pub neg : F → F
  pub lt : F → F → Bool
  pub le : F → F → Bool
  pub eq : F → F → Bool
  pub abs : F → F
  pub math_max : F → F → F
  pub math_min : F → F → F
  pub sqrt : F → F
  pub log : F → F
  pub tanh : F → F
  pub floor : F → F
  pub round : F → F

module _ {F : Type 0} ⦃fl : Float F⦄ where
  infixl 65 ◌⊕◌ ◌⊖◌
  infixl 70 ◌⊗◌ ◌⊘◌
  infix 50 ◌<?◌ ◌≤?◌ ◌=?◌
  abbrev pub ◌⊕◌ : F → F → F
  x ⊕ y = fl.add x y

  abbrev pub ◌⊖◌ : F → F → F
  x ⊖ y = fl.sub x y

  abbrev pub ◌⊗◌ : F → F → F
  x ⊗ y = fl.mul x y

  abbrev pub ◌⊘◌ : F → F → F
  x ⊘ y = fl.div x y

  abbrev pub ◌<?◌ : F → F → Bool
  x <? y = fl.lt x y

  abbrev pub ◌≤?◌ : F → F → Bool
  x ≤? y = fl.le x y

  abbrev pub ◌=?◌ : F → F → Bool
  x =? y = fl.eq x y

  abbrev pub of_ℕ : ℕ → F
  of_ℕ = fl.of_ℕ

  abbrev pub dec : ℕ → ℕ → F
  dec = fl.dec

  -- Not NaN: NaN is the value that is not `<=` itself.
  infix 4 ◌≼◌ ◌≺◌
  abbrev pub ◌≼◌ : F → F → Type 0
  x ≼ y = (x ≤? y) ≡ true

  abbrev pub ◌≺◌ : F → F → Type 0
  x ≺ y = (x <? y) ≡ true

  abbrev pub IsNum : F → Type 0
  IsNum x = x ≼ x
