-- ===== src/Base/Slices.antt =====
-- Slices with the panics of Go: a read or a write out of range, and `%` by zero.
use cryptotips.Base.Tests.{ltb, ◌==◌, if◌then◌else◌}
use cryptotips.Base.Lists.{length, get_elem?, get_or, set}
use cryptotips.Base.Outcome.{Run, ok, panic, or_panic}
use Prim.Native.Nat.{ℕ, zero, suc, ◌+◌, ◌-◌, ◌%◌, ◌≤◌, ◌<◌}
use mathlib.Core.Path.{◌≡◌, refl, ap, ◌∙◌}
use mathlib.Core.Logic.{◌⊎◌, inl, inr}
use mathlib.Core.List.{List, [], ◌∷◌, ◌++◌}
use native.Mathlib.Omega.{arith}
use native.Mathlib.Decide.{dec_lt}
use native.Mathlib.Nat.{mod-eq_of_lt, mod-eq-sub-mod}

module _ {ℓ} {A : Type ℓ} where
  -- `s[i]`
  unfoldable pub index : List A → ℕ → Run A
  index xs i = or_panic (get_elem? xs i)

  -- `s[i] = v`
  unfoldable pub store : List A → ℕ → A → Run (List A)
  store xs i v = if ltb i (length xs) then ok (set xs i v) else panic

  pub index-ok : (xs : List A) (i : ℕ) (d : A) → i < length xs → index xs i ≡ ok (get_or xs i d)
  unfolding index
  index-ok [] i d h = absurd (omega arith)
  index-ok (x ∷ xs) zero d h = refl
  index-ok (x ∷ xs) (suc i) d h = index-ok xs i d (omega arith)

  pub store-ok : (xs : List A) (i : ℕ) (v : A) → i < length xs → store xs i v ≡ ok (set xs i v)
  unfolding store
  store-ok xs i v h = ground arith

  pub get_or-set :
      (xs : List A) (i j : ℕ) (v d : A)
      → i < length xs
      → get_or (set xs i v) j d ≡ (if i == j then v else get_or xs j d)
  get_or-set [] i j v d h = absurd (omega arith)
  get_or-set (x ∷ xs) zero zero v d h = refl
  get_or-set (x ∷ xs) (suc i) (suc j) v d h = ground (arith, get_or-set xs i j v d)
  get_or-set (x ∷ xs) i j v d h = ground arith

  -- The list of `f 0`, …, `f (k - 1)`.
  abbrev pub tabulate : ℕ → (ℕ → A) → List A
  tabulate zero f = []
  tabulate (suc k) f = f 0 ∷ tabulate k (λ j. f (suc j))

  pub tabulate_congr :
      (k : ℕ) (f g : ℕ → A) → ((j : ℕ) → j < k → f j ≡ g j) → tabulate k f ≡ tabulate k g
  tabulate_congr zero f g h = refl
  tabulate_congr (suc k) f g h = rw (h 0 (omega arith)) (
      ap (◌∷◌ (g 0))
        (tabulate_congr k (λ j. f (suc j)) (λ j. g (suc j)) (λ j p. h (suc j) (omega arith))))

  pub tabulate_snoc : (k : ℕ) (f : ℕ → A) → tabulate (suc k) f ≡ tabulate k f ++ f k ∷ []
  tabulate_snoc zero f = refl
  tabulate_snoc (suc k) f = ap (◌∷◌ (f 0)) (tabulate_snoc k (λ j. f (suc j)))

  pub length-tabulate : (k : ℕ) (f : ℕ → A) → length (tabulate k f) ≡ k
  length-tabulate zero f = refl
  length-tabulate (suc k) f = ap suc (length-tabulate k (λ j. f (suc j)))

-- `a % b`
unfoldable pub mod_int : ℕ → ℕ → Run ℕ
mod_int a b = if b == 0 then panic else ok (a % b)

-- An index that runs past the end of a ring at most once.
pub mod_cases : (a s : ℕ) → a < s + s → ((a < s) × (a % s ≡ a)) ⊎ ((s ≤ a) × (a % s ≡ a - s))
mod_cases a s h = elim (dec_lt a s) [
  | yes p ↦ inl (p, mod-eq_of_lt p)
  | no p ↦ inr (omega arith, mod-eq-sub-mod (omega arith) ∙ mod-eq_of_lt (omega arith))
]
