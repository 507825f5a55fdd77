-- ===== src/Indicator/Series.antt =====
-- Helpers on series of float64 that the indicators share.
pub mod Scan
use cryptotips.Base.{
  ◌∙◌, ℕ, zero, suc, ◌+◌, ◌-◌, ◌<◌, ◌≤◌, ◌≡◌, refl, ap, List, [], ◌∷◌, ◌++◌, foldl, arith, length,
  get_or, drop, replicate, length-append, length-replicate, min,
}
use cryptotips.Float.{Float, ◌⊕◌, of_ℕ}

abbrev pub zip_with {ℓ κ μ} :
    {A : Type ℓ} {B : Type κ} {C : Type μ} → (A → B → C) → List A → List B → List C
zip_with f (x ∷ xs) (y ∷ ys) = f x y ∷ zip_with f xs ys
zip_with f xs ys = []

pub length-zip_with {ℓ κ μ} :
    {A : Type ℓ} {B : Type κ} {C : Type μ} (f : A → B → C) (xs : List A) (ys : List B)
    → length (zip_with f xs ys) ≡ min (length xs) (length ys)
length-zip_with f [] ys = omega arith
length-zip_with f (x ∷ xs) [] = omega arith
length-zip_with f (x ∷ xs) (y ∷ ys) = omega (arith, length-zip_with f xs ys)

module _ {ℓ} {A : Type ℓ} where
  -- `s[len(s)-1]`, or `d` for an empty slice.
  abbrev pub last_or : A → List A → A
  last_or d [] = d
  last_or d (x ∷ xs) = last_or x xs

  pub get_or-drop : (n i : ℕ) (xs : List A) (d : A) → get_or (drop n xs) i d ≡ get_or xs (n + i) d
  get_or-drop zero i xs d = ap (λ k. get_or xs k d) (omega arith)
  get_or-drop (suc n) i [] d = refl
  get_or-drop (suc n) i (x ∷ xs) d =
      get_or-drop n i xs d ∙ ap (λ k. get_or (x ∷ xs) k d) {x = suc (n + i)} (omega arith)

  pub get_or-append_left :
      (xs ys : List A) (i : ℕ) (d : A) → i < length xs → get_or (xs ++ ys) i d ≡ get_or xs i d
  get_or-append_left [] ys i d h = absurd (omega arith)
  get_or-append_left (x ∷ xs) ys zero d h = refl
  get_or-append_left (x ∷ xs) ys (suc i) d h = get_or-append_left xs ys i d (omega arith)

  pub get_or-append_right :
      (xs ys : List A) (i : ℕ) (d : A) → get_or (xs ++ ys) (length xs + i) d ≡ get_or ys i d
  get_or-append_right [] ys i d = ap (λ k. get_or ys k d) (omega arith)
  get_or-append_right (x ∷ xs) ys i d =
      ap (λ k. get_or (x ∷ xs ++ ys) k d) {y = suc (length xs + i)} (omega arith)
      ∙ get_or-append_right xs ys i d

  pub get_or-replicate : (n i : ℕ) (a d : A) → i < n → get_or (replicate n a) i d ≡ a
  get_or-replicate zero i a d h = absurd (omega arith)
  get_or-replicate (suc n) zero a d h = refl
  get_or-replicate (suc n) (suc i) a d h = get_or-replicate n i a d (omega arith)

-- The values that a loop computes, each from the one before it and the next input.
abbrev pub scan {ℓ κ} : {A : Type ℓ} {B : Type κ} → (B → A → B) → B → List A → List B
scan f b [] = []
scan f b (x ∷ xs) = f b x ∷ scan f (f b x) xs

-- A slice that the code leaves at zero below index `n - 1`, begins there with `b`, and fills by `f`
-- with the inputs behind the first `n`.
abbrev pub warm_scan {ℓ κ} : {A : Type ℓ} {B : Type κ} → B → (B → A → B) → ℕ → B → List A → List B
warm_scan z f n b xs = replicate (n - 1) z ++ b ∷ scan f b (drop n xs)

module _ {F : Type 0} ⦃fl : Float F⦄ where
  -- The sum of a slice, from the left.
  abbrev pub sum : List F → F
  sum = foldl ◌⊕◌ (of_ℕ 0)

  -- `float64(n-1)`
  abbrev pub of_pred : ℕ → F
  of_pred zero = fl.neg (of_ℕ 1)
  of_pred (suc n) = of_ℕ n
