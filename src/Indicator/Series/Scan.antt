-- ===== src/Indicator/Series/Scan.antt =====
-- What the values of a scan are, index by index.
use mathlib.Core.Path.{ap₂}
use cryptotips.Base.{
  sym, ◌∙◌, ◌+◌, ◌++◌, length-drop, length-replicate, drop, refl, replicate, zero, [], ap,
  length-append, ◌-◌, arith, suc, ◌∷◌, get_or, ◌≡◌, ◌≤◌, length, ◌<◌, List, ℕ,
}
use cryptotips.Indicator.Series.{
  get_or-drop, get_or-replicate, get_or-append_left, get_or-append_right, scan, warm_scan,
}

module _ {A B : Type 0} (f : B → A → B) where
  pub length-scan : (b : B) (xs : List A) → length (scan f b xs) ≡ length xs
  length-scan b [] = refl
  length-scan b (x ∷ xs) = ap suc (length-scan (f b x) xs)

  pub get_or-scan :
      (b d : B) (a : A) (xs : List A) (i : ℕ)
      → i < length xs
      → get_or (scan f b xs) i d ≡ f (get_or (b ∷ scan f b xs) i d) (get_or xs i a)
  get_or-scan b d a [] i h = absurd (omega arith)
  get_or-scan b d a (x ∷ xs) zero h = refl
  get_or-scan b d a (x ∷ xs) (suc i) h = get_or-scan (f b x) d a xs i (omega arith)

  -- `out` has a place for each input; it is `z` below index `n - 1`, where it is `first`; from `n` on
  -- each value is `f` of the one before it and of the input at its own index.
  pub record Follows (z first : B) (a : A) (n : ℕ) (xs : List A) (out : List B) : Type 0 where
    pub same_length : length out ≡ length xs
    pub warm_up : (i : ℕ) → suc i < n → get_or out i z ≡ z
    pub begins : get_or out (n - 1) z ≡ first
    pub steps :
        (i : ℕ) → n ≤ i → i < length xs → get_or out i z ≡ f (get_or out (i - 1) z) (get_or xs i a)

  pub warm_scan-Follows :
      (z first : B) (a : A) (n : ℕ) (xs : List A)
      → 0 < n
      → n ≤ length xs
      → Follows z first a n xs (warm_scan z f n first xs)
  warm_scan-Follows z first a n xs pos_n room = record {
    same_length = omega (
      arith,
      length-append (replicate (n - 1) z) (first ∷ scan f first (drop n xs)),
      length-replicate (n - 1) z,
      length-scan first (drop n xs),
      length-drop n xs,
    );
    warm_up = λ i p.
        get_or-append_left zeros rest i z (omega (arith, length-replicate (n - 1) z))
        ∙ get_or-replicate (n - 1) i z z (omega arith);
    begins = at (n - 1) (omega arith) ∙ ap (λ k. get_or rest k z) {y = 0} (omega arith);
    steps = λ i p r.
        at i (omega arith)
        ∙ ap (λ k. get_or rest k z) {y = suc (i - n)} (omega arith)
        ∙ get_or-scan first z a (drop n xs) (i - n) (omega (arith, length-drop n xs))
        ∙ ap₂ f
            (ap (λ k. get_or rest k z) {y = i - 1 - (n - 1)} (omega arith)
              ∙ sym (at (i - 1) (omega arith)))
            (get_or-drop n (i - n) xs a ∙ ap (λ k. get_or xs k a) (omega arith));
  }
    where
      zeros : List B
      zeros = replicate (n - 1) z

      rest : List B
      rest = first ∷ scan f first (drop n xs)

      at : (i : ℕ) → n - 1 ≤ i → get_or (zeros ++ rest) i z ≡ get_or rest (i - (n - 1)) z
      at i p =
          ap (λ k. get_or (zeros ++ rest) k z) {y = length zeros + (i - (n - 1))}
            (omega (arith, length-replicate (n - 1) z))
          ∙ get_or-append_right zeros rest (i - (n - 1)) z
