-- ===== src/SpotBtc/Replay/Maps.antt =====
-- The maps of a replay, from keys that stand for texts: `m[k]`, and `m[k] += v`.
use cryptotips.Base.{arith, refl, [], ◌==◌, if◌then◌else◌, ◌∷◌, ◌≡◌, List, ℕ}

module _ {V : Type 0} where
  -- The value at a key; the zero value, if the key is missing.
  abbrev pub lookup_or : V → ℕ → List (ℕ × V) → V
  lookup_or z k [] = z
  lookup_or z k ((j, v) ∷ m) = if j == k then v else lookup_or z k m

  abbrev pub update_at : V → ℕ → (V → V) → List (ℕ × V) → List (ℕ × V)
  update_at z k f [] = (k, f z) ∷ []
  update_at z k f ((j, v) ∷ m) = if j == k then (j, f v) ∷ m else (j, v) ∷ update_at z k f m

  pub lookup_or-update_at :
      (z : V) (k j : ℕ) (f : V → V) (m : List (ℕ × V))
      → lookup_or z j (update_at z k f m)
        ≡ (if k == j then f (lookup_or z k m) else lookup_or z j m)
  lookup_or-update_at z k j f [] = refl
  lookup_or-update_at z k j f ((i, v) ∷ m) = ground (arith, lookup_or-update_at z k j f m)
