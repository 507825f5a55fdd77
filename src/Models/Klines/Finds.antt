-- ===== src/Models/Klines/Finds.antt =====
-- What is found in the table of candles after upserts: rows by symbol, interval and open time.
use mathlib.Core.Path.{ap₂}
use Prim.Native.String.{String}
use cryptotips.Models.Klines.Upserts.{same_key, upsert_row, upsert_all}
use cryptotips.Models.Klines.{refreshed}
use cryptotips.Models.{KlineRecord}
use cryptotips.Base.Texts.{same_text}
use text.Mathlib.TextEquality.{eq_iff}
use cryptotips.Base.{
  sym, ◌≢◌, inr, inl, Bool-cases, false, refl, ◌==◌, ◌⊎◌, Bool, [], ap, ◌&&◌, arith, none, some,
  ◌∙◌, Option, if◌then◌else◌, true, ◌∷◌, List, ◌≡◌,
}

same_text-eq : (s t : String) → same_text s t ≡ true → s ≡ t
same_text-eq s t h = (eq_iff s t).0 h

same_text_of : (s t : String) → s ≡ t → same_text s t ≡ true
same_text_of s t h = (eq_iff s t).1 h

false-ne-true : false ≢ true
false-ne-true e = cc

module _ {F : Type 0} where
  -- The row of the same key.
  abbrev pub find_row : KlineRecord F → List (KlineRecord F) → Option (KlineRecord F)
  find_row q [] = none
  find_row q (x ∷ xs) = let rest = find_row q xs in if same_key x q then some x else rest

  -- No key has two rows.
  abbrev pub UniqueKeys : List (KlineRecord F) → Type 0
  UniqueKeys [] = Unit
  UniqueKeys (x ∷ xs) = (find_row x xs ≡ none) × UniqueKeys xs

  -- The last of the records of the same key, or what there was before.
  abbrev pub last_given :
      KlineRecord F → List (KlineRecord F) → Option (KlineRecord F) → Option (KlineRecord F)
  last_given q [] old = old
  last_given q (r ∷ rs) old = last_given q rs (if same_key r q then some r else old)

  -- The three columns of the index.
  abbrev SameKey : KlineRecord F → KlineRecord F → Type 0
  SameKey a b = (a.symbol ≡ b.symbol) × (a.interval ≡ b.interval) × (a.open_time ≡ b.open_time)

  same_key-SameKey : (a b : KlineRecord F) → same_key a b ≡ true → SameKey a b
  same_key-SameKey a b h = (
    same_text-eq a.symbol b.symbol (ground arith),
    same_text-eq a.interval b.interval (ground arith),
    ground arith,
  )

  SameKey-same_key : (a b : KlineRecord F) → SameKey a b → same_key a b ≡ true
  SameKey-same_key a b (e, f, g) =
      rw (same_text_of a.symbol b.symbol e, same_text_of a.interval b.interval f) (ground arith)

  join : (a b q : KlineRecord F) → SameKey a q → SameKey b q → SameKey a b
  join a b q (e, f, g) (e', f', g') = (e ∙ sym e', f ∙ sym f', g ∙ sym g')

  same_key_sym : (a b : KlineRecord F) → same_key a b ≡ false → same_key b a ≡ false
  same_key_sym a b h = elim (Bool-cases (same_key b a)) [
    | inl same ↦
        let (e, f, g) = same_key-SameKey b a same in
        absurd (false-ne-true (sym h ∙ SameKey-same_key a b (sym e, sym f, sym g)))
    | inr other ↦ other
  ]

  same_key-right : (a b q : KlineRecord F) → same_key a b ≡ true → same_key a q ≡ same_key b q
  same_key-right a b q h =
      let (e, f, g) = same_key-SameKey a b h in
      ap₂ ◌&&◌ (ap₂ ◌&&◌ (ap (λ s. same_text s q.symbol) e) (ap (λ s. same_text s q.interval) f))
        (ap (λ t. t == q.open_time) g)

  -- A row that is assigned to is the record, all but its key, which is the same.
  refreshed-eq : (a b : KlineRecord F) → same_key a b ≡ true → refreshed a b ≡ b
  refreshed-eq a b h =
      let (e, f, g) = same_key-SameKey a b h in
      λ i. record b { symbol = e i; interval = f i; open_time = g i }

  find_row-upsert_row :
      (q r : KlineRecord F) (rows : List (KlineRecord F))
      → find_row q (upsert_row refreshed r rows)
        ≡ (if same_key r q then some r else find_row q rows)
  find_row-upsert_row q r [] = refl
  find_row-upsert_row q r (x ∷ xs) = elim (Bool-cases (same_key x r)) [
    | inl same ↦ rw (same, refreshed-eq x r same, same_key-right x r q same) (hit (same_key r q))
    | inr other ↦ rw (other, find_row-upsert_row q r xs) (miss (Bool-cases (same_key x q)) other)
  ]
    where
      hit :
          (b : Bool)
          → (if b then some r else find_row q xs)
            ≡ (if b then some r else if b then some x else find_row q xs)
      hit true = refl
      hit false = refl

      -- Two different keys are not both the one that is looked for.
      miss :
          (same_key x q ≡ true) ⊎ (same_key x q ≡ false)
          → same_key x r ≡ false
          → (if same_key x q then some x else if same_key r q then some r else find_row q xs)
            ≡ (if same_key r q then some r else if same_key x q then some x else find_row q xs)
      miss (inl found) other = elim (Bool-cases (same_key r q)) [
        | inl given ↦ absurd (
            false-ne-true (
              sym other
              ∙ SameKey-same_key x r
                  (join x r q (same_key-SameKey x q found) (same_key-SameKey r q given))))
        | inr not_given ↦ rw (found, not_given) refl
      ]
      miss (inr not_found) other = rw not_found refl

  pub find_row-upsert_all :
      (q : KlineRecord F) (rs rows : List (KlineRecord F))
      → find_row q (upsert_all refreshed rs rows) ≡ last_given q rs (find_row q rows)
  find_row-upsert_all q [] rows = refl
  find_row-upsert_all q (r ∷ rs) rows =
      find_row-upsert_all q rs (upsert_row refreshed r rows)
      ∙ ap (last_given q rs) (find_row-upsert_row q r rows)

  find_row-same :
      (a b : KlineRecord F) (xs : List (KlineRecord F))
      → same_key a b ≡ true
      → find_row a xs ≡ find_row b xs
  find_row-same a b [] h = refl
  find_row-same a b (x ∷ xs) h =
      let (e, f, g) = same_key-SameKey a b h in
      ap₂ (λ same rest. if same then some x else rest)
        (ap₂ ◌&&◌ (ap₂ ◌&&◌ (ap (same_text x.symbol) e) (ap (same_text x.interval) f))
          (ap (λ t. x.open_time == t) g))
        (find_row-same a b xs h)

  upsert_row-UniqueKeys :
      (r : KlineRecord F) (rows : List (KlineRecord F))
      → UniqueKeys rows
      → UniqueKeys (upsert_row refreshed r rows)
  upsert_row-UniqueKeys r [] u = (refl, tt)
  upsert_row-UniqueKeys r (x ∷ xs) (fresh, u) = elim (Bool-cases (same_key x r)) [
    | inl same ↦ rw (same, refreshed-eq x r same) (sym (find_row-same x r xs same) ∙ fresh, u)
    | inr other ↦ rw other (
      find_row-upsert_row x r xs
          ∙ ap (λ b. if b then some r else find_row x xs) (same_key_sym x r other)
          ∙ fresh,
      upsert_row-UniqueKeys r xs u,
    )
  ]

  pub upsert_all-UniqueKeys :
      (rs rows : List (KlineRecord F)) → UniqueKeys rows → UniqueKeys (upsert_all refreshed rs rows)
  upsert_all-UniqueKeys [] rows u = u
  upsert_all-UniqueKeys (r ∷ rs) rows u =
      upsert_all-UniqueKeys rs (upsert_row refreshed r rows) (upsert_row-UniqueKeys r rows u)
