-- ===== src/Indicator/Regime/Segments/Cover.antt =====
-- The segments cut the days into blocks, and merging keeps it so.
use cryptotips.Indicator.Regime.Fuse.{Point}
use mathlib.Core.List.{append_assoc}
use cryptotips.Indicator.Series.{last_or}
use cryptotips.Indicator.Regime.Segments.{
  is_short, extend_run, is_same, build_segments, merge_when, split_runs, open_run, close_run,
  OpenRun, split_loop, absorb, Segment, merge_loop,
}
use cryptotips.Float.{Float}
use cryptotips.Indicator.Regime.Features.{state_eq, State}
use cryptotips.Base.{
  subst, length-append, map, if_rule, sym, ap, arith, length, ◌∙◌, refl, suc, ◌↔◌, Bool, [], true,
  ◌∷◌, ◌++◌, ◌≡◌, ℕ, List,
}

pub state_eq_iff : (a b : State) → (state_eq a b ≡ true) ↔ (a ≡ b)
state_eq_iff a b = ground arith

last_or-append {ℓ} :
    {A : Type ℓ} (xs : List A) (a y : A) (ys : List A) → last_or a (xs ++ y ∷ ys) ≡ last_or y ys
last_or-append [] a y ys = refl
last_or-append (x ∷ xs) a y ys = last_or-append xs x y ys

module _ {F : Type 0} ⦃fl : Float F⦄ where
  -- The segments stand for consecutive blocks of the dates, which they use up: each has the first and
  -- the last date of its block and the number of its days.
  pub data Covers : List ℕ → List (Segment F) → Type 0 where
    done : Covers [] []
    block :
        (more rest dates : List ℕ) (s : Segment F) (segs : List (Segment F))
        → dates ≡ (s.start ∷ more) ++ rest
        → last_or s.start more ≡ s.finish
        → suc (length more) ≡ s.days
        → Covers rest segs
        → Covers dates (s ∷ segs)

  absorb-Covers :
      {dates : List ℕ} (last s : Segment F) (segs : List (Segment F))
      → Covers dates (last ∷ s ∷ segs)
      → Covers dates (absorb last s ∷ segs)
  absorb-Covers last s segs (block m r ds _ _ e f n (block m' r' ds' _ _ e' f' n' c)) =
      block (m ++ s.start ∷ m') r' ds (absorb last s) segs
        (e
          ∙ ap (λ k. (last.start ∷ m) ++ k) e'
          ∙ ap (◌∷◌ last.start) (sym (append_assoc m (s.start ∷ m') r')))
        (last_or-append m last.start s.start m' ∙ f')
        (omega (arith, length-append m (s.start ∷ m'))) c

  pub merge_loop-Covers :
      (test : Segment F → Segment F → Bool) (last : Segment F) (segs : List (Segment F))
      {dates : List ℕ}
      → Covers dates (last ∷ segs)
      → Covers dates (merge_loop test last segs)
  unfolding merge_loop
  merge_loop-Covers test last [] c = c
  merge_loop-Covers test last (s ∷ segs) (block m r ds _ _ e f n c) =
      if_rule (Covers ds) (test last s)
        (λ _.
          merge_loop-Covers test (absorb last s) segs
            (absorb-Covers last s segs (block m r ds last (s ∷ segs) e f n c)))
        λ _. block m r ds last _ e f n (merge_loop-Covers test s segs c)

  abbrev pub dates_of : List (Point F) → List ℕ
  dates_of = map λ p. p.date

  -- An open run stands for the dates `first_date ∷ more`.
  split_loop-Covers :
      (r : OpenRun F) (more : List ℕ) (ps : List (Point F))
      → last_or r.first_date more ≡ r.last_date
      → suc (length more) ≡ r.count
      → Covers (r.first_date ∷ more ++ dates_of ps) (split_loop r ps)
  unfolding split_loop
  split_loop-Covers r more [] f n = block more [] _ (close_run r) [] refl f n done
  split_loop-Covers r more (p ∷ ps) f n =
      if_rule (Covers (r.first_date ∷ more ++ p.date ∷ dates_of ps)) (state_eq p.state r.run_state)
        (λ _.
          subst (λ ds. Covers (r.first_date ∷ ds) (split_loop (extend_run r p) ps))
            (append_assoc more (p.date ∷ []) (dates_of ps))
            (split_loop-Covers (extend_run r p) (more ++ p.date ∷ []) ps
              (last_or-append more r.first_date p.date [])
              (omega (arith, length-append more (p.date ∷ [])))))
        λ _.
          block more (p.date ∷ dates_of ps) _ (close_run r) _ refl f n
            (split_loop-Covers (open_run p) [] ps refl refl)

  merge_when-Covers :
      (test : Segment F → Segment F → Bool) (segs : List (Segment F)) {dates : List ℕ}
      → Covers dates segs
      → Covers dates (merge_when test segs)
  unfolding merge_when
  merge_when-Covers test [] c = c
  merge_when-Covers test (s ∷ segs) c = merge_loop-Covers test s segs c

  split_runs-Covers : (ps : List (Point F)) → Covers (dates_of ps) (split_runs ps)
  unfolding split_runs
  split_runs-Covers [] = done
  split_runs-Covers (p ∷ ps) = split_loop-Covers (open_run p) [] ps refl refl

  pub build_segments-Covers : (ps : List (Point F)) → Covers (dates_of ps) (build_segments ps)
  unfolding build_segments
  build_segments-Covers ps =
      merge_when-Covers is_same _
        (merge_when-Covers is_short (split_runs ps) (split_runs-Covers ps))
