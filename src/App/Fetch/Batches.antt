-- ===== src/App/Fetch/Batches.antt =====
-- Batches of an ordered list of candles.
-- The candles that begin in a range of time.
use cryptotips.App.Fetch.{last_close, RawKline}
use cryptotips.Base.{
  ap, length, inr, inl, zero, ◌&&◌, drop, leb, refl, suc, Bool-cases, [], arith, if◌then◌else◌,
  take, ◌<◌, ◌≡◌, ◌+◌, ◌∷◌, ◌≤◌, List, ℕ,
}

abbrev pub in_range : ℕ → ℕ → List RawKline → List RawKline
in_range start end [] = []
in_range start end (k ∷ ks) =
    let rest = in_range start end ks in
    if leb start k.open_at && leb k.open_at end then k ∷ rest else rest

-- Each candle ends before the next begins; the first begins after `t`.
abbrev pub InSequence : ℕ → List RawKline → Type 0
InSequence t [] = Unit
InSequence t (k ∷ ks) = (t < k.open_at) × (k.open_at ≤ k.close_at) × InSequence k.close_at ks

InSequence-weaken : (t t' : ℕ) (ks : List RawKline) → t ≤ t' → InSequence t' ks → InSequence t ks
InSequence-weaken t t' [] h q = tt
InSequence-weaken t t' (k ∷ ks) h (p, r, q) = (omega arith, r, q)

-- A later start cuts off a first part.
pub in_range-in_range :
    (start later end : ℕ) (ks : List RawKline)
    → start ≤ later
    → in_range later end (in_range start end ks) ≡ in_range later end ks
in_range-in_range start later end [] h = refl
in_range-in_range start later end (k ∷ ks) h =
    ground (arith, in_range-in_range start later end ks h)

pub in_range-InSequence :
    (t start end : ℕ) (ks : List RawKline) → InSequence t ks → InSequence t (in_range start end ks)
in_range-InSequence t start end [] q = tt
in_range-InSequence t start end (k ∷ ks) (p, r, q) =
    elim (Bool-cases (leb start k.open_at && leb k.open_at end)) [
      | inl kept ↦ rw kept (p, r, in_range-InSequence k.close_at start end ks q)
      | inr cut ↦ rw cut (
          InSequence-weaken t k.close_at _ (omega arith)
            (in_range-InSequence k.close_at start end ks q))
    ]

-- All of them begin by the end.
abbrev pub UpTo : ℕ → List RawKline → Type 0
UpTo end [] = Unit
UpTo end (k ∷ ks) = (k.open_at ≤ end) × UpTo end ks

pub in_range-UpTo : (start end : ℕ) (ks : List RawKline) → UpTo end (in_range start end ks)
in_range-UpTo start end [] = tt
in_range-UpTo start end (k ∷ ks) = elim (Bool-cases (leb start k.open_at && leb k.open_at end)) [
  | inl kept ↦ rw kept (ground arith, in_range-UpTo start end ks)
  | inr cut ↦ rw cut (in_range-UpTo start end ks)
]

-- Candles that all begin after `t` and by the end are all in range.
in_range-all :
    (t end : ℕ) (ks : List RawKline) → InSequence t ks → UpTo end ks → in_range (t + 1) end ks ≡ ks
in_range-all t end [] q u = refl
in_range-all t end (k ∷ ks) (p, r, q) (u, us) =
    ground (arith, in_range-all t end ks (InSequence-weaken t k.close_at ks (omega arith) q) us)

-- The batch is after `t`.
pub last_close-later :
    (t n : ℕ) (ks : List RawKline) → InSequence t ks → t ≤ last_close t (take n ks)
last_close-later t zero ks q = omega arith
last_close-later t (suc n) [] q = omega arith
last_close-later t (suc n) (k ∷ ks) (p, r, q) = omega (arith, last_close-later k.close_at n ks q)

-- Behind the close of a batch lie the candles that the batch did not take.
pub in_range-drop :
    (t end n : ℕ) (ks : List RawKline)
    → InSequence t ks
    → UpTo end ks
    → in_range (last_close t (take n ks) + 1) end ks ≡ drop n ks
in_range-drop t end zero ks q u = in_range-all t end ks q u
in_range-drop t end (suc n) [] q u = refl
in_range-drop t end (suc n) (k ∷ ks) (p, r, q) (u, us) =
    ground (arith, last_close-later k.close_at n ks q, in_range-drop k.close_at end n ks q us)

pub in_range-none : (start end : ℕ) (ks : List RawKline) → end < start → in_range start end ks ≡ []
in_range-none start end [] h = refl
in_range-none start end (k ∷ ks) h = ground (arith, in_range-none start end ks h)

-- The first one does not begin before the start.
abbrev pub FromStart : ℕ → List RawKline → Type 0
FromStart start [] = Unit
FromStart start (k ∷ ks) = start ≤ k.open_at

pub in_range-FromStart :
    (start end : ℕ) (ks : List RawKline) → FromStart start (in_range start end ks)
in_range-FromStart start end [] = tt
in_range-FromStart start end (k ∷ ks) =
    elim (Bool-cases (leb start k.open_at && leb k.open_at end)) [
      | inl kept ↦ rw kept (ground arith)
      | inr cut ↦ rw cut (in_range-FromStart start end ks)
    ]

pub last_close_from :
    (t start n : ℕ) (ks : List RawKline)
    → FromStart start ks
    → InSequence t ks
    → 0 < length (take n ks)
    → start ≤ last_close t (take n ks)
last_close_from t start zero ks f q h = absurd (omega arith)
last_close_from t start (suc n) [] f q h = absurd (omega arith)
last_close_from t start (suc n) (k ∷ ks) f (p, r, q) h =
    omega (arith, last_close-later k.close_at n ks q)

pub take_all : (n : ℕ) (ks : List RawKline) → length (take n ks) < n → take n ks ≡ ks
take_all zero ks h = absurd (omega arith)
take_all (suc n) [] h = refl
take_all (suc n) (k ∷ ks) h = ap (◌∷◌ k) (take_all n ks (omega arith))
