-- ===== src/Float/Fixed.antt =====
-- Fixed-point numbers with six decimals: a carrier that runs, on which the laws hold. The examples
-- use it; no theorem is about it.
use cryptotips.Base.{ℕ, zero, suc, ◌+◌, ◌-◌, ◌*◌, ◌/◌, ◌^◌, Bool, arith, leb, ◌&&◌, if◌then◌else◌}
use cryptotips.Base.Int.{ℤ, pos, negsuc, pos_part, neg_part, sub_ℕ, ◌+ℤ◌, ◌-ℤ◌, ltb_ℤ}
use cryptotips.Float.{Float}
use cryptotips.Float.Order.{IsOrdered}

abbrev pub Fixed : Type 0
Fixed = ℤ

abbrev unit : ℕ
unit = 1_000_000

abbrev magnitude : ℤ → ℕ
magnitude a = pos_part a + neg_part a

-- The sign of a product, on a magnitude.
abbrev signed : ℤ → ℤ → ℕ → ℤ
signed (pos _) (pos _) n = pos n
signed (negsuc _) (negsuc _) n = pos n
signed _ _ n = sub_ℕ 0 n

abbrev leb_ℤ : ℤ → ℤ → Bool
leb_ℤ a b = leb (pos_part a + neg_part b) (pos_part b + neg_part a)

-- The whole part of a square root, by bisection on the digits of base two.
unfoldable pub root : ℕ → ℕ → ℕ → ℕ
root zero n r = r
root (suc k) n r = root k n (if leb ((r + 2 ^ k) * (r + 2 ^ k)) n then r + 2 ^ k else r)

instance abbrev pub fixed_float : Float Fixed
fixed_float = record {
  of_ℕ = λ n. pos (n * unit);
  dec = λ m k. pos (m * unit / 10 ^ k);
  add = ◌+ℤ◌;
  sub = ◌-ℤ◌;
  mul = λ a b. signed a b (magnitude a * magnitude b / unit);
  div = λ a b. signed a b (magnitude a * unit / magnitude b);
  neg = λ a. sub_ℕ (neg_part a) (pos_part a);
  lt = ltb_ℤ;
  le = leb_ℤ;
  eq = λ a b. leb_ℤ a b && leb_ℤ b a;
  abs = λ a. pos (magnitude a);
  math_max = λ a b. if ltb_ℤ a b then b else a;
  math_min = λ a b. if ltb_ℤ b a then b else a;
  sqrt = λ a. pos (root 40 (pos_part a * unit) 0);
  log = λ a. a;
  tanh = λ a. a;
  floor = λ a. sub_ℕ (pos_part a / unit * unit) ((neg_part a + unit - 1) / unit * unit);
  round = λ a. signed a a ((magnitude a + unit / 2) / unit * unit);
}

pub Fixed-IsOrdered : IsOrdered Fixed
Fixed-IsOrdered = ground arith
