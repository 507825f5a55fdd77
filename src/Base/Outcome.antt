-- ===== src/Base/Outcome.antt =====
-- What a Go call can do: return a value, or panic (an index out of range).
use mathlib.Core.Path.{◌≡◌, refl}
use mathlib.Core.Option.{Option, none, some}
use mathlib.Core.Bool.{Bool, true, false}
use cryptotips.Base.Tests.{if◌then◌else◌}

pub data Run {ℓ} (V : Type ℓ) : Type ℓ where
  panic : Run V
  ok : (value : V) → Run V

-- What comes next is not done after a panic.
infixl 5 ◌>>=◌
abbrev pub ◌>>=◌ {ℓ κ} : {V : Type ℓ} {W : Type κ} → Run V → (V → Run W) → Run W
panic >>= next = panic
ok v >>= next = next v

-- The read of an index: out of range it panics.
abbrev pub or_panic {ℓ} : {V : Type ℓ} → Option V → Run V
or_panic none = panic
or_panic (some v) = ok v

-- The call does not panic, and `Good` is true of its value.
pub data Returns {ℓ κ} {V : Type ℓ} (Good : V → Type κ) : Run V → Type (ℓ ⊔ κ) where
  value : {v : V} → Good v → Returns Good (ok v)

-- The two branches of a test, each with the outcome of the test.
pub Returns-if {ℓ κ} :
    {V : Type ℓ} {Good : V → Type κ} {yes no : Run V} (test : Bool)
    → (test ≡ true → Returns Good yes)
    → (test ≡ false → Returns Good no)
    → Returns Good (if test then yes else no)
Returns-if true on_yes on_no = on_yes refl
Returns-if false on_yes on_no = on_no refl

module _ {ℓ κ} {V : Type ℓ} {Good : V → Type κ} where
  pub Returns-inv : {call : Run V} → Returns Good call → (v : V) × (call ≡ ok v) × Good v
  Returns-inv (value good) = (_, refl, good)

  pub Returns-map {μ} :
      {Better : V → Type μ} {call : Run V}
      → Returns Good call
      → ((v : V) → Good v → Better v)
      → Returns Better call
  Returns-map (value good) improve = value (improve _ good)

  pub Returns-bind {μ ν} :
      {W : Type μ} {Then : W → Type ν} {call : Run V} {next : V → Run W}
      → Returns Good call
      → ((v : V) → Good v → Returns Then (next v))
      → Returns Then (call >>= next)
  Returns-bind (value good) proceed = proceed _ good
