-- ===== src/Base/Act.antt =====
-- Calls that change a world outside: they end with a value, with an error, or in a panic, and leave
-- the world in a state.
use cryptotips.Base.Outcome.{Run, ok, panic, Returns, value}
use cryptotips.Base.Tests.{if◌then◌else◌}
use mathlib.Core.Bool.{Bool, true, false}
use mathlib.Core.Path.{◌≡◌, refl}
use Prim.Native.String.{String}

pub data Failure : Type 0 where
  only_paper_mode : Failure
  outside : (message : String) → Failure

pub data Result (A : Type 0) : Type 0 where
  done : A → Result A
  failed : Failure → Result A
  crashed : Result A

abbrev pub Act : Type 0 → Type 0 → Type 0
Act S A = S → Result A × S

module _ {S A : Type 0} where
  -- What follows a call: nothing after an error or a panic.
  abbrev pub after : {B : Type 0} → Result A × S → (A → Act S B) → Result B × S
  after (done a, s) f = f a s
  after (failed e, s) f = (failed e, s)
  after (crashed, s) f = (crashed, s)

  infixl 5 ◌>>=◌
  abbrev pub ◌>>=◌ : {B : Type 0} → Act S A → (A → Act S B) → Act S B
  m >>= f = λ s. after (m s) f

  abbrev pub give : A → Act S A
  give a s = (done a, s)

  abbrev pub fail : Failure → Act S A
  fail e s = (failed e, s)

  abbrev pub lift_run : Run A → Act S A
  lift_run (ok a) s = (done a, s)
  lift_run panic s = (crashed, s)

  -- A reply that reads the world and leaves it.
  abbrev pub reads : (S → Result A) → Act S A
  reads f s = (f s, s)

-- The end of a call: `Q` of the value and the world, or `E` of the world after an error or a panic.
pub data Ends {S A : Type 0} (Q : A → S → Type 0) (E : S → Type 0) : Result A × S → Type 0 where
  ended : {a : A} {s : S} → Q a s → Ends Q E (done a, s)
  broken : {e : Failure} {s : S} → E s → Ends Q E (failed e, s)
  stopped : {s : S} → E s → Ends Q E (crashed, s)

module _ {S A : Type 0} {Q : A → S → Type 0} {E : S → Type 0} where
  pub Ends-after :
      {B : Type 0} {R : B → S → Type 0} {x : Result A × S} {f : A → Act S B}
      → Ends Q E x
      → ((a : A) (s : S) → Q a s → Ends R E (f a s))
      → Ends R E (after x f)
  Ends-after (ended q) next = next _ _ q
  Ends-after (broken e) next = broken e
  Ends-after (stopped e) next = stopped e

  pub Ends-map :
      {R : A → S → Type 0} {x : Result A × S}
      → Ends Q E x
      → ((a : A) (s : S) → Q a s → R a s)
      → Ends R E x
  Ends-map (ended q) weaken = ended (weaken _ _ q)
  Ends-map (broken e) weaken = broken e
  Ends-map (stopped e) weaken = stopped e

  pub Ends-if :
      (m k : Act S A) (s : S) (b : Bool)
      → (b ≡ true → Ends Q E (m s))
      → (b ≡ false → Ends Q E (k s))
      → Ends Q E ((if b then m else k) s)
  Ends-if m k s true p q = p refl
  Ends-if m k s false p q = q refl

  pub Ends-lift_run : (s : S) (r : Run A) → ((a : A) → Q a s) → E s → Ends Q E (lift_run r s)
  Ends-lift_run s (ok a) q e = ended (q a)
  Ends-lift_run s panic q e = stopped e

  pub Ends-lift-Returns :
      {P : A → Type 0} (s : S) (r : Run A)
      → Returns P r
      → ((a : A) → P a → Q a s)
      → Ends Q E (lift_run r s)
  Ends-lift-Returns s (ok a) (value p) next = ended (next a p)
  Ends-lift-Returns s panic r next = elim r [ ]

  pub Ends-reads : {s : S} (r : Result A) → ((a : A) → r ≡ done a → Q a s) → E s → Ends Q E (r, s)
  Ends-reads (done a) q e = ended (q a refl)
  Ends-reads (failed x) q e = broken e
  Ends-reads crashed q e = stopped e

module _ {S A : Type 0} (E : S → Type 0) where
  -- What is true after a call, however it ends.
  pub Ends-world : (x : Result A × S) → Ends (λ _. E) E x → E x.1
  Ends-world x (ended e) = e
  Ends-world x (broken e) = e
  Ends-world x (stopped e) = e

  pub Ends-any : (x : Result A × S) → E x.1 → Ends (λ _. E) E x
  Ends-any (done a, s) e = ended e
  Ends-any (failed x, s) e = broken e
  Ends-any (crashed, s) e = stopped e
