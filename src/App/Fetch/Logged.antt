-- ===== src/App/Fetch/Logged.antt =====
-- Calls of fetchAll whose errors are only logged.
use cryptotips.Base.Act.{failed, ended, done, after, Ends, crashed, Act, Result}
use cryptotips.App.Fetch.{logged}
use cryptotips.Base.{refl, ◌∙◌, ◌≢◌, ◌≡◌}

-- Two calls that leave the rows alone, logged.
pub logged-after :
    {S A B R : Type 0} (x : Result A × S) (f : A → Act S B) (rows : S → R) (s : S) (E : S → Type 0)
    → (rows x.1 ≡ rows s) × (x.0 ≢ crashed)
    → ((a : A) (s' : S) → (rows (f a s').1 ≡ rows s') × ((f a s').0 ≢ crashed))
    → Ends (λ _ s'. rows s' ≡ rows s) E (logged (after x f))
logged-after (done a, s1) f rows s E (same, _) next =
    let (kept, calm) = next a s1 in logged_one (f a s1) rows s E (kept ∙ same, calm)
  where
    logged_one :
        {S B R : Type 0} (y : Result B × S) (rows : S → R) (s : S) (E : S → Type 0)
        → (rows y.1 ≡ rows s) × (y.0 ≢ crashed)
        → Ends (λ _ s'. rows s' ≡ rows s) E (logged y)
    logged_one (done b, s2) rows s E (same, _) = ended same
    logged_one (failed e, s2) rows s E (same, _) = ended same
    logged_one (crashed, s2) rows s E (_, calm) = absurd (calm refl)
logged-after (failed e, s1) f rows s E (same, _) next = ended same
logged-after (crashed, s1) f rows s E (_, calm) next = absurd (calm refl)
