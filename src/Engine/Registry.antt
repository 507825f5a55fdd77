-- ===== src/Engine/Registry.antt =====
-- strategies/engine/registry.go: the map of strategies. The mutex makes each call one step.
use cryptotips.Base.Texts.{same_text}
use Prim.Native.String.{String}
use cryptotips.Engine.{Strategy}
use cryptotips.Base.{[], some, if◌then◌else◌, none, Option, map, ◌∷◌, List}

-- The entries of the map, each identifier once.
abbrev pub RegistryMap : Type 0 → Type 0
RegistryMap S = List (String × Strategy S)

module _ {S : Type 0} where
  -- `registry[id] = s`
  unfoldable pub assign : String → Strategy S → RegistryMap S → RegistryMap S
  assign id s [] = (id, s) ∷ []
  assign id s ((k, v) ∷ registry) =
      let rest = assign id s registry in
      if same_text k id then (id, s) ∷ registry else (k, v) ∷ rest

  unfoldable pub register : Strategy S → RegistryMap S → RegistryMap S
  unfolding assign
  register s registry = assign s.id s registry

  -- `none` is the error that no strategy has the identifier.
  unfoldable pub must_get : String → RegistryMap S → Option (Strategy S)
  must_get id [] = none
  must_get id ((k, v) ∷ registry) =
      let rest = must_get id registry in if same_text k id then some v else rest

  unfoldable pub identifiers : RegistryMap S → List String
  identifiers registry = map (λ (k, _). k) registry
