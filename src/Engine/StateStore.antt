-- ===== src/Engine/StateStore.antt =====
-- strategies/engine/state_store.go: the state of a strategy as a JSON text in Redis.
use cryptotips.Base.Texts.{same_text}
use cryptotips.Base.{if◌then◌else◌, none, some, Option}
use Prim.Native.String.{String, ◌++◌}
use cryptotips.Base.Act.{reads, give, Act, Result, ◌>>=◌}

-- The Redis client: `Get` gives `none` for a missing key.
pub record Redis (S : Type 0) : Type 0 where
  pub get : String → Act S (Option String)
  pub set : String → String → Act S Unit
  pub del : String → Act S Unit

-- encoding/json at one type: `unmarshal` writes over a target.
pub record Json (V : Type 0) : Type 0 where
  pub marshal : V → Result String
  pub unmarshal : String → V → Result V

abbrev pub key : String → String → String
key strategy_id k = "strategy:" ++ (strategy_id ++ (":state:" ++ k))

module _ {S V : Type 0} (json : Json V) (strategy_id : String) where
  abbrev decoded : V → Option String → Act S V
  decoded target none = give target
  decoded target (some raw) =
      if same_text raw "" then give target else reads (λ _. json.unmarshal raw target)

  -- Load into `target`; `none` is the nil client.
  unfoldable pub load : Option (Redis S) → String → V → Act S V
  load none k target = give target
  load (some client) k target = client.get (key strategy_id k) >>= decoded target

  unfoldable pub save : Option (Redis S) → String → V → Act S Unit
  save none k v = give tt
  save (some client) k v =
      reads (λ _. json.marshal v) >>= λ text. client.set (key strategy_id k) text

  unfoldable pub delete : Option (Redis S) → String → Act S Unit
  delete none k = give tt
  delete (some client) k = client.del (key strategy_id k)
