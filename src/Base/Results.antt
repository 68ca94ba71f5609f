-- ===== src/Base/Results.antt =====
-- Errors as values.
use mathlib.Core.Path.{◌≡◌, refl}
use Prim.Native.String.{String}

-- The sentinel errors of the packages that are modelled, without the text that wraps them.
pub data Error : Type 0 where
  resource_not_exist conflict : Error
  unsupported_agent_operation : Error
  encode_failed : Error
  invalid_remote_config : String → Error
  duplicate_remote_config_name : String → Error
  invalid_continue_token query_too_long : Error
  agent_connected connection_not_found connection_not_opamp : Error
  server_id_already_exists server_not_alive no_current_server_id event_payload_nil : Error

pub data Result {ℓ} (A : Type ℓ) : Type ℓ where
  err : Error → Result A
  ok : A → Result A

infixl 5 ◌>>=◌
abbrev pub ◌>>=◌ {ℓ κ} : {A : Type ℓ} {B : Type κ} → Result A → (A → Result B) → Result B
err e >>= next = err e
ok a >>= next = next a

-- A chain that succeeds went through a value.
pub >>=-ok {ℓ κ} :
    {A : Type ℓ} {B : Type κ} (next : A → Result B) (r : Result A) {b : B}
    → (r >>= next) ≡ ok b
    → (a : A) × (r ≡ ok a) × (next a ≡ ok b)
>>=-ok next (err e) h = cc
>>=-ok next (ok a) h = (a, refl, h)
