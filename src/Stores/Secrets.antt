-- ===== src/Stores/Secrets.antt =====
-- src/quant_pilot/adapters/secrets/keyring_store.py: `KeyringSecretStore` over a keychain, which is a
-- parameter, and `InMemorySecretStore`.
use quant_pilot.Base.{String, ◌≡◌, Option, some, maybe, str_eq, if◌then◌else◌}
use quant_pilot.Base.Dict.{Dict, lookup, insert, remove, lookup-insert}

-- The backend; `none` is what a deletion raises.
pub record Keyring (S : Type 0) : Type 0 where
  pub get_password : S → String → String → Option String
  pub set_password : String → String → String → S → S
  pub delete_password : String → String → S → Option S

module _ {S : Type 0} (keyring : Keyring S) (service : String) where
  unfoldable pub keyring_get : String → S → Option String
  keyring_get name s = keyring.get_password s service name

  unfoldable pub keyring_set : String → String → S → S
  keyring_set name value s = keyring.set_password service name value s

  -- An exception of the backend is suppressed.
  unfoldable pub keyring_delete : String → S → S
  keyring_delete name s = maybe (keyring.delete_password service name s) s λ s'. s'

unfoldable pub get_secret : String → Dict String → Option String
get_secret name store = lookup name store

unfoldable pub set_secret : String → String → Dict String → Dict String
set_secret name value store = insert name value store

unfoldable pub delete_secret : String → Dict String → Dict String
delete_secret name store = remove name store

-- A secret that is set is got, and other secrets are as before.
get-set_secret :
    (name other value : String) (store : Dict String)
    → get_secret other (set_secret name value store)
      ≡ (if str_eq name other then some value else get_secret other store)
unfolding get_secret set_secret
get-set_secret name other value store = lookup-insert name other value store
