-- ===== src/Secrets.antt =====
-- `EncryptionService`, `SecretsVault` and `SecureConfigManager` of
-- core/infrastructure/security/encryption.py. An exception that a method raises is `none`. The
-- service of the vault has no record of fields that anyone reads.
pub mod Interface
pub mod Masking
pub mod Chain
pub mod Roundtrip
pub mod Config
mod Examples
use self_optimizing_competit.Base.{
  ℕ, ◌+◌, ◌>>=◌, Bool, true, false, Option, none, some, String, List, [], ◌∷◌, length,
  if◌then◌else◌,
}
use self_optimizing_competit.Base.Dict.{Dict, lookup, contains, insert, erase, key_eq}
use self_optimizing_competit.Secrets.Interface.{Crypto, Value, null, text, other}

module _ (c : Crypto) where
  abbrev pub Data : Type 0
  Data = Value c.Text c.Other

  abbrev pub as_text : Data → c.Text
  as_text (text t) = t
  as_text null = c.str null
  as_text (other x) = c.str (other x)

  abbrev pub sealed : Option c.Bytes → c.Seed → Option c.Text × c.Seed
  sealed none s = (none, s)
  sealed (some message) s =
      let (encrypted, s') = c.seal message s in (c.utf8_decode (c.b64encode encrypted), s')

  unfoldable pub encrypt : Data → c.Seed → Option c.Text × c.Seed
  encrypt value s = sealed (c.utf8_encode (as_text value)) s

  unfoldable pub decrypt : c.Text → Option c.Text
  decrypt encrypted_data = do
    bytes ← c.utf8_encode encrypted_data
    encrypted ← c.b64decode bytes
    decrypted ← c.unseal encrypted
    c.utf8_decode decrypted

  -- Whether base64 reads it: any such text counts as encrypted.
  unfoldable pub is_encrypted : c.Text → Bool
  is_encrypted t = elim (c.utf8_encode t) [
    | none ↦ false
    | some bytes ↦ elim (c.b64decode bytes) [ none ↦ false | some _ ↦ true ]
  ]

  pub record EncryptionService : Type 0 where
    pub encrypted_fields : Dict String
    pub seed : c.Seed

  -- One field of the loop, with `none` when the text has no encoding.
  abbrev pub seal_field :
      String
      → Option c.Text × c.Seed
      → Dict Data
      → Dict String
      → Option (Dict Data) × EncryptionService
  seal_field field (none, s) d tracked = (none, record { encrypted_fields = tracked; seed = s })
  seal_field field (some t, s) d tracked = (
    some (insert field (text t) d),
    record { encrypted_fields = insert field "encrypted" tracked; seed = s },
  )

  abbrev pub encrypt_field :
      String → Option Data → Dict Data → EncryptionService → Option (Dict Data) × EncryptionService
  encrypt_field field none d e = (some d, e)
  encrypt_field field (some null) d e = (some d, e)
  encrypt_field field (some (text t)) d e =
      seal_field field (encrypt (text t) e.seed) d e.encrypted_fields
  encrypt_field field (some (other x)) d e =
      seal_field field (encrypt (other x) e.seed) d e.encrypted_fields

  unfoldable pub encrypt_dict :
      List String → Dict Data → EncryptionService → Option (Dict Data) × EncryptionService
  encrypt_dict [] d e = (some d, e)
  encrypt_dict (field ∷ fields) d e =
      let (o, e') = encrypt_field field (lookup field d) d e in
      elim o [ none ↦ (none, e') | some d' ↦ encrypt_dict fields d' e' ]

  -- `decrypt` of what is no text raises.
  abbrev pub decrypt_field : String → Option Data → Dict Data → Option (Dict Data)
  decrypt_field field none d = some d
  decrypt_field field (some null) d = some d
  decrypt_field field (some (text t)) d = do t' ← decrypt t; some (insert field (text t') d)
  decrypt_field field (some (other x)) d = none

  unfoldable pub decrypt_dict : List String → Dict Data → Option (Dict Data)
  decrypt_dict [] d = some d
  decrypt_dict (field ∷ fields) d = do
    d' ← decrypt_field field (lookup field d) d
    decrypt_dict fields d'

  pub record SecretsVault : Type 0 where
    pub secrets : Dict c.Text
    pub seed : c.Seed

  abbrev pub keep_secret : String → Option c.Text × c.Seed → SecretsVault → Option SecretsVault
  keep_secret key (none, s) v = none
  keep_secret key (some encrypted, s) v =
      some (record { secrets = insert key encrypted v.secrets; seed = s })

  unfoldable pub store_secret : String → c.Text → SecretsVault → Option SecretsVault
  store_secret key value v = keep_secret key (encrypt (text value) v.seed) v

  -- An error of the decryption is answered as a missing key.
  unfoldable pub retrieve_secret : String → SecretsVault → Option c.Text
  retrieve_secret key v = do encrypted ← lookup key v.secrets; decrypt encrypted

  unfoldable pub delete_secret : String → SecretsVault → Bool × SecretsVault
  delete_secret key v =
      if contains key v.secrets
      then (true, record v { secrets = erase key v.secrets })
      else (false, v)

  unfoldable pub secret_exists : String → SecretsVault → Bool
  secret_exists key v = contains key v.secrets

  abbrev pub keys {ℓ} : {A : Type ℓ} → Dict A → List String
  keys [] = []
  keys ((k, x) ∷ d) = k ∷ keys d

  unfoldable pub list_secret_keys : SecretsVault → List String
  list_secret_keys v = keys v.secrets

  unfoldable pub clear_all : SecretsVault → SecretsVault
  clear_all v = record v { secrets = [] }

  pub record SecureConfigManager : Type 0 where
    pub vault : SecretsVault
    pub config : Dict Data

  abbrev pub set_plain : String → Data → SecureConfigManager → SecureConfigManager
  set_plain key value m = record m { config = insert key value m.config }

  abbrev pub set_secret : String → c.Text → SecureConfigManager → Option SecureConfigManager
  set_secret key value m = do
    vault ← store_secret key value m.vault
    some (record m { vault = vault })

  abbrev pub set_value : Bool → String → Data → SecureConfigManager → Option SecureConfigManager
  set_value false key value m = some (set_plain key value m)
  set_value true key (text t) m = set_secret key t m
  set_value true key null m = some (set_plain key null m)
  set_value true key (other x) m = some (set_plain key (other x) m)

  unfoldable pub set_config :
      String → Data → Bool → SecureConfigManager → Option SecureConfigManager
  set_config key value secret m = set_value secret key value m

  abbrev pub or_null : Option c.Text → Data
  or_null none = null
  or_null (some t) = text t

  abbrev pub or_default : Data → Option Data → Data
  or_default default none = default
  or_default default (some x) = x

  unfoldable pub get_config : String → Data → SecureConfigManager → Data
  get_config key default m =
      if secret_exists key m.vault
      then or_null (retrieve_secret key m.vault)
      else or_default default (lookup key m.config)

  abbrev is_listed : String → List String → Bool
  is_listed k [] = false
  is_listed k (j ∷ js) = let rest = is_listed k js in if key_eq j k then true else rest

  -- A listed key with a value that is no text is left out.
  abbrev load_item : Bool → String → Data → SecureConfigManager → Option SecureConfigManager
  load_item false key value m = some (set_plain key value m)
  load_item true key (text t) m = set_secret key t m
  load_item true key null m = some m
  load_item true key (other x) m = some m

  unfoldable pub load_from_dict :
      Dict Data → List String → SecureConfigManager → Option SecureConfigManager
  load_from_dict [] encrypt_keys m = some m
  load_from_dict ((key, value) ∷ items) encrypt_keys m = do
    m' ← load_item (is_listed key encrypt_keys) key value m
    load_from_dict items encrypt_keys m'

  abbrev add_secrets : List String → SecretsVault → Dict Data → Dict Data
  add_secrets [] v d = d
  add_secrets (k ∷ ks) v d = add_secrets ks v (insert k (or_null (retrieve_secret k v)) d)

  unfoldable pub to_dict : Bool → SecureConfigManager → Dict Data
  to_dict include_secrets m =
      if include_secrets then add_secrets (list_secret_keys m.vault) m.vault m.config else m.config

  -- The counts of items, of secrets and of both
  unfoldable pub get_statistics : SecureConfigManager → ℕ × ℕ × ℕ
  get_statistics m =
      let secrets = length (list_secret_keys m.vault) in
      (length m.config, secrets, length m.config + secrets)
