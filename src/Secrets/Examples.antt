-- ===== src/Secrets/Examples.antt =====
-- A toy cipher, which puts the number of the message before it, and a few runs.
use self_optimizing_competit.Base.{
  ℕ, suc, ◌≡◌, refl, sym, true, Option, none, some, String, List, [], ◌∷◌, count, if◌then◌else◌,
}
use self_optimizing_competit.Base.Dict.{Dict, lookup, key_eq}
use self_optimizing_competit.Secrets.Interface.{Crypto, Value, null, text, other}
use self_optimizing_competit.Secrets.{
  Data, encrypt, EncryptionService, encrypt_dict, decrypt_dict, secret_exists, SecureConfigManager,
  set_config, get_config,
}
use self_optimizing_competit.Secrets.Chain.{IsEncodable, restored}
use self_optimizing_competit.Secrets.Roundtrip.{decrypt_dict-encrypt_dict}
use self_optimizing_competit.Secrets.Config.{is_secret, get_config-set_config}
use self_optimizing_competit.Secrets.Masking.{mask_email}

abbrev str_of : Value (List ℕ) ℕ → List ℕ
str_of null = 78 ∷ []
str_of (text t) = t
str_of (other x) = x ∷ []

abbrev unwrap : List ℕ → Option (List ℕ)
unwrap [] = none
unwrap (x ∷ b) = some b

abbrev toy : Crypto
toy = record {
  Text = List ℕ;
  Other = ℕ;
  Bytes = List ℕ;
  Seed = ℕ;
  str = str_of;
  utf8_encode = some;
  utf8_decode = some;
  b64encode = λ b. 64 ∷ b;
  b64decode = unwrap;
  seal = λ b s. (s ∷ b, suc s);
  unseal = unwrap;
  decode_encode = λ t b e. sym e;
  b64_ascii = λ b. (64 ∷ b, refl, refl);
  b64decode_encode = λ b. refl;
  unseal_seal = λ b s. refl;
}

abbrev service : EncryptionService toy
service = record { encrypted_fields = []; seed = 7 }

abbrev person : Dict (Data toy)
person = ("name", text (1 ∷ 2 ∷ [])) ∷ ("age", other 30) ∷ ("phone", null) ∷ []

seals :
    (encrypt_dict toy ("name" ∷ []) person service).0
    ≡ some (("name", text (64 ∷ 7 ∷ 1 ∷ 2 ∷ [])) ∷ ("age", other 30) ∷ ("phone", null) ∷ [])
unfolding encrypt_dict encrypt
seals = refl

abbrev empty_manager : SecureConfigManager toy
empty_manager = record { vault = record { secrets = []; seed = 1 }; config = [] }

-- `ann@x`, and `an@x`
masks :
    (mask_email (97 ∷ 110 ∷ 110 ∷ 64 ∷ 120 ∷ []) ≡ 97 ∷ 42 ∷ 110 ∷ 64 ∷ 120 ∷ [])
    × (mask_email (97 ∷ 110 ∷ 64 ∷ 120 ∷ []) ≡ 42 ∷ 42 ∷ 64 ∷ 120 ∷ [])
unfolding mask_email
masks = (refl, refl)

every_text : (v : Data toy) → IsEncodable toy v
every_text v = (_, refl)

decrypt_dict-encrypt_dict_example :
    let fields : List String = "name" ∷ "age" ∷ "name" ∷ [] in
    (d1 d2 : Dict (Data toy)) × ((encrypt_dict toy fields person service).0 ≡ some d1)
    × (decrypt_dict toy fields d1 ≡ some d2)
    × ((k : String) → lookup k d2 ≡ restored toy (count (λ f. key_eq f k) fields) (lookup k person))
decrypt_dict-encrypt_dict_example =
    decrypt_dict-encrypt_dict toy ("name" ∷ "age" ∷ "name" ∷ []) person service
      (λ k v e. every_text v)

get_config-set_config_example :
    (m' : SecureConfigManager toy) × (set_config toy "token" (text (5 ∷ [])) true empty_manager
      ≡ some m')
    × ((j : String)
        → get_config toy j null m' ≡ (
            if key_eq "token" j
            then (if is_secret toy true (text (5 ∷ []))
                then text (5 ∷ [])
                else if secret_exists toy "token" empty_manager.vault
                then get_config toy "token" null empty_manager
                else text (5 ∷ []))
            else get_config toy j null empty_manager))
get_config-set_config_example =
    get_config-set_config toy "token" (text (5 ∷ [])) null true empty_manager
      (every_text (text (5 ∷ [])))
