-- ===== src/Secrets/Config.antt =====
-- `SecureConfigManager`: what is read back of what was set.
use mathlib.Core.Path.{subst}
use self_optimizing_competit.Base.{
  ◌≡◌, refl, ap, ◌∙◌, Bool, true, false, Option, none, some, String, if◌then◌else◌, Bool-cases, inl,
  inr,
}
use self_optimizing_competit.Base.Dict.{Dict, contains, insert, key_eq, key_eq_iff, lookup-insert}
use self_optimizing_competit.Secrets.Interface.{Crypto, null, text, other}
use self_optimizing_competit.Secrets.{
  Data, encrypt, SecretsVault, store_secret, retrieve_secret, secret_exists, SecureConfigManager,
  set_plain, set_secret, set_config, or_null, get_config,
}
use self_optimizing_competit.Secrets.Chain.{IsEncodable, decrypt-encrypt}

contains-insert {ℓ} :
    {V : Type ℓ} (k j : String) (v : V) (d : Dict V)
    → contains j (insert k v d) ≡ (if key_eq k j then true else contains j d)
contains-insert {V = V} k j v d =
    let has : Option V → Bool = λ o. elim o [ none ↦ false | some _ ↦ true ] in
    elim (Bool-cases (key_eq k j)) [
      | inl same ↦ ap has (lookup-insert k j v d) ∙ rw same refl
      | inr apart ↦ ap has (lookup-insert k j v d) ∙ rw apart refl
    ]

module _ (c : Crypto) where
  -- Only text goes to the vault.
  abbrev pub is_secret : Bool → Data c → Bool
  is_secret false value = false
  is_secret true (text t) = true
  is_secret true null = false
  is_secret true (other x) = false

  same_answer :
      (key j : String) (value default : Data c) (m : SecureConfigManager c)
      → key ≡ j
      → (if secret_exists c j m.vault then or_null c (retrieve_secret c j m.vault) else value)
        ≡ (if secret_exists c key m.vault then get_config c key default m else value)
  unfolding get_config
  same_answer key j value default m e =
      subst
        (λ i.
          (if secret_exists c i m.vault then or_null c (retrieve_secret c i m.vault) else value)
          ≡ (if secret_exists c key m.vault then get_config c key default m else value))
        e
        (elim (Bool-cases (secret_exists c key m.vault)) [
          | inl there ↦ rw there refl
          | inr absent ↦ rw absent refl
        ])

  set_plain_lem :
      (key j : String) (value default : Data c) (m : SecureConfigManager c)
      → get_config c j default (set_plain c key value m) ≡ (
          if key_eq key j
          then (if secret_exists c key m.vault then get_config c key default m else value)
          else get_config c j default m)
  unfolding get_config secret_exists
  set_plain_lem key j value default m = elim (Bool-cases (key_eq key j)) [
    | inl same ↦
        rw (lookup-insert key j value m.config, same)
          (same_answer key j value default m ((key_eq_iff key j).0 same))
    | inr apart ↦ rw (lookup-insert key j value m.config, apart) refl
  ]

  set_secret_lem :
      (key : String) (t : c.Text) (default : Data c) (m : SecureConfigManager c)
      → IsEncodable c (text t)
      → (m' : SecureConfigManager c) × (set_secret c key t m ≡ some m')
        × ((j : String)
            → get_config c j default m'
              ≡ (if key_eq key j then text t else get_config c j default m))
  unfolding get_config secret_exists store_secret retrieve_secret
  set_secret_lem key t default m good =
      let (u, shown, opened, again) = decrypt-encrypt c (text t) m.vault.seed good in
      let v : SecretsVault c = record {
        secrets = insert key u m.vault.secrets;
        seed = (encrypt c (text t) m.vault.seed).1;
      } in
      (
        record m { vault = v },
        rw shown refl,
        λ j. elim (Bool-cases (key_eq key j)) [
          | inl same ↦
              rw
                (
                  contains-insert key j u m.vault.secrets,
                  lookup-insert key j u m.vault.secrets,
                  same,
                  opened,
                )
                refl
          | inr apart ↦
              rw
                (
                  contains-insert key j u m.vault.secrets,
                  lookup-insert key j u m.vault.secrets,
                  apart,
                )
                refl
        ],
      )

  -- If the text of a value has an encoding, `set_config` succeeds. `get_config` then answers, for
  -- the same key: the value, where it is a text that is to be encrypted; otherwise the value, unless
  -- the vault had a secret under the key, which is still answered. Every other key is answered as
  -- before.
  pub get_config-set_config :
      (key : String) (value default : Data c) (encrypt : Bool) (m : SecureConfigManager c)
      → IsEncodable c value
      → (m' : SecureConfigManager c) × (set_config c key value encrypt m ≡ some m')
        × ((j : String)
            → get_config c j default m' ≡ (
                if key_eq key j
                then (if is_secret encrypt value
                    then value
                    else if secret_exists c key m.vault
                    then get_config c key default m
                    else value)
                else get_config c j default m))
  unfolding set_config
  get_config-set_config key value default false m good =
      (set_plain c key value m, refl, λ j. set_plain_lem key j value default m)
  get_config-set_config key (text t) default true m good = set_secret_lem key t default m good
  get_config-set_config key null default true m good =
      (set_plain c key null m, refl, λ j. set_plain_lem key j null default m)
  get_config-set_config key (other x) default true m good =
      (set_plain c key (other x) m, refl, λ j. set_plain_lem key j (other x) default m)
