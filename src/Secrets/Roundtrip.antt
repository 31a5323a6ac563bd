-- ===== src/Secrets/Roundtrip.antt =====
-- What is encrypted is decrypted again.
use mathlib.Core.Path.{subst}
use self_optimizing_competit.Base.{
  ℕ, suc, ◌≡◌, refl, ap, ◌∙◌, Option, none, some, String, List, [], ◌∷◌, ◌>>=◌, count, Bool-cases,
  inl, inr,
}
use self_optimizing_competit.Base.Dict.{
  Dict, lookup, insert, key_eq, key_eq_iff, lookup-insert, insert_every,
}
use self_optimizing_competit.Secrets.Interface.{Crypto, text}
use self_optimizing_competit.Secrets.{
  Data, encrypt, decrypt, EncryptionService, seal_field, encrypt_field, encrypt_dict, decrypt_field,
  decrypt_dict,
}
use self_optimizing_competit.Secrets.Chain.{
  IsEncodable, decrypt-encrypt, restored, Opens, IsIdle, IsSealed, field_cases, idle_field,
  idle_once, sealed_once, done-Opens, chain_cases,
}

module _ (c : Crypto) where
  abbrev times : String → List String → ℕ
  times k fields = count (λ f. key_eq f k) fields

  abbrev AreEncodable : Dict (Data c) → Type 0
  AreEncodable d = (k : String) (v : Data c) → lookup k d ≡ some v → IsEncodable c v

  abbrev IsCovered : List String → Dict (Data c) → Option (Dict (Data c)) → Type 0
  IsCovered fields d o =
      (d' : Dict (Data c)) × (o ≡ some d')
      × ((k : String)
          → Opens c (times k fields) (lookup k d') (restored c (times k fields) (lookup k d)))

  sealed-AreEncodable :
      (f : String) (t : c.Text) (d : Dict (Data c))
      → IsEncodable c (text t)
      → AreEncodable d
      → AreEncodable (insert f (text t) d)
  sealed-AreEncodable f t d good all = insert_every (λ k. IsEncodable c) f (text t) d good all

  -- The loop, once it is done with a field
  abbrev go_on :
      List String
      → Option (Dict (Data c)) × EncryptionService c
      → Option (Dict (Data c)) × EncryptionService c
  go_on fields (o, e) = elim o [ none ↦ (none, e) | some d ↦ encrypt_dict c fields d e ]

  idle_dict :
      (f : String) (fields : List String) (d : Dict (Data c)) (e : EncryptionService c)
      → IsIdle c (lookup f d)
      → encrypt_dict c (f ∷ fields) d e ≡ encrypt_dict c fields d e
  unfolding encrypt_dict
  idle_dict f fields d e idle = ap (go_on fields) (idle_field c f (lookup f d) d e idle)

  abbrev tracked : String → c.Seed → EncryptionService c → EncryptionService c
  tracked f s e = record { encrypted_fields = insert f "encrypted" e.encrypted_fields; seed = s }

  sealed_dict :
      (f : String) (fields : List String) (d : Dict (Data c)) (e : EncryptionService c) (v : Data c)
      (t : c.Text)
      → lookup f d ≡ some v
      → IsSealed c v
      → (encrypt c v e.seed).0 ≡ some t
      → encrypt_dict c (f ∷ fields) d e
        ≡ encrypt_dict c fields (insert f (text t) d) (tracked f (encrypt c v e.seed).1 e)
  unfolding encrypt_dict
  sealed_dict f fields d e v t held known shown =
      ap (λ o. go_on fields (encrypt_field c f o d e)) held
      ∙ ap (go_on fields) (known.1 f d e)
      ∙ ap (λ o. go_on fields (seal_field c f (o, (encrypt c v e.seed).1) d e.encrypted_fields))
          shown

  encrypt_lem :
      (fields : List String) (d : Dict (Data c)) (e : EncryptionService c)
      → AreEncodable d
      → IsCovered fields d (encrypt_dict c fields d e).0
  unfolding encrypt_dict
  encrypt_lem [] d e all = (d, refl, λ k. refl)
  encrypt_lem (f ∷ fields) d e all = elim (field_cases c (lookup f d)) [
    | inl idle ↦
        let (d', done, opens) = encrypt_lem fields d e all in
        (
          d',
          ap (λ p. p.0) (idle_dict f fields d e idle) ∙ done,
          λ k. elim (Bool-cases (key_eq f k)) [
            | inl same ↦ rw same (
                idle_once c (times k fields) (lookup k d') (lookup k d)
                  (subst (λ j. IsIdle c (lookup j d)) ((key_eq_iff f k).0 same) idle) (opens k))
            | inr apart ↦ rw apart (opens k)
          ],
        )
    | inr (v, held, known) ↦
        let (t, shown, opened, good) = decrypt-encrypt c v e.seed (all f v held) in
        let (d', done, opens) =
          encrypt_lem fields (insert f (text t) d) (tracked f (encrypt c v e.seed).1 e)
            (sealed-AreEncodable f t d good all) in
        (
          d',
          ap (λ p. p.0) (sealed_dict f fields d e v t held known shown) ∙ done,
          λ k. elim (Bool-cases (key_eq f k)) [
            | inl same ↦ rw same (
                sealed_once c (times k fields) (lookup k d') (lookup k d) v t
                  (subst (λ j. lookup j d ≡ some v) ((key_eq_iff f k).0 same) held) known opened
                  (rw (lookup-insert f k (text t) d, same) at (opens k)))
            | inr apart ↦ rw apart (rw (lookup-insert f k (text t) d, apart) at (opens k))
          ],
        )
  ]

  idle_decrypted :
      (f : String) (o : Option (Data c)) (d : Dict (Data c))
      → IsIdle c o
      → decrypt_field c f o d ≡ some d
  idle_decrypted f o d (inl i) = rw i refl
  idle_decrypted f o d (inr i) = rw i refl

  text_decrypted :
      (f : String) (t t' : c.Text) (d : Dict (Data c))
      → decrypt c t ≡ some t'
      → decrypt_field c f (some (text t)) d ≡ some (insert f (text t') d)
  text_decrypted f t t' d opened = rw opened refl

  abbrev IsOpen : List String → Dict (Data c) → (String → Option (Data c)) → Type 0
  IsOpen fields d w = (k : String) → Opens c (times k fields) (lookup k d) (w k)

  decrypt_lem :
      (fields : List String) (d : Dict (Data c)) (w : String → Option (Data c))
      → IsOpen fields d w
      → (d' : Dict (Data c)) × (decrypt_dict c fields d ≡ some d')
        × ((k : String) → lookup k d' ≡ w k)
  unfolding decrypt_dict
  decrypt_lem [] d w h = (d, refl, h)
  decrypt_lem (f ∷ fields) d w h =
      let go_on = λ (o : Option (Dict (Data c))). o >>= decrypt_dict c fields in
      let n = times f fields in
      let mine : Opens c (suc n) (lookup f d) (w f) = rw ((key_eq_iff f f).1 refl) at (h f) in
      elim (chain_cases c n (lookup f d) (w f) mine) [
        | inl (idle, there) ↦
            let (d', done, all) = decrypt_lem fields d w (λ k. elim (Bool-cases (key_eq f k)) [
              | inl same ↦
                  subst (λ j. Opens c (times j fields) (lookup j d) (w j)) ((key_eq_iff f k).0 same)
                    (done-Opens c n (lookup f d) (w f) idle there)
              | inr apart ↦ rw apart at (h k)
            ]) in
            (d', ap go_on (idle_decrypted f (lookup f d) d idle) ∙ done, all)
        | inr (t, t', held, opened, rest) ↦
            let (d', done, all) = decrypt_lem fields (insert f (text t') d) w (λ k.
              elim (Bool-cases (key_eq f k)) [
                | inl same ↦
                    rw (lookup-insert f k (text t') d, same)
                      (subst (λ j. Opens c (times j fields) (some (text t')) (w j))
                        ((key_eq_iff f k).0 same) rest)
                | inr apart ↦ rw (lookup-insert f k (text t') d, apart) (rw apart at (h k))
              ]) in
            (
              d',
              ap (λ o. go_on (decrypt_field c f o d)) held
                  ∙ ap go_on (text_decrypted f t t' d opened)
                  ∙ done,
              all,
            )
      ]

  -- If the text of every value has an encoding, `encrypt_dict` succeeds for any list of fields, with
  -- repetitions or not; `decrypt_dict` with the same list then succeeds too, and gives each listed
  -- field the text of its value, and the value where that is a text already or `None`, and leaves
  -- every other field as it was. A field that is listed more often is encrypted, and decrypted, as
  -- often.
  pub decrypt_dict-encrypt_dict :
      (fields : List String) (d : Dict (Data c)) (e : EncryptionService c)
      → ((k : String) (v : Data c) → lookup k d ≡ some v → IsEncodable c v)
      → (d1 d2 : Dict (Data c)) × ((encrypt_dict c fields d e).0 ≡ some d1)
        × (decrypt_dict c fields d1 ≡ some d2)
        × ((k : String) → lookup k d2 ≡ restored c (count (λ f. key_eq f k) fields) (lookup k d))
  decrypt_dict-encrypt_dict fields d e all =
      let (d1, done, opens) = encrypt_lem fields d e all in
      let (d2, back, same) = decrypt_lem fields d1 _ opens in (d1, d2, done, back, same)
