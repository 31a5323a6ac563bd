-- ===== src/Secrets/Chain.antt =====
-- Chains of decryptions, as they come from encrypting a field once or several times.
use mathlib.Core.Path.{subst}
use self_optimizing_competit.Base.{
  ℕ, zero, suc, ◌≡◌, ◌⊎◌, refl, sym, ap, ◌∙◌, Option, none, some, String, arith, inl, inr,
}
use self_optimizing_competit.Base.Dict.{Dict}
use self_optimizing_competit.Secrets.Interface.{Crypto, null, text, other}
use self_optimizing_competit.Secrets.{
  Data, as_text, encrypt, decrypt, EncryptionService, seal_field, encrypt_field,
}

module _ (c : Crypto) where
  -- The text of a value has an encoding.
  abbrev pub IsEncodable : Data c → Type 0
  IsEncodable v = (b : c.Bytes) × (c.utf8_encode (as_text c v) ≡ some b)

  -- An encryption succeeds, its text has an encoding, and decrypts to the text of the value.
  pub decrypt-encrypt :
      (v : Data c) (s : c.Seed)
      → IsEncodable v
      → (t : c.Text) × ((encrypt c v s).0 ≡ some t)
        × (decrypt c t ≡ some (as_text c v))
        × IsEncodable (text t)
  unfolding encrypt decrypt
  decrypt-encrypt v s (b, e) =
      let (t, shown, back) = c.b64_ascii (c.seal b s).0 in
      (
        t,
        rw e shown,
        rw (back, c.b64decode_encode (c.seal b s).0, c.unseal_seal b s)
            (c.decode_encode (as_text c v) b e),
        (c.b64encode (c.seal b s).0, back),
      )

  -- What a field holds once it was encrypted and decrypted so many times.
  abbrev pub restored : ℕ → Option (Data c) → Option (Data c)
  restored zero o = o
  restored (suc n) none = none
  restored (suc n) (some null) = some null
  restored (suc n) (some (text t)) = some (text t)
  restored (suc n) (some (other x)) = some (text (c.str (other x)))

  -- So many decryptions lead from one value of a field to another.
  abbrev pub Opens : ℕ → Option (Data c) → Option (Data c) → Type 0
  Opens zero o x = o ≡ x
  Opens (suc n) none x = none ≡ x
  Opens (suc n) (some null) x = some null ≡ x
  Opens (suc n) (some (text t)) x =
      (t' : c.Text) × (decrypt c t ≡ some t') × Opens n (some (text t')) x
  Opens (suc n) (some (other y)) x = ⊥

  -- One more decryption at the end.
  pub again-Opens :
      (n : ℕ) (o : Option (Data c)) (t t' : c.Text)
      → Opens n o (some (text t))
      → decrypt c t ≡ some t'
      → Opens (suc n) o (some (text t'))
  again-Opens zero o t t' h e = subst (λ x. Opens 1 x (some (text t'))) (sym h) (t', e, refl)
  again-Opens (suc n) none t t' h e = absurd (ground (arith, h))
  again-Opens (suc n) (some null) t t' h e = absurd (ground (arith, h))
  again-Opens (suc n) (some (text u)) t t' (u', d, h) e =
      (u', d, again-Opens n (some (text u')) t t' h e)
  again-Opens (suc n) (some (other y)) t t' h e = absurd h

  -- A field that holds nothing stays so.
  abbrev pub IsIdle : Option (Data c) → Type 0
  IsIdle x = (x ≡ none) ⊎ (x ≡ some null)

  pub idle-Opens : (n : ℕ) (o x : Option (Data c)) → IsIdle x → Opens n o x → Opens (suc n) o x
  idle-Opens zero o x (inl i) h = subst (λ y. Opens 1 y x) (sym (h ∙ i)) (sym i)
  idle-Opens zero o x (inr i) h = subst (λ y. Opens 1 y x) (sym (h ∙ i)) (sym i)
  idle-Opens (suc n) none x i h = h
  idle-Opens (suc n) (some null) x i h = h
  idle-Opens (suc n) (some (text u)) x i (u', d, h) = (u', d, idle-Opens n (some (text u')) x i h)
  idle-Opens (suc n) (some (other y)) x i h = h

  pub restored_idle : (n : ℕ) (x : Option (Data c)) → IsIdle x → restored n x ≡ x
  restored_idle zero x i = refl
  restored_idle (suc n) x (inl i) = rw i refl
  restored_idle (suc n) x (inr i) = rw i refl

  pub restored_text : (n : ℕ) (t : c.Text) → restored n (some (text t)) ≡ some (text t)
  restored_text zero t = refl
  restored_text (suc n) t = refl

  -- What the loops do with a field that holds something
  abbrev pub IsSealed : Data c → Type 0
  IsSealed v =
      ((n : ℕ) → restored (suc n) (some v) ≡ some (text (as_text c v)))
      × ((k : String) (d : Dict (Data c)) (e : EncryptionService c)
          → encrypt_field c k (some v) d e
            ≡ seal_field c k (encrypt c v e.seed) d e.encrypted_fields)

  pub field_cases : (o : Option (Data c)) → IsIdle o ⊎ ((v : Data c) × (o ≡ some v) × IsSealed v)
  field_cases none = inl (inl refl)
  field_cases (some null) = inl (inr refl)
  field_cases (some (text t)) = inr (text t, refl, (λ n. refl, λ k d e. refl))
  field_cases (some (other x)) = inr (other x, refl, (λ n. refl, λ k d e. refl))

  abbrev pub idle_field :
      (k : String) (o : Option (Data c)) (d : Dict (Data c)) (e : EncryptionService c)
      → IsIdle o
      → encrypt_field c k o d e ≡ (some d, e)
  idle_field k o d e (inl i) = rw i refl
  idle_field k o d e (inr i) = rw i refl

  pub idle_once :
      (n : ℕ) (o x : Option (Data c))
      → IsIdle x
      → Opens n o (restored n x)
      → Opens (suc n) o (restored (suc n) x)
  idle_once n o x i h =
      subst (Opens (suc n) o) (sym (restored_idle (suc n) x i))
        (idle-Opens n o x i (subst (Opens n o) (restored_idle n x i) h))

  pub sealed_once :
      (n : ℕ) (o x : Option (Data c)) (v : Data c) (t : c.Text)
      → x ≡ some v
      → IsSealed v
      → decrypt c t ≡ some (as_text c v)
      → Opens n o (restored n (some (text t)))
      → Opens (suc n) o (restored (suc n) x)
  sealed_once n o x v t held known opened h =
      subst (Opens (suc n) o) (sym (ap (restored (suc n)) held ∙ known.0 n))
        (again-Opens n o t (as_text c v) (subst (Opens n o) (restored_text n t) h) opened)

  pub done-Opens : (n : ℕ) (o x : Option (Data c)) → IsIdle o → o ≡ x → Opens n o x
  done-Opens zero o x i h = h
  done-Opens (suc n) o x (inl i) h = subst (λ y. Opens (suc n) y x) (sym i) (sym i ∙ h)
  done-Opens (suc n) o x (inr i) h = subst (λ y. Opens (suc n) y x) (sym i) (sym i ∙ h)

  pub chain_cases :
      (n : ℕ) (o x : Option (Data c))
      → Opens (suc n) o x
      → (IsIdle o × (o ≡ x))
        ⊎ ((t t' : c.Text) × (o ≡ some (text t))
            × (decrypt c t ≡ some t')
            × Opens n (some (text t')) x)
  chain_cases n none x h = inl (inl refl, h)
  chain_cases n (some null) x h = inl (inr refl, h)
  chain_cases n (some (text t)) x (t', opened, h) = inr (t, t', refl, opened, h)
  chain_cases n (some (other y)) x h = absurd h
