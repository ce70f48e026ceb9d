-- ===== src/MidHermesLl/Utils/Laws.antt =====
-- What Themis documents, and what src/mid_hermes_ll/utils.c makes of it.
use hermes_core.Prelude.{
  ℕ, ◌≡◌, refl, ap, false, ◌&&◌, Option, none, some, arith, inl, inr, Bool-cases, is_empty,
  Option-cases,
}
use hermes_core.Common.Bytes.{Bytes, is_given, contents}
use hermes_core.Common.Status.{hm_success}
use hermes_core.MidHermesLl.Utils.{
  Themis, encrypted, finished, mac_final, mac_update, hm_mac_create, hm_encrypt, hm_decrypt,
  hm_asym_encrypt, hm_asym_decrypt,
}
use hermes_core.MidHermesLl.Run.{done}
use hermes_core.Rpc.Calling.Answered.{given_and}

-- A sealed message is not empty, and opens with its key and context to the message; a message that is
-- wrapped for a key pair is not empty, and unwraps with that pair. `Pair` tells key pairs.
pub record ThemisLaws {R H : Type 0} (th : Themis R H) (Pair : Bytes → Bytes → Type 0)
    : Type 0 where
  pub sealed_nonempty :
      (key : Bytes) (context : Option Bytes) (m c : Bytes) (n : ℕ) (r r' : R)
      → th.encrypt_seal key context m n r ≡ (some c, r')
      → is_empty c ≡ false
  pub sealed_size :
      (key : Bytes) (context : Option Bytes) (m c : Bytes) (n : ℕ) (r r' : R)
      → th.encrypt_seal key context m n r ≡ (some c, r')
      → (k : ℕ) × (th.decrypt_seal_size key context c ≡ some k)
        × (th.decrypt_seal key context c k ≡ some m)
  pub wrapped_nonempty :
      (sk pk m c : Bytes) (n : ℕ) (r r' : R)
      → th.wrap sk pk m n r ≡ (some c, r')
      → is_empty c ≡ false
  pub wrapped_size :
      (sk pk sk' pk' m c : Bytes) (n : ℕ) (r r' : R)
      → Pair sk pk
      → Pair sk' pk'
      → th.wrap sk pk' m n r ≡ (some c, r')
      → (k : ℕ) × (th.unwrap_size sk' pk c ≡ some k) × (th.unwrap sk' pk c k ≡ some m)

-- No message fails to unwrap once Themis has given its size: none that is unwrapped is damaged in what
-- the size does not depend on.
pub record NoneDamaged {R H : Type 0} (th : Themis R H) : Type 0 where
  pub unwraps :
      (sk pk c : Bytes) (n : ℕ)
      → th.unwrap_size sk pk c ≡ some n
      → (m : Bytes) × (th.unwrap sk pk c n ≡ some m)

-- A buffer that was filled came of a size and of the call that filled it.
encrypted_inverse :
    {R : Type 0} (size : Option ℕ) (fill : ℕ → R → Option Bytes × R) (r : R) {out : Option Bytes}
    {r' : R}
    → encrypted size fill r ≡ (hm_success, out, r')
    → (c : Bytes) × (n : ℕ) × (out ≡ some c) × (fill n r ≡ (some c, r'))
encrypted_inverse none fill r h = absurd (ground (arith, ap (λ p. p.0) h))
encrypted_inverse (some n) fill r h = elim (Option-cases (fill n r).0) [
  | inl e ↦ absurd (ground (arith, e, ap (λ p. p.0) h))
  | inr (c, e) ↦ (c, n, ground (arith, e, h), ground (arith, e, h))
]

module _ {R H : Type 0} {th : Themis R H} {Pair : Bytes → Bytes → Type 0}
    (laws : ThemisLaws th Pair) where
  open laws use {sealed_nonempty, sealed_size, wrapped_nonempty, wrapped_size}

  pub hm_encrypt_stored :
      (key bytes context out : Option Bytes) (r r' : R)
      → hm_encrypt th key bytes context r ≡ (hm_success, out, r')
      → (c : Bytes) × (out ≡ some c)
        × (is_empty c ≡ false)
        × (hm_decrypt th key (some c) context ≡ (hm_success, bytes))
  unfolding hm_encrypt hm_decrypt
  hm_encrypt_stored key bytes context out r r' h =
      elim (Bool-cases (is_given key && is_given bytes)) [
        | inr e ↦ absurd (ground (arith, e, ap (λ p. p.0) h))
        | inl e ↦
            let (hb, hk) = given_and (is_given key) bytes e in
            let (c, n, full, filled) =
              encrypted_inverse (th.encrypt_seal_size (contents key) context (contents bytes))
                (th.encrypt_seal (contents key) context (contents bytes)) r (rw e at h) in
            let solid = sealed_nonempty _ _ _ _ _ _ _ filled in
            let (k, size, opened) = sealed_size _ _ _ _ _ _ _ filled in
            (c, full, solid, rw (hk, solid, size, opened, hb) refl)
      ]

  -- What `hm_encrypt` made of a message under a key and a context, `hm_decrypt` turns back into the
  -- message under that key and context.
  pub hm_decrypt-hm_encrypt :
      (key bytes context out : Option Bytes) (r r' : R)
      → hm_encrypt th key bytes context r ≡ (hm_success, out, r')
      → hm_decrypt th key out context ≡ (hm_success, bytes)
  hm_decrypt-hm_encrypt key bytes context out r r' h =
      let (c, full, solid, opened) = hm_encrypt_stored key bytes context out r r' h in
      rw full opened

  pub hm_asym_encrypt_stored :
      (sk pk sk' pk' : Bytes) (bytes out : Option Bytes) (r r' : R)
      → Pair sk pk
      → Pair sk' pk'
      → is_empty pk ≡ false
      → is_empty sk' ≡ false
      → hm_asym_encrypt th (some sk) (some pk') bytes r ≡ (hm_success, out, r')
      → (c : Bytes) × (out ≡ some c)
        × (is_empty c ≡ false)
        × (hm_asym_decrypt th (some sk') (some pk) (some c) ≡ done (hm_success, bytes))
  unfolding hm_asym_encrypt hm_asym_decrypt
  hm_asym_encrypt_stored sk pk sk' pk' bytes out r r' p p' full_pk full_sk h =
      elim (Bool-cases (is_given (some sk) && is_given (some pk') && is_given bytes)) [
        | inr e ↦ absurd (ground (arith, e, ap (λ p. p.0) h))
        | inl e ↦
            let (hb, hk) = given_and (is_given (some sk) && is_given (some pk')) bytes e in
            let (c, n, full, filled) =
              encrypted_inverse (th.wrap_size sk pk' (contents bytes))
                (th.wrap sk pk' (contents bytes)) r (rw e at h) in
            let solid = wrapped_nonempty _ _ _ _ _ _ _ filled in
            let (k, size, opened) = wrapped_size _ _ sk' _ _ _ _ _ _ p p' filled in
            (c, full, solid, rw (full_pk, full_sk, solid, size, opened, hb) refl)
      ]

  -- What `hm_asym_encrypt` made of a message with a private and a public key, `hm_asym_decrypt` turns
  -- back into the message with the other two keys of the two pairs.
  pub hm_asym_decrypt-hm_asym_encrypt :
      (sk pk sk' pk' : Bytes) (bytes out : Option Bytes) (r r' : R)
      → Pair sk pk
      → Pair sk' pk'
      → is_empty pk ≡ false
      → is_empty sk' ≡ false
      → hm_asym_encrypt th (some sk) (some pk') bytes r ≡ (hm_success, out, r')
      → hm_asym_decrypt th (some sk') (some pk) out ≡ done (hm_success, bytes)
  hm_asym_decrypt-hm_asym_encrypt sk pk sk' pk' bytes out r r' p p' full_pk full_sk h =
      let (c, full, solid, opened) =
        hm_asym_encrypt_stored sk pk sk' pk' bytes out r r' p p' full_pk full_sk h in
      rw full opened

finished_found :
    (size : Option ℕ) (fill : ℕ → Option Bytes) {out : Option Bytes}
    → finished size fill ≡ (hm_success, out)
    → (c : Bytes) × (out ≡ some c)
finished_found none fill h = absurd (ground (arith, ap (λ p. p.0) h))
finished_found (some n) fill h = elim (Option-cases (fill n)) [
  | inl e ↦ absurd (ground (arith, e, ap (λ p. p.0) h))
  | inr (c, e) ↦ (c, ground (arith, e, h))
]

mac_final_found :
    {R H : Type 0} (th : Themis R H) (h : Option H) {out : Option Bytes}
    → mac_final th h ≡ (hm_success, out)
    → (c : Bytes) × (out ≡ some c)
mac_final_found th none h = absurd (ground (arith, ap (λ p. p.0) h))
mac_final_found th (some c) h = finished_found (th.hmac_size c) (th.hmac_final c) h

-- A MAC that was made is there.
pub hm_mac_create_found :
    {R H : Type 0} (th : Themis R H) (key bytes context : Option Bytes) {out : Option Bytes}
    → hm_mac_create th key bytes context ≡ (hm_success, out)
    → (c : Bytes) × (out ≡ some c)
unfolding hm_mac_create
hm_mac_create_found th key bytes context h = elim (Bool-cases (is_given key && is_given bytes)) [
  | inr e ↦ absurd (ground (arith, e, ap (λ p. p.0) h))
  | inl e ↦
      mac_final_found th
        (mac_update th (mac_update th (th.hmac_create (contents key)) bytes) context) (rw e at h)
]
