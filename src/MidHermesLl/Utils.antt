-- ===== src/MidHermesLl/Utils.antt =====
-- src/mid_hermes_ll/utils.c over Themis and Soter, which are a parameter: `R` is the state of their
-- source of randomness, `H` that of a MAC. A function that fills a buffer is called twice, first for
-- the size (`some n` is THEMIS_BUFFER_TOO_SMALL with `n`; `none` is any other status), then with a
-- buffer of that size (`some` is THEMIS_SUCCESS with what was written).
pub mod Laws
use hermes_core.Prelude.{ℕ, [], not, ◌&&◌, Option, none, some, if◌then◌else◌}
use hermes_core.Common.Bytes.{Bytes, is_given, contents}
use hermes_core.Common.Status.{Status, hm_success, hm_fail, hm_invalid_parameter}
use hermes_core.MidHermesLl.Run.{Outcome, done, crash}

pub record Themis (R H : Type 0) : Type 0 where
  -- soter_rand.
  pub rand : ℕ → R → Option Bytes × R
  -- themis_secure_cell_encrypt_seal: the key, the context and the message.
  pub encrypt_seal_size : Bytes → Option Bytes → Bytes → Option ℕ
  pub encrypt_seal : Bytes → Option Bytes → Bytes → ℕ → R → Option Bytes × R
  -- themis_secure_cell_decrypt_seal.
  pub decrypt_seal_size : Bytes → Option Bytes → Bytes → Option ℕ
  pub decrypt_seal : Bytes → Option Bytes → Bytes → ℕ → Option Bytes
  -- themis_secure_message_wrap: the private key, the public key and the message.
  pub wrap_size : Bytes → Bytes → Bytes → Option ℕ
  pub wrap : Bytes → Bytes → Bytes → ℕ → R → Option Bytes × R
  -- themis_secure_message_unwrap.
  pub unwrap_size : Bytes → Bytes → Bytes → Option ℕ
  pub unwrap : Bytes → Bytes → Bytes → ℕ → Option Bytes
  -- soter_hmac_create with SOTER_HASH_SHA512, soter_hmac_update and soter_hmac_final.
  pub hmac_create : Bytes → Option H
  pub hmac_update : H → Option Bytes → Option H
  pub hmac_size : H → Option ℕ
  pub hmac_final : H → ℕ → Option Bytes

-- The status, and what the result's pointer is left with.
abbrev pub stored : Option Bytes → Status × Option Bytes
stored none = (hm_fail, none)
stored (some bs) = (hm_success, some bs)

abbrev pub stored_with : {R : Type 0} → Option Bytes × R → Status × Option Bytes × R
stored_with (none, r) = (hm_fail, none, r)
stored_with (some bs, r) = (hm_success, some bs, r)

abbrev pub decrypted : Option ℕ → (ℕ → Option Bytes) → Status × Option Bytes
decrypted none fill = (hm_fail, none)
decrypted (some n) fill = stored (fill n)

-- Where the message does not unwrap although Themis gave its size, `memset(data, ...)` overwrites the
-- caller's variable and the memory behind it, in place of the buffer: a crash, whatever the size. (It
-- spares the memory behind where the size is small, which is not told apart.)
abbrev pub opened : Option Bytes → Outcome (Status × Option Bytes)
opened none = crash
opened (some bs) = done (hm_success, some bs)

abbrev pub unwrapped : Option ℕ → (ℕ → Option Bytes) → Outcome (Status × Option Bytes)
unwrapped none fill = done (hm_fail, none)
unwrapped (some n) fill = opened (fill n)

-- Where the MAC cannot be written, its buffer is left to the caller, who is not told its length.
abbrev pub written : Option Bytes → Status × Option Bytes
written none = (hm_fail, some [])
written (some bs) = (hm_success, some bs)

abbrev pub finished : Option ℕ → (ℕ → Option Bytes) → Status × Option Bytes
finished none fill = (hm_fail, none)
finished (some n) fill = written (fill n)

abbrev pub encrypted :
    {R : Type 0} → Option ℕ → (ℕ → R → Option Bytes × R) → R → Status × Option Bytes × R
encrypted none fill r = (hm_fail, none, r)
encrypted (some n) fill r = stored_with (fill n r)

module _ {R H : Type 0} (th : Themis R H) where
  unfoldable pub hm_encrypt :
      Option Bytes → Option Bytes → Option Bytes → R → Status × Option Bytes × R
  hm_encrypt key bytes context r =
      if not (is_given key && is_given bytes)
      then (hm_invalid_parameter, none, r)
      else encrypted (th.encrypt_seal_size (contents key) context (contents bytes))
          (th.encrypt_seal (contents key) context (contents bytes)) r

  unfoldable pub hm_decrypt : Option Bytes → Option Bytes → Option Bytes → Status × Option Bytes
  hm_decrypt key bytes context =
      if not (is_given key && is_given bytes)
      then (hm_invalid_parameter, none)
      else decrypted (th.decrypt_seal_size (contents key) context (contents bytes))
          (th.decrypt_seal (contents key) context (contents bytes))

  abbrev pub mac_final : Option H → Status × Option Bytes
  mac_final none = (hm_fail, none)
  mac_final (some h) = finished (th.hmac_size h) (th.hmac_final h)

  abbrev pub mac_update : Option H → Option Bytes → Option H
  mac_update none bytes = none
  mac_update (some h) bytes = th.hmac_update h bytes

  unfoldable pub hm_mac_create : Option Bytes → Option Bytes → Option Bytes → Status × Option Bytes
  hm_mac_create key bytes context =
      if not (is_given key && is_given bytes)
      then (hm_invalid_parameter, none)
      else mac_final (mac_update (mac_update (th.hmac_create (contents key)) bytes) context)

  unfoldable pub hm_asym_encrypt :
      Option Bytes → Option Bytes → Option Bytes → R → Status × Option Bytes × R
  hm_asym_encrypt private_key public_key bytes r =
      if not (is_given private_key && is_given public_key && is_given bytes)
      then (hm_invalid_parameter, none, r)
      else encrypted (th.wrap_size (contents private_key) (contents public_key) (contents bytes))
          (th.wrap (contents private_key) (contents public_key) (contents bytes)) r

  unfoldable pub hm_asym_decrypt :
      Option Bytes → Option Bytes → Option Bytes → Outcome (Status × Option Bytes)
  hm_asym_decrypt private_key public_key bytes =
      if not (is_given private_key && is_given public_key && is_given bytes)
      then done (hm_invalid_parameter, none)
      else unwrapped (th.unwrap_size (contents private_key) (contents public_key) (contents bytes))
          (th.unwrap (contents private_key) (contents public_key) (contents bytes))
