-- ===== src/Rpc/Transport.antt =====
-- include/hermes/rpc/transport.h: the transport is given by the program that uses the library, so
-- it is a record of two operations over a state. `recv` is asked for a number of bytes.
-- A chain of `if (HM_SUCCESS != (res = ...)) return res;` is a `do` block over `Step`.
pub mod Channel
use hermes_core.Prelude.{ℕ, if◌then◌else◌, ◌==◌}
use hermes_core.Common.Bytes.{Bytes}
use hermes_core.Common.Status.{Status, hm_success}

pub record Transport (S : Type 0) : Type 0 where
  pub send : S → Bytes → Status × S
  pub recv : S → ℕ → Status × Bytes × S

pub data Step (S A : Type 0) : Type 0 where
  ok : A → S → Step S A
  err : Status → S → Step S A

module _ {S : Type 0} where
  abbrev pub and_then : {A B : Type 0} → Step S A → (A → S → Step S B) → Step S B
  and_then (ok a s) k = k a s
  and_then (err e s) k = err e s

  infixl 5 ◌>>=◌ ◌>>◌
  abbrev pub ◌>>=◌ : {A B : Type 0} → (S → Step S A) → (A → S → Step S B) → S → Step S B
  ◌>>=◌ m k s = and_then (m s) k

  abbrev pub ◌>>◌ : {A B : Type 0} → (S → Step S A) → (S → Step S B) → S → Step S B
  ◌>>◌ m k s = and_then (m s) (λ _. k)

  abbrev pub pure : {A : Type 0} → A → S → Step S A
  pure = ok

  abbrev pub status_of : {A : Type 0} → Step S A → Status
  status_of (ok a s) = hm_success
  status_of (err e s) = e

  abbrev pub state_of : {A : Type 0} → Step S A → S
  state_of (ok a s) = s
  state_of (err e s) = s

  unfoldable pub send_bytes : Transport S → Bytes → S → Step S (Unit {0})
  send_bytes t bs s = let r = t.send s bs in if r.0 == hm_success then ok tt r.1 else err r.0 r.1

  unfoldable pub recv_bytes : Transport S → ℕ → S → Step S Bytes
  recv_bytes t n s = let r = t.recv s n in if r.0 == hm_success then ok r.1 r.2 else err r.0 r.2
