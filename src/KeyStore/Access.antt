-- ===== src/KeyStore/Access.antt =====
-- Who may change the tokens of src/key_store/functions.c.
use hermes_core.Prelude.{
  ℕ, ◌≡◌, ◌≢◌, ◌⊎◌, inl, inr, refl, Bool, true, ◌&&◌, Option, none, some, arith, ◌==◌, Bool-cases,
  beq_iff, Option-cases,
}
use hermes_core.Common.Bytes.{Bytes, is_given, contents}
use hermes_core.Common.Status.{Status, hm_success, hm_fail}
use hermes_core.KeyStore.SameId.{same_id_iff}
use hermes_core.KeyStore.{
  Db, SetToken, GetToken, DelToken, GetIndexedRights, check_backend, get_indexed_rights, same_id,
  is_there, set_token, del_token, set_rtoken, set_wtoken, del_rtoken, del_wtoken,
}

module _ {D : Type 0} where
  -- What may come of setting a token, if the database has the getter `get` and the setter `set`.
  abbrev pub SetOutcome :
      GetToken D → SetToken D → Bytes → Bytes → Bytes → Bytes → D → Status × D → Type 0
  SetOutcome get set block user owner token d r =
      let test = get d block owner in
      ((user ≡ owner) × (r ≡ set d block user owner token))
      ⊎ (((user ≢ owner) × (test.0 ≡ hm_success) × (r ≡ set test.3 block user owner token))
          ⊎ ((user ≢ owner) × (test.0 ≢ hm_success) × (r ≡ (hm_fail, test.3))))

  set_token-outcome :
      (get : GetToken D) (set : SetToken D) (block user owner token : Option Bytes) (d : D)
      → (is_given block && is_given user && is_given owner && is_given token) ≡ true
      → SetOutcome get set
          (contents block)
          (contents user)
          (contents owner)
          (contents token)
          d
          (set_token true (some get) (some set) block user owner token d)
  unfolding set_token
  set_token-outcome get set block user owner token d h =
      let same = same_id_iff (contents user) (contents owner) in
      let test = get d (contents block) (contents owner) in
      elim (Bool-cases (same_id (contents user) (contents owner))) [
        | inl e ↦ inl (same.0 e, rw (h, e) refl)
        | inr e ↦
            let differ : contents user ≢ contents owner = λ p. ground (arith, same.1 p, e) in
            elim (Bool-cases (test.0 == hm_success)) [
              | inl s ↦ inr (inl (differ, (beq_iff test.0 hm_success).0 s, rw (h, e, s) refl))
              | inr s ↦ inr (inr (differ, (λ p. ground (arith, p, s)), rw (h, e, s) refl))
            ]
      ]

  -- What may come of a deletion, if the database has the write tokens' getter `get` and the deletion
  -- `del`.
  abbrev pub DelOutcome :
      GetToken D → DelToken D → Bytes → Bytes → Bytes → D → Option (Status × D) → Type 0
  DelOutcome get del block user owner d r =
      let test = get d block owner in
      ((test.0 ≡ hm_success) × (r ≡ some (del test.3 block user owner)))
      ⊎ ((test.0 ≢ hm_success) × (r ≡ some (hm_fail, test.3)))

  del_token-outcome :
      (get : GetToken D) (del : DelToken D) (block user owner : Option Bytes) (d : D)
      → (is_given block && is_given user && is_given owner) ≡ true
      → DelOutcome get del
          (contents block)
          (contents user)
          (contents owner)
          d
          (del_token true true (some get) (some del) block user owner d)
  unfolding del_token
  del_token-outcome get del block user owner d h =
      let test = get d (contents block) (contents owner) in
      elim (Bool-cases (test.0 == hm_success)) [
        | inl s ↦ inl ((beq_iff test.0 hm_success).0 s, rw (h, s) refl)
        | inr s ↦ inr ((λ p. ground (arith, p, s)), rw (h, s) refl)
      ]

  del_token_defined :
      (user_data checked : Bool) (get : GetToken D) (del : Option (DelToken D))
      (block user owner : Option Bytes) (d : D)
      → del_token user_data checked (some get) del block user owner d ≢ none
  unfolding del_token
  del_token_defined user_data checked get none block user owner d = ground arith
  del_token_defined user_data checked get (some del) block user owner d = ground arith

module _ {D : Type 0} (db : Db D) (ready : db.user_data ≡ true) where
  -- With `user_data`, a getter and a setter of read tokens and all arguments given, `set_rtoken` runs the setter if
  -- the user is the owner, or if the getter finds a token of the owner (it then runs on the database
  -- that the getter leaves); otherwise it answers HM_FAIL and no setter runs.
  pub set_rtoken-access :
      (get : GetToken D) (set : SetToken D) (block user owner token : Option Bytes) (d : D)
      → db.get_rtoken ≡ some get
      → db.set_rtoken ≡ some set
      → (is_given block && is_given user && is_given owner && is_given token) ≡ true
      → SetOutcome get set
          (contents block)
          (contents user)
          (contents owner)
          (contents token)
          d
          (set_rtoken db block user owner token d)
  unfolding set_rtoken
  set_rtoken-access get set block user owner token d g s h =
      rw (ready, g, s) (set_token-outcome get set block user owner token d h)

  -- With `user_data`, a getter and a setter of write tokens and all arguments given, `set_wtoken` runs
  -- the setter if the user is the owner, or if the getter finds a token of the owner (it then runs on
  -- the database that the getter leaves); otherwise it answers HM_FAIL and no setter runs.
  pub set_wtoken-access :
      (get : GetToken D) (set : SetToken D) (block user owner token : Option Bytes) (d : D)
      → db.get_wtoken ≡ some get
      → db.set_wtoken ≡ some set
      → (is_given block && is_given user && is_given owner && is_given token) ≡ true
      → SetOutcome get set
          (contents block)
          (contents user)
          (contents owner)
          (contents token)
          d
          (set_wtoken db block user owner token d)
  unfolding set_wtoken
  set_wtoken-access get set block user owner token d g s h =
      rw (ready, g, s) (set_token-outcome get set block user owner token d h)

  -- With `user_data`, a deletion of read tokens, both getters and all arguments given, `del_rtoken` runs the
  -- deletion if the owner has a write token, and answers HM_FAIL without running it otherwise.
  pub del_rtoken-access :
      (get_r get : GetToken D) (del : DelToken D) (block user owner : Option Bytes) (d : D)
      → db.get_rtoken ≡ some get_r
      → db.get_wtoken ≡ some get
      → db.del_rtoken ≡ some del
      → (is_given block && is_given user && is_given owner) ≡ true
      → DelOutcome get del
          (contents block)
          (contents user)
          (contents owner)
          d
          (del_rtoken db block user owner d)
  unfolding del_rtoken
  del_rtoken-access get_r get del block user owner d r g s h =
      rw (ready, r, g, s) (del_token-outcome get del block user owner d h)

  -- With `user_data`, a deletion of write tokens, the write tokens' getter and all arguments given,
  -- `del_wtoken` runs the deletion if the owner has a write token, and answers HM_FAIL without running
  -- it otherwise.
  pub del_wtoken-access :
      (get : GetToken D) (del : DelToken D) (block user owner : Option Bytes) (d : D)
      → db.get_wtoken ≡ some get
      → db.del_wtoken ≡ some del
      → (is_given block && is_given user && is_given owner) ≡ true
      → DelOutcome get del
          (contents block)
          (contents user)
          (contents owner)
          d
          (del_wtoken db block user owner d)
  unfolding del_wtoken
  del_wtoken-access get del block user owner d g s h =
      rw (ready, g, s) (del_token-outcome get del block user owner d h)

module _ {D : Type 0} (db : Db D) where
  has_getter : check_backend db ≡ 1 → (get : GetToken D) × (db.get_wtoken ≡ some get)
  unfolding check_backend
  has_getter full = elim (Option-cases db.get_wtoken) [
    | inr h ↦ h
    | inl e ↦ absurd (ground (arith, e, full))
  ]

  has_rights :
      check_backend db ≡ 1 → (get : GetIndexedRights D) × (db.get_indexed_rights ≡ some get)
  unfolding check_backend
  has_rights full = elim (Option-cases db.get_indexed_rights) [
    | inr h ↦ h
    | inl e ↦ absurd (ground (arith, e, full))
  ]

  -- On a database that `check_backend` accepts, the two deletions and `get_indexed_rights`, whose guards
  -- test other functions than those they call, never call through NULL, whatever the arguments.
  pub checked-defined :
      check_backend db ≡ 1
      → (block user owner : Option Bytes) (index : ℕ) (d : D)
      → (del_rtoken db block user owner d ≢ none)
        × (del_wtoken db block user owner d ≢ none)
        × (get_indexed_rights db block index d ≢ none)
  unfolding del_rtoken del_wtoken get_indexed_rights
  checked-defined full block user owner index d =
      let (get, g) = has_getter full in
      let (rights, r) = has_rights full in
      (
        rw g (
            del_token_defined db.user_data (is_there db.get_rtoken) get db.del_rtoken block user
              owner d),
        rw g (del_token_defined db.user_data true get db.del_wtoken block user owner d),
        rw r (ground arith),
      )
