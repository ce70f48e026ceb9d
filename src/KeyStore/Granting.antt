-- ===== src/KeyStore/Granting.antt =====
-- Granting a token and reading it, through the proxies of src/key_store/functions.c.
use hermes_core.Prelude.{
  ◌<◌, ◌≡◌, ◌∙◌, sym, ap, refl, Bool, true, ◌&&◌, Option, some, [], ◌∷◌, arith, inl, inr,
}
use hermes_core.Common.Bytes.{Bytes, u32_mod, is_given, contents}
use hermes_core.Common.HashTable.{Table}
use hermes_core.Common.Status.{Status, hm_success, hm_fail}
use hermes_core.KeyStore.{Db, GetToken, SetToken, set_rtoken, get_rtoken, get_token}
use hermes_core.KeyStore.Access.{SetOutcome, set_rtoken-access}
use hermes_core.KeyStore.Names.{set_rtoken_name, get_rtoken_name}
use hermes_core.KeyStore.Proxies.{set_rtoken_proxy, get_rtoken_proxy}
use hermes_core.KeyStore.Remote.{set_rtoken-remote}
use hermes_core.KeyStore.RemoteGet.{seen, get_rtoken-remote}
use hermes_core.KeyStore.Stubs.{set_rtoken_stub, get_rtoken_stub}
use hermes_core.Rpc.Calling.Buffers.{weight}
use hermes_core.Rpc.Calling.Remote.{Knows}
use hermes_core.Rpc.Loopback.{client_end}
use hermes_core.Rpc.Loopback.Calls.{idle}
use hermes_core.Rpc.Server.{Func}

-- What a database of tokens does: a token that was set for a user is the one that the getter then
-- finds for that user, with its owner, and finding it changes nothing.
abbrev pub Keeps : {D : Type 0} → GetToken D → SetToken D → Type 0
Keeps {D} get set =
    (d d' : D) (block user owner token : Bytes)
    → set d block user owner token ≡ (hm_success, d')
    → get d' block user ≡ (hm_success, token, owner, d')

first_two : (a b c e : Bool) → (a && b && c && e) ≡ true → (a && b) ≡ true
first_two a b c e h = ground arith

module _ {D : Type 0} where
  -- A setting that succeeded has run the setter.
  setter_ran :
      (get : GetToken D) (set : SetToken D) (block user owner token : Bytes) (d d' : D)
      (r : Status × D)
      → SetOutcome get set block user owner token d r
      → r ≡ (hm_success, d')
      → (e : D) × (set e block user owner token ≡ (hm_success, d'))
  setter_ran get set block user owner token d d' r (inl (own, run)) done = (d, sym run ∙ done)
  setter_ran get set block user owner token d d' r (inr (inl (differ, has, run))) done =
      ((get d block owner).3, sym run ∙ done)
  setter_ran get set block user owner token d d' r (inr (inr (differ, lacks, run))) done =
      let same : hm_fail ≡ hm_success = ap (λ p. p.0) (sym run ∙ done) in absurd (omega arith)

  getter_runs :
      (db : Db D) (get : GetToken D) (block user : Option Bytes) (d : D)
      → db.user_data ≡ true
      → db.get_rtoken ≡ some get
      → (is_given block && is_given user) ≡ true
      → get_rtoken db block user d ≡ get d (contents block) (contents user)
  unfolding get_rtoken get_token
  getter_runs db get block user d ready g given = rw (ready, g, given) refl

  module _ {table : Table (Func D)} (db : Db D) (get : GetToken D) (set : SetToken D)
      (keeps : Keeps get set) (ready : db.user_data ≡ true) (g : db.get_rtoken ≡ some get)
      (s : db.set_rtoken ≡ some set) where
    -- A read token that was granted is the one that is read: if `set_rtoken_proxy`, over an idle
    -- connection, answers HM_SUCCESS for a block, a user, an owner and a token, then `get_rtoken_proxy`
    -- for that block and user, over the same connection, answers HM_SUCCESS with that token and that
    -- owner, and leaves the database as it is. The server has both stubs and a database that keeps
    -- tokens, all arguments are given, both messages are below 4 GiB, and statuses fit a uint32_t.
    pub set_rtoken-get_rtoken :
        Knows table set_rtoken_name (set_rtoken_stub db)
        → Knows table get_rtoken_name (get_rtoken_stub db)
        → (block user owner token : Option Bytes) (d d' : D)
        → (is_given block && is_given user && is_given owner && is_given token) ≡ true
        → weight (contents block ∷ contents user ∷ contents owner ∷ contents token ∷ []) < u32_mod
        → (set_rtoken db block user owner token d).0 < u32_mod
        → set_rtoken_proxy (client_end table) block user owner token (idle d)
          ≡ (hm_success, idle d')
        → get_rtoken_proxy (client_end table) block user (idle d')
          ≡ (hm_success, contents token, contents owner, idle d')
    set_rtoken-get_rtoken k l block user owner token d d' given small word granted =
        let r = set_rtoken db block user owner token d in
        let both = sym (set_rtoken-remote db k block user owner token d small word) ∙ granted in
        let status : r.0 ≡ hm_success = ap (λ p. p.0) both in
        let state : r.1 ≡ d' = ap (λ p. p.1.db) both in
        let direct : r ≡ (hm_success, d') = cc in
        let outcome = set_rtoken-access db ready get set block user owner token d g s given in
        let (e, ran) = setter_ran get set _ _ _ _ d d' r outcome direct in
        let found = keeps e d' _ _ _ _ ran in
        let some_two =
          first_two (is_given block) (is_given user) (is_given owner) (is_given token) given in
        let read = getter_runs db get block user d' ready g some_two ∙ found in
        get_rtoken-remote db l block user d' (omega arith) (rw read (omega arith))
          (rw read (omega arith))
        ∙ ap (λ p. seen p) read
