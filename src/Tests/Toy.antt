-- ===== src/Tests/Toy.antt =====
-- A library and three stores that keep what Themis and the stores promise: a sealed or wrapped message
-- is the message behind a byte, and the stores are their own views.
use hermes_core.Prelude.{
  ℕ, ◌*◌, ◌≡◌, refl, ap, false, Option, none, some, [], ◌∷◌, ◌++◌, is_empty, arith,
}
use hermes_core.Common.Bytes.{Bytes, contents}
use hermes_core.Common.Status.{Status, hm_success, hm_fail}
use hermes_core.MidHermes.Access.{Services, Promises, Account, IsMember}
use hermes_core.MidHermesLl.Block.Rights.Safety.{IteratorEnds}
use hermes_core.MidHermesLl.Stores.{World, KeyStoreOps, DataStoreOps, CredentialStoreOps}
use hermes_core.MidHermesLl.Stores.Laws.{Tokens, token_at, Blocks, block_at}
use hermes_core.MidHermesLl.Utils.{Themis}
use hermes_core.MidHermesLl.Utils.Laws.{ThemisLaws, NoneDamaged}

abbrev pub behind : Bytes → Option Bytes
behind [] = none
behind (b ∷ bs) = some bs

abbrev size_behind : Bytes → Option ℕ
size_behind [] = none
size_behind (b ∷ bs) = some 1

abbrev pub themis : Themis (Unit {0}) Bytes
themis = record {
  rand = λ n r. (some (7 ∷ 7 ∷ []), r);
  encrypt_seal_size = λ key context m. some 1;
  encrypt_seal = λ key context m n r. (some (1 ∷ m), r);
  decrypt_seal_size = λ key context c. some 1;
  decrypt_seal = λ key context c n. behind c;
  wrap_size = λ sk pk m. some 1;
  wrap = λ sk pk m n r. (some (2 ∷ m), r);
  unwrap_size = λ sk pk c. size_behind c;
  unwrap = λ sk pk c n. behind c;
  hmac_create = λ key. some key;
  hmac_update = λ h bs. some (h ++ contents bs);
  hmac_size = λ h. some 1;
  hmac_final = λ h n. some h;
}

-- A private key is its public key.
abbrev pub Pair : Bytes → Bytes → Type 0
Pair sk pk = sk ≡ pk

pub filled :
    {c d : Bytes} {r r' : Unit {0}}
    → ◌≡◌ {A = Option Bytes × Unit {0}} (some c, r) (some d, r')
    → d ≡ c
filled h = ground (arith, ap (λ p. p.0) h)

abbrev pub themis_laws : ThemisLaws themis Pair
themis_laws = record {
  sealed_nonempty = λ key context m c n r r' h. rw (filled h) refl;
  sealed_size = λ key context m c n r r' h. (1, refl, rw (filled h) refl);
  wrapped_nonempty = λ sk pk m c n r r' h. rw (filled h) refl;
  wrapped_size = λ sk pk sk' pk' m c n r r' e e' h. (1, rw (filled h) refl, rw (filled h) refl);
}

pub opened_behind : (c : Bytes) (n : ℕ) → size_behind c ≡ some n → (m : Bytes) × (behind c ≡ some m)
opened_behind [] n h = absurd (ground (arith, h))
opened_behind (b ∷ bs) n h = (bs, refl)

abbrev pub themis_whole : NoneDamaged themis
themis_whole = record { unwraps = λ sk pk c n h. opened_behind c n h }

-- The read and the write tokens.
abbrev pub Keys : Type 0
Keys = Tokens × Tokens

abbrev found_token : Option (Bytes × Bytes) → Keys → (Status × Bytes × Bytes) × Keys
found_token none k = ((hm_fail, [], []), k)
found_token (some (token, owner)) k = ((hm_success, token, owner), k)

abbrev entry : Option Bytes → Option Bytes → Option (Bytes × Bytes)
entry none owner = none
entry (some token) owner = some (token, contents owner)

abbrev pub key_store : KeyStoreOps Keys (Unit {0})
key_store = record {
  get_rtoken = λ u b k. found_token (k.0 (contents b) (contents u)) k;
  get_wtoken = λ u b k. found_token (k.1 (contents b) (contents u)) k;
  set_rtoken = λ u b t o k. (hm_success, (token_at k.0 (contents b) (contents u) (entry t o), k.1));
  set_wtoken = λ u b t o k. (hm_success, (k.0, token_at k.1 (contents b) (contents u) (entry t o)));
  iterator_create = λ b k. (some tt, k);
  iterator_next = λ i k. ((hm_fail, i), k);
  iterator_get_user_id = λ i. some (2 ∷ []);
}

-- The iterator has no step to make.
pub key_store-IteratorEnds : IteratorEnds key_store (λ i. 0) 1
key_store-IteratorEnds = record {
  starts = λ b k. (tt, refl, omega arith);
  steps = λ i k h. absurd (ground (arith, h));
}

-- The blocks; a block without an id gets one.
abbrev pub Data : Type 0
Data = Blocks

abbrev id_given : Option Bytes → Option Bytes
id_given none = some (9 ∷ [])
id_given (some []) = none
id_given (some (b ∷ bs)) = some (b ∷ bs)

abbrev set_at : Option Bytes → Bytes × Bytes × Bytes → Blocks → (Status × Option Bytes) × Blocks
set_at none e d = ((hm_fail, none), d)
set_at (some i) e d = ((hm_success, some i), block_at d i (some e))

abbrev found_block : Option (Bytes × Bytes × Bytes) → Blocks → (Status × Bytes × Bytes) × Blocks
found_block none d = ((hm_fail, [], []), d)
found_block (some (block, meta, mac)) d = ((hm_success, block, meta), d)

abbrev pub data_store : DataStoreOps Data
data_store = record {
  set_block = λ id b m mac old d. set_at (id_given id) (contents b, contents m, contents mac) d;
  get_block = λ id d. found_block (d (contents id)) d;
  rem_block = λ id mac d. (hm_success, block_at d (contents id) none);
}

abbrev pub Credentials : Type 0
Credentials = Bytes → Option Bytes

abbrev found_key : Option Bytes → Credentials → (Status × Bytes) × Credentials
found_key none c = ((hm_fail, []), c)
found_key (some key) c = ((hm_success, key), c)

abbrev pub credential_store : CredentialStoreOps Credentials
credential_store = record { get_public_key = λ u c. found_key (c (contents u)) c }

abbrev pub services : Services (Unit {0}) Bytes Keys (Unit {0}) Data Credentials
services = record { th = themis; ks = key_store; ds = data_store; cs = credential_store }

pub set_left :
    {k k' : Keys} {st : Status} → ◌≡◌ {A = Status × Keys} (st, k') (hm_success, k) → k ≡ k'
set_left h = cc (ap (λ p. p.1) h)

pub stored_block :
    (d d' : Data) (o id' : Option Bytes) (e : Bytes × Bytes × Bytes) (id : Option Bytes)
    → o ≡ id_given id
    → set_at o e d ≡ ((hm_success, id'), d')
    → (i : Bytes) × (id' ≡ some i)
      × (is_empty i ≡ false)
      × (d' ≡ block_at d i (some e))
      × ((j : Bytes) → id ≡ some j → i ≡ j)
stored_block d d' none id' e id f h = absurd (ground (arith, ap (λ p. p.0.0) h))
stored_block d d' (some i) id' e none f h = (
  i,
  ground (arith, ap (λ p. p.0.1) h),
  ground (arith, f),
  cc (ap (λ p. p.1) h),
  λ j g. absurd (ground (arith, g)),
)
stored_block d d' (some i) id' e (some []) f h = absurd (ground (arith, f))
stored_block d d' (some i) id' e (some (b ∷ bs)) f h = (
  i,
  ground (arith, ap (λ p. p.0.1) h),
  ground (arith, f),
  cc (ap (λ p. p.1) h),
  λ j g. ground (arith, f, g),
)

abbrev pub promises : Promises services
promises = record {
  Pair = Pair;
  reads = λ k. k.0;
  writes = λ k. k.1;
  blocks = λ d. d;
  keys = λ c. c;
  themis_laws = themis_laws;
  key_laws = record {
    finds_rtoken = record {
      found = λ k b u t o e. (k, rw e refl, refl, refl);
      missing = λ k b u e. (hm_fail, [], [], k, rw e refl, refl, refl, refl);
    };
    finds_wtoken = record {
      found = λ k b u t o e. (k, rw e refl, refl, refl);
      missing = λ k b u e. (hm_fail, [], [], k, rw e refl, refl, refl, refl);
    };
    sets_rtoken = record {
      stored = λ k k' b u t o full h. (ap (λ x. x.0) (set_left h), ap (λ x. x.1) (set_left h));
      deleted = λ k k' b u o h. (ap (λ x. x.0) (set_left h), ap (λ x. x.1) (set_left h));
    };
    sets_wtoken = record {
      stored = λ k k' b u t o full h. (ap (λ x. x.1) (set_left h), ap (λ x. x.0) (set_left h));
      deleted = λ k k' b u o h. (ap (λ x. x.1) (set_left h), ap (λ x. x.0) (set_left h));
    };
  };
  data_laws = record {
    found = λ d id b m mac e. (d, rw e refl, refl);
    stored = λ d d' id old id' b m mac h. stored_block d d' (id_given id) id' (b, m, mac) id refl h;
  };
  credential_laws = record {
    found = λ c u key e. (c, rw e refl, refl);
    missing = λ c u e. (hm_fail, [], c, rw e refl, refl, refl);
  };
}

-- Two users, who are registered, and a store in which nothing is.
abbrev pub alice : Account
alice = record { id = 1 ∷ []; sk = 10 ∷ []; pk = 10 ∷ [] }

abbrev pub bob : Account
bob = record { id = 2 ∷ []; sk = 20 ∷ []; pk = 20 ∷ [] }

abbrev pub registered : Credentials
registered (u ∷ []) = some (10 * u ∷ [])
registered _ = none

abbrev pub empty_world : World (Unit {0}) Keys Data Credentials
empty_world = record { rng = tt; ks = (λ b u. none, λ b u. none); ds = λ b. none; cs = registered }

abbrev pub alice-IsMember : IsMember promises registered alice
alice-IsMember = record {
  id_full = refl;
  sk_full = refl;
  pk_full = refl;
  paired = refl;
  known = refl;
}

abbrev pub bob-IsMember : IsMember promises registered bob
bob-IsMember = record {
  id_full = refl;
  sk_full = refl;
  pk_full = refl;
  paired = refl;
  known = refl;
}
