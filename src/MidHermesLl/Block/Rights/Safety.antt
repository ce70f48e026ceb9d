-- ===== src/MidHermesLl/Block/Rights/Safety.antt =====
-- That gathering and rotating the rights of a block (src/mid_hermes_ll/mid_hermes_ll_block.c) ends where
-- the iterator of the key store does.
use hermes_core.Prelude.{
  ℕ, zero, suc, ◌<◌, ◌≡◌, refl, true, false, Option, none, some, List, [], ◌∷◌, ◌==◌, beq_iff,
  arith,
}
use hermes_core.Common.Status.{hm_success}
use hermes_core.MidHermesLl.Block.{Block}
use hermes_core.MidHermesLl.Block.Rights.{
  RightsNode, pushed, is_user, rights_node, gathered, block_access_rights, copied_wtoken,
  rotated_rights, block_rotate,
}
use hermes_core.MidHermesLl.Block.Safety.{IsLoaded, IsUpdated, sealed-Gives, mac_of-Gives}
use hermes_core.MidHermesLl.Run.Safe.{
  Gives, IfThere, no_value, a_value, anything, followed_as-Gives, bind-Gives, tested-Gives,
  followed-Gives, pure-Gives, or_null-Gives, guard-Gives, on_keys_always-Gives, branch-Gives,
}
use hermes_core.MidHermesLl.Stores.{World, KeyStoreOps, CredentialStoreOps}
use hermes_core.MidHermesLl.Token.{Token, rtoken_load_c, wtoken_load_c}
use hermes_core.MidHermesLl.Token.Safety.{
  HasOwner, IsUsable, token_load_c-Gives, token_generate-Gives, token_get_data-Gives,
  token_get_token_for_user-Gives,
}
use hermes_core.MidHermesLl.User.{User, Buffer, user_copy}
use hermes_core.MidHermesLl.User.Laws.{user_copy-IsLocal, user_load_c-Gives}
use hermes_core.MidHermesLl.Utils.{Themis}
use hermes_core.MidHermesLl.Utils.Laws.{NoneDamaged}

-- The tokens of a node have owners.
pub record HasOwners (node : RightsNode) : Type 0 where
  pub rtoken_owned : HasOwner node.rtoken
  pub wtoken_owned : IfThere HasOwner node.wtoken

pub data EachOwned : List RightsNode → Type 0 where
  no_rights : EachOwned []
  one_more :
      (node : RightsNode) (rights : List RightsNode)
      → HasOwners node
      → EachOwned rights
      → EachOwned (node ∷ rights)

pushed-EachOwned :
    (o : Option RightsNode) (rights : List RightsNode)
    → IfThere HasOwners o
    → EachOwned rights
    → EachOwned (pushed o rights)
pushed-EachOwned none rights h r = r
pushed-EachOwned (some node) [] (a_value _ h) r = one_more node [] h no_rights
pushed-EachOwned (some node) (first ∷ rights) (a_value _ h) (one_more _ _ g r) =
    one_more first _ g (pushed-EachOwned (some node) rights (a_value node h) r)

-- An iterator that ends: `left` bounds the steps from where it stands, and each step takes one.
pub record IteratorEnds {K I : Type 0} (ks : KeyStoreOps K I) (left : I → ℕ) (fuel : ℕ)
    : Type 0 where
  pub starts :
      (block_id : Buffer) (k : K)
      → (i : I) × ((ks.iterator_create block_id k).0 ≡ some i) × (left i < fuel)
  pub steps :
      (i : I) (k : K)
      → (ks.iterator_next i k).0.0 ≡ hm_success
      → left (ks.iterator_next i k).0.1 < left i

module _ {R K I D C : Type 0} (ks : KeyStoreOps K I) (cs : Option (CredentialStoreOps C)) where
  rights_node-Gives :
      (block_id : Buffer) (own : User) (i : I)
      → Gives {W = World R K D C} (IfThere HasOwners) (rights_node ks cs block_id own i)
  unfolding rights_node rtoken_load_c wtoken_load_c
  rights_node-Gives block_id own i =
      bind-Gives (or_null-Gives (user_load_c-Gives cs (ks.iterator_get_user_id i))) λ user _.
        branch-Gives (is_user user own) _ _ (λ _. pure-Gives _ no_value)
          λ _. bind-Gives (or_null-Gives (token_load_c-Gives (some ks) cs _ block_id false)) λ r hr.
            bind-Gives (or_null-Gives (token_load_c-Gives (some ks) cs _ block_id true)) λ w hw.
              bind-Gives (tested-Gives (anything user)) λ u _.
                bind-Gives (tested-Gives hr)
                  λ t ht. pure-Gives _ (a_value _ (record { rtoken_owned = ht; wtoken_owned = hw }))

  module _ (left : I → ℕ) (limit : ℕ) (e : IteratorEnds ks left limit) where
    gathered-Gives :
        (fuel : ℕ) (block_id : Buffer) (own : User) (i : I) (rights : List RightsNode)
        → left i < fuel
        → EachOwned rights
        → Gives {W = World R K D C} EachOwned (gathered ks cs block_id fuel own i rights)
    unfolding gathered
    gathered-Gives zero block_id own i rights h r = absurd (omega (arith, h))
    gathered-Gives (suc fuel) block_id own i rights h r =
        bind-Gives (rights_node-Gives block_id own i) λ node owned.
          bind-Gives {P = λ step. step.0 ≡ hm_success → left step.1 < left i}
            (on_keys_always-Gives (ks.iterator_next i) (e.steps i))
            λ step less.
              branch-Gives (step.0 == hm_success) _ _
                (λ ok.
                  gathered-Gives fuel block_id own step.1 (pushed node rights)
                    (omega (arith, h, less ((beq_iff step.0 hm_success).0 ok)))
                    (pushed-EachOwned node rights owned r))
                λ _. pure-Gives _ (pushed-EachOwned node rights owned r)

-- Gathering the rights ends with them, or with NULL, on the fuel that the iterator needs.
pub block_access_rights-Gives :
    {R K I D C : Type 0} (ks : KeyStoreOps K I) (cs : Option (CredentialStoreOps C)) (left : I → ℕ)
    (fuel : ℕ)
    → IteratorEnds ks left fuel
    → (bl : Block) → Gives {W = World R K D C} EachOwned (block_access_rights fuel bl (some ks) cs)
unfolding block_access_rights
block_access_rights-Gives ks cs left fuel e bl = bind-Gives (tested-Gives (anything bl.id)) λ id _.
    bind-Gives (guard-Gives _) λ _ _.
      bind-Gives {P = λ s. IteratorEnds s left fuel} (tested-Gives (a_value ks e)) λ s ends.
        bind-Gives {P = λ o. (i : _) × (o ≡ some i) × (left i < fuel)}
          (on_keys_always-Gives (s.iterator_create id) (ends.starts id))
          λ o made.
            bind-Gives {P = λ i. left i < fuel} (followed_as-Gives made.0 (made.1, made.2))
              λ i h. gathered-Gives s cs left fuel ends fuel id bl.user i [] h no_rights

module _ {R H K D C : Type 0} (th : Themis R H) (whole : NoneDamaged th) where
  copied_wtoken-Gives :
      (new_wtoken : Token) (user : User) (o : Option Token)
      → IsUsable new_wtoken
      → Gives {W = World R K D C} (IfThere HasOwner) (copied_wtoken th new_wtoken user o)
  copied_wtoken-Gives new_wtoken user none h = pure-Gives _ no_value
  copied_wtoken-Gives new_wtoken user (some old) h =
      or_null-Gives (token_get_token_for_user-Gives th whole new_wtoken (user_copy user) h)

  rotated_rights-Gives :
      (new_rtoken new_wtoken : Token) (rights : List RightsNode)
      → IsUsable new_rtoken
      → IsUsable new_wtoken
      → Gives {W = World R K D C} EachOwned (rotated_rights th new_rtoken new_wtoken rights)
  unfolding rotated_rights
  rotated_rights-Gives new_rtoken new_wtoken [] hr hw = pure-Gives _ no_rights
  rotated_rights-Gives new_rtoken new_wtoken (node ∷ rights) hr hw =
      bind-Gives
        (or_null-Gives
          (token_get_token_for_user-Gives th whole new_rtoken (user_copy node.user) hr))
        λ nrt r. bind-Gives (copied_wtoken-Gives new_wtoken node.user node.wtoken hw) λ nwt w.
          bind-Gives (tested-Gives r) λ rtoken r'.
            bind-Gives (rotated_rights-Gives new_rtoken new_wtoken rights hr hw) λ rest owned.
              pure-Gives _ (one_more _ rest (record { rtoken_owned = r'; wtoken_owned = w }) owned)

  -- What rotating a block that was loaded gives can be saved.
  pub block_rotate-Gives :
      (bl : Block) (rights : List RightsNode)
      → IsLoaded bl
      → Gives {W = World R K D C}
          (λ r. IsUpdated r.0 × EachOwned r.1)
          (block_rotate th bl (some rights))
  unfolding block_rotate
  block_rotate-Gives bl rights h = bind-Gives (tested-Gives (anything (some rights))) λ nodes _.
      bind-Gives (guard-Gives _) λ _ _.
        bind-Gives
          (or_null-Gives
            (token_generate-Gives th whole _ (user_copy-IsLocal bl.user h.sound.local)))
          λ r hr.
            bind-Gives
              (or_null-Gives
                (token_generate-Gives th whole _ (user_copy-IsLocal bl.user h.sound.local)))
              λ w hw. bind-Gives (or_null-Gives (token_get_data-Gives th whole r hr)) λ rk _.
                bind-Gives (or_null-Gives (token_get_data-Gives th whole w hw)) λ wk _.
                  bind-Gives (tested-Gives hr) λ new_rtoken hr'.
                    bind-Gives (tested-Gives hw) λ new_wtoken hw'.
                      bind-Gives (tested-Gives (anything rk)) λ rt _.
                        bind-Gives (tested-Gives (anything wk)) λ wt _.
                          bind-Gives (followed-Gives h.has_bytes) λ bytes _.
                            bind-Gives (followed-Gives h.has_meta) λ meta _.
                              bind-Gives (sealed-Gives th whole _ _ _) λ block _.
                                bind-Gives (mac_of-Gives th whole _ _ _) λ mac _.
                                  bind-Gives
                                    (rotated_rights-Gives new_rtoken new_wtoken nodes hr' hw')
                                    λ new_rights owned. pure-Gives _ (
                                      record {
                                        whole = record {
                                          sound = record {
                                            local = h.sound.local;
                                            readable = a_value _ hr';
                                            writable = a_value _ hw';
                                          };
                                          cipher = _;
                                          meta = h.meta;
                                          mac = _;
                                          has_block = refl;
                                          has_meta = h.has_meta;
                                          has_mac = refl;
                                        };
                                        id = h.id;
                                        has_id = h.has_id;
                                      },
                                      owned,
                                    )
