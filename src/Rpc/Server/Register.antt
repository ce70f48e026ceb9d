-- ===== src/Rpc/Server/Register.antt =====
-- The registration of several functions with a server of src/rpc/server.c.
use Prim.Native.Nat.{Ordering}
use hermes_core.Prelude.{
  length, not, ◌||◌, Bool-cases, beq_iff, beq_refl, ◌≡◌, ◌≢◌, ◌∙◌, sym, refl, Bool, true, false,
  ◌&&◌, none, some, List, [], ◌∷◌, All, arith, ltb, inl, inr, ◌==◌, and_true,
}
use hermes_core.Common.Bytes.{Bytes}
use hermes_core.Common.HashTable
use hermes_core.Common.HashTable.{Table, hash}
use hermes_core.Common.HashTable.Laws.{
  view, IsTable, IsComparable, create-IsComparable, create-view, set-cases, is_given_text,
}
use hermes_core.Common.Memory.{IsText, order, order_refl}
use hermes_core.Common.Status.{hm_success}
use hermes_core.Rpc.Server.{Func, func_size, reg_func, reg_funcs}

-- Tests that decide for literals that they are C strings and that no two are the same.
abbrev pub is_text : Bytes → Bool
is_text [] = false
is_text (x ∷ []) = x == 0
is_text (x ∷ y ∷ r) = ltb 0 x && is_text (y ∷ r)

abbrev differs : Bytes → Bytes → Bool
differs a b = elim (order a b) [ Ordering.eq ↦ false | _ ↦ true ]

-- Names of which one may be compared with the other: they have one length or different hashes.
abbrev are_comparable : Bytes → Bytes → Bool
are_comparable a b = (length a == length b) || not (hash a == hash b)

abbrev is_new : {A : Type 0} → Bytes → List (Bytes × A) → Bool
is_new name [] = true
is_new name (e ∷ es) = differs name e.0 && (are_comparable name e.0 && is_new name es)

abbrev pub are_names : {A : Type 0} → List (Bytes × A) → Bool
are_names [] = true
are_names (e ∷ es) = is_text e.0 && (is_new e.0 es && are_names es)

pub is_text-IsText : (s : Bytes) → is_text s ≡ true → IsText s
is_text-IsText [] h = ground arith
is_text-IsText (x ∷ []) h = ground arith
is_text-IsText (x ∷ y ∷ r) h =
    let (a, b) = and_true (ltb 0 x) (is_text (y ∷ r)) h in (ground arith, is_text-IsText (y ∷ r) b)

differs_ne : (a b : Bytes) → differs a b ≡ true → b ≢ a
differs_ne a b h e = ground (arith, order_refl a)

is_new-All :
    {A : Type 0} (name : Bytes) (es : List (Bytes × A))
    → is_new name es ≡ true
    → All (λ e. e.0 ≢ name) es
is_new-All name [] h = tt
is_new-All name (e ∷ es) h =
    let (a, b) = and_true (differs name e.0) (are_comparable name e.0 && is_new name es) h in
    let (c, d) = and_true (are_comparable name e.0) (is_new name es) b in
    (differs_ne name e.0 a, is_new-All name es d)

FitsName : Bytes → Bytes → Type 0
FitsName name other = hash other ≡ hash name → length name ≡ length other

are_comparable_name : (name other : Bytes) → are_comparable name other ≡ true → FitsName name other
unfolding FitsName
are_comparable_name name other h e = elim (Bool-cases (length name == length other)) [
  | inl same ↦ (beq_iff (length name) (length other)).0 same
  | inr other_length ↦ absurd (ground (arith, other_length, h, sym e, beq_refl (hash name), e))
]

is_new-IsComparable :
    {A : Type 0} (name : Bytes) (es : List (Bytes × A))
    → is_new name es ≡ true
    → All (λ e. FitsName name e.0) es
is_new-IsComparable name [] h = tt
is_new-IsComparable name (e ∷ es) h =
    let (a, b) = and_true (differs name e.0) (are_comparable name e.0 && is_new name es) h in
    let (c, d) = and_true (are_comparable name e.0) (is_new name es) b in
    (are_comparable_name name e.0 c, is_new-IsComparable name es d)

module _ {D : Type 0} where
  reg_func-set :
      (table : Table (Func D)) (name : Bytes) (f : Func D)
      → IsText name
      → reg_func table (some name) (some f) ≡ HashTable.set table (some name) (some f) func_size
  unfolding reg_func
  reg_func-set table name f text = rw (is_given_text name text) refl

  abbrev Absent : Table (Func D) → List (Bytes × Func D) → Type 0
  Absent table es = All (λ e. view table e.0 ≡ none) es

  -- Every function is registered under its name.
  abbrev pub Registered : Table (Func D) → List (Bytes × Func D) → Type 0
  Registered table es = All (λ e. view table e.0 ≡ some e.1) es

  Absent-kept :
      (t t' : Table (Func D)) (name : Bytes) (es : List (Bytes × Func D))
      → ((j : Bytes) → j ≢ name → view t' j ≡ view t j)
      → All (λ e. e.0 ≢ name) es
      → Absent t es
      → Absent t' es
  Absent-kept t t' name [] kept ne h = tt
  Absent-kept t t' name (e ∷ es) kept ne h =
      (kept e.0 ne.0 ∙ h.0, Absent-kept t t' name es kept ne.1 h.1)

  Comparable : Table (Func D) → List (Bytes × Func D) → Type 0
  Comparable table es = All (λ e. IsComparable table e.0) es

  Comparable-kept :
      (t t' : Table (Func D)) (name : Bytes) (es : List (Bytes × Func D))
      → ((j : Bytes)
          → (hash j ≡ hash name → length name ≡ length j)
          → IsComparable t j
          → IsComparable t' j)
      → All (λ e. FitsName name e.0) es
      → Comparable t es
      → Comparable t' es
  unfolding Comparable FitsName
  Comparable-kept t t' name [] kept same h = tt
  Comparable-kept t t' name (e ∷ es) kept same h =
      (kept e.0 same.0 h.0, Comparable-kept t t' name es kept same.1 h.1)

  reg_funcs-step :
      (name : Bytes) (f : Func D) (es : List (Bytes × Func D)) (t t' : Table (Func D))
      → reg_func t (some name) (some f) ≡ some (hm_success, t')
      → reg_funcs ((name, f) ∷ es) t ≡ reg_funcs es t'
  unfolding reg_funcs
  reg_funcs-step name f es t t' h = rw (h, reg_funcs) refl

  -- Registering functions under distinct C strings that are not yet names of the table succeeds, where
  -- those with the same hash, the table's among them, have one length: the table then has each function under its own name, and what it had under any other name.
  pub reg_funcs-view :
      (es : List (Bytes × Func D)) (t : Table (Func D))
      → IsTable t
      → are_names es ≡ true
      → All (λ e. view t e.0 ≡ none) es
      → All (λ e. IsComparable t e.0) es
      → (t' : Table (Func D)) × (reg_funcs es t ≡ some (some t'))
        × IsTable t'
        × Registered t' es
        × ((j : Bytes) → All (λ e. e.0 ≢ j) es → view t' j ≡ view t j)
  unfolding reg_funcs Comparable
  reg_funcs-view [] t valid names absent fit = (t, refl, valid, tt, λ j h. refl)
  reg_funcs-view ((name, f) ∷ es) t valid names absent fit =
      let (text, names') = and_true (is_text name) (is_new name es && are_names es) names in
      let (new, rest) = and_true (is_new name es) (are_names es) names' in
      let is_name = is_text-IsText name text in
      let others = is_new-All name es new in
      let near = is_new-IsComparable name es new in
      elim (set-cases t name f func_size valid is_name fit.0 (omega arith)) [
        | inl (old, there, run) ↦ absurd (ground (arith, there, absent.0))
        | inr (t1, gone, run, valid1, here, kept, fits) ↦
            let (t2, runs, valid2, known, kept2) =
              reg_funcs-view es t1 valid1 rest (Absent-kept t t1 name es kept others absent.1)
                (Comparable-kept t t1 name es fits near fit.1) in
            (
              t2,
              reg_funcs-step name f es t t1 (reg_func-set t name f is_name ∙ run) ∙ runs,
              valid2,
              (kept2 name others ∙ here, known),
              λ j h. kept2 j h.1 ∙ kept j (λ e. h.0 (sym e)),
            )
      ]

  Absent-create : (es : List (Bytes × Func D)) → Absent HashTable.create es
  Absent-create [] = tt
  Absent-create (e ∷ es) = ((create-view e.0).1, Absent-create es)

  Comparable-create : (es : List (Bytes × Func D)) → Comparable HashTable.create es
  unfolding Comparable
  Comparable-create [] = tt
  Comparable-create (e ∷ es) = (create-IsComparable (Func D) e.0, Comparable-create es)

  -- Registering functions with a new server succeeds, under distinct C strings of which those with the
  -- same hash have one length.
  pub reg_funcs-create :
      (es : List (Bytes × Func D))
      → are_names es ≡ true
      → (t : Table (Func D)) × (reg_funcs es HashTable.create ≡ some (some t))
        × IsTable t
        × Registered t es
  reg_funcs-create es names =
      let (t, runs, valid, known, rest) =
        reg_funcs-view es HashTable.create (create-view []).0 names (Absent-create es)
          (unfold Comparable in Comparable-create es) in
      (t, runs, valid, known)
