-- ===== src/MidHermesLl/Run.antt =====
-- How the functions of src/mid_hermes_ll end: with a result, with NULL (or, for the functions that
-- return a status, with a failure that the caller tells from success only), by a crash, which is a use
-- of a NULL pointer, an assertion that fails, or memory that is overwritten or freed twice, or not, where the fuel of a loop has run out. The state
-- comes back in each case, since what was written to a store stays written.
pub mod Safe
use hermes_core.Prelude.{
  ◌≡◌, refl, Bool, true, false, Option, none, some, arith, ap, ◌==◌, inl, inr, Bool-cases, beq_iff,
  Option-cases, sym, ◌∙◌,
}
use hermes_core.Common.Status.{Status, hm_success}

pub data Outcome (A : Type 0) : Type 0 where
  done : A → Outcome A
  null : Outcome A
  crash : Outcome A
  unfinished : Outcome A

abbrev pub Run : Type 0 → Type 0 → Type 0
Run W A = W → Outcome A × W

abbrev pub or_null_of : {A : Type 0} → Outcome A → Outcome (Option A)
or_null_of (done a) = done (some a)
or_null_of null = done none
or_null_of crash = crash
or_null_of unfinished = unfinished

abbrev pub succeeded_of : Bool → Outcome (Unit {0})
succeeded_of true = done tt
succeeded_of false = null

module _ {W : Type 0} where
  module _ {A : Type 0} where
    unfoldable pub pure : A → Run W A
    pure a w = (done a, w)

    unfoldable pub out_of_fuel : Run W A
    out_of_fuel w = (unfinished, w)

    -- A pointer that is tested, and one that is followed.
    unfoldable pub tested : Option A → Run W A
    tested none w = (null, w)
    tested (some a) w = (done a, w)

    unfoldable pub followed : Option A → Run W A
    followed none w = (crash, w)
    followed (some a) w = (done a, w)

    -- A call that does not touch the state.
    unfoldable pub lift : Outcome A → Run W A
    lift r w = (r, w)

    -- A call whose NULL is kept as a value.
    unfoldable pub or_null : Run W A → Run W (Option A)
    or_null m w = let (r, w') = m w in (or_null_of r, w')

  module _ {A B : Type 0} where
    abbrev pub continue : Outcome A → (A → Run W B) → Run W B
    continue (done a) f w = f a w
    continue null f w = (null, w)
    continue crash f w = (crash, w)
    continue unfinished f w = (unfinished, w)

    infixl 5 ◌>>=◌ ◌>>◌
    unfoldable pub ◌>>=◌ : Run W A → (A → Run W B) → Run W B
    ◌>>=◌ m f w = let (r, w') = m w in continue r f w'

    abbrev pub ◌>>◌ : Run W A → Run W B → Run W B
    m >> n = m >>= λ _. n

  -- `if (HM_SUCCESS != status) return NULL;`, and `if (!test) return NULL;`.
  unfoldable pub succeeded : Status → Run W (Unit {0})
  succeeded status w = (succeeded_of (status == hm_success), w)

  unfoldable pub guard : Bool → Run W (Unit {0})
  guard test w = (succeeded_of test, w)

module _ {W A B : Type 0} where
  continue-done :
      (r : Outcome A) (f : A → Run W B) (w : W) {b : B} {w' : W}
      → continue r f w ≡ (done b, w')
      → (a : A) × (r ≡ done a) × (f a w ≡ (done b, w'))
  continue-done (done a) f w h = (a, refl, h)
  continue-done null f w h = absurd (ground (arith, ap (λ p. p.0) h))
  continue-done crash f w h = absurd (ground (arith, ap (λ p. p.0) h))
  continue-done unfinished f w h = absurd (ground (arith, ap (λ p. p.0) h))

  -- A chain that ended with a result has gone through a result of its first part.
  pub bind-done :
      (m : Run W A) (f : A → Run W B) (w : W) {b : B} {w' : W}
      → (m >>= f) w ≡ (done b, w')
      → (a : A) × (w₁ : W) × (m w ≡ (done a, w₁)) × (f a w₁ ≡ (done b, w'))
  unfolding ◌>>=◌
  bind-done m f w h =
      let (a, e, g) = continue-done (m w).0 f (m w).1 h in (a, (m w).1, ap (λ r. (r, (m w).1)) e, g)

  -- Running a chain whose first part is known.
  pub bind_run :
      (m : Run W A) (f : A → Run W B) (w : W) {a : A} {w₁ : W}
      → m w ≡ (done a, w₁)
      → (m >>= f) w ≡ f a w₁
  unfolding ◌>>=◌
  bind_run m f w e = rw e refl

or_null_of-done : {A : Type 0} (r : Outcome A) {a : A} → or_null_of r ≡ done (some a) → r ≡ done a
or_null_of-done (done b) h = ground (arith, h)
or_null_of-done null h = absurd (ground (arith, h))
or_null_of-done crash h = absurd (ground (arith, h))
or_null_of-done unfinished h = absurd (ground (arith, h))

module _ {W A : Type 0} where
  pub or_null_done :
      (m : Run W A) (w : W) {a : A} {w₁ : W}
      → m w ≡ (done a, w₁)
      → or_null m w ≡ (done (some a), w₁)
  unfolding or_null
  or_null_done m w e = rw e refl

  pub or_null-done :
      (m : Run W A) (w : W) {a : A} {w₁ : W}
      → or_null m w ≡ (done (some a), w₁)
      → m w ≡ (done a, w₁)
  unfolding or_null
  or_null-done m w h =
      let e = or_null_of-done (m w).0 (ap (λ p. p.0) h) in ground (arith, e, ap (λ p. p.1) h)

-- What the tests of a chain that ended with a result have found.
module _ {W B : Type 0} {b : B} {w' : W} where
  pub tested-done :
      {A : Type 0} (o : Option A) (f : A → Run W B) (w : W)
      → (tested o >>= f) w ≡ (done b, w')
      → (a : A) × (o ≡ some a) × (f a w ≡ (done b, w'))
  unfolding tested ◌>>=◌
  tested-done none f w h = absurd (ground (arith, ap (λ p. p.0) h))
  tested-done (some a) f w h = (a, refl, h)

  pub succeeded-done :
      (status : Status) (m : Run W B) (w : W)
      → (succeeded status >> m) w ≡ (done b, w')
      → (status ≡ hm_success) × (m w ≡ (done b, w'))
  unfolding succeeded ◌>>=◌
  succeeded-done status m w h = elim (Bool-cases (status == hm_success)) [
    | inl e ↦ ((beq_iff status hm_success).0 e, rw e at h)
    | inr e ↦ absurd (ground (arith, e, ap (λ p. p.0) h))
  ]

  pub tested_here-done :
      {A : Type 0} (a : A) (f : A → Run W B) (w : W)
      → (tested (some a) >>= f) w ≡ (done b, w')
      → f a w ≡ (done b, w')
  unfolding tested ◌>>=◌
  tested_here-done a f w h = h

  pub followed_here-done :
      {A : Type 0} (a : A) (f : A → Run W B) (w : W)
      → (followed (some a) >>= f) w ≡ (done b, w')
      → f a w ≡ (done b, w')
  unfolding followed ◌>>=◌
  followed_here-done a f w h = h

  pub followed-done :
      {A : Type 0} (o : Option A) (f : A → Run W B) (w : W)
      → (followed o >>= f) w ≡ (done b, w')
      → (a : A) × (o ≡ some a) × (f a w ≡ (done b, w'))
  unfolding followed ◌>>=◌
  followed-done none f w h = absurd (ground (arith, ap (λ p. p.0) h))
  followed-done (some a) f w h = (a, refl, h)

  pub lift-done :
      {A : Type 0} (r : Outcome A) (f : A → Run W B) (w : W)
      → (lift r >>= f) w ≡ (done b, w')
      → (a : A) × (r ≡ done a) × (f a w ≡ (done b, w'))
  unfolding lift ◌>>=◌
  lift-done r f w h = continue-done r f w h

  pub guard-done :
      (test : Bool) (m : Run W B) (w : W)
      → (guard test >> m) w ≡ (done b, w')
      → (test ≡ true) × (m w ≡ (done b, w'))
  unfolding guard ◌>>=◌
  guard-done true m w h = (refl, h)
  guard-done false m w h = absurd (ground (arith, ap (λ p. p.0) h))

  pub pure-done :
      {A : Type 0} (a : A) (f : A → Run W B) (w : W)
      → (pure a >>= f) w ≡ (done b, w')
      → f a w ≡ (done b, w')
  unfolding pure ◌>>=◌
  pure-done a f w h = h

-- The last part of such a chain.
pub tested_last :
    {W A : Type 0} {a b : A} {w w' : W} → tested (some a) w ≡ (done b, w') → (b ≡ a) × (w' ≡ w)
unfolding tested
tested_last h = (cc (ap (λ p. p.0) h), cc (ap (λ p. p.1) h))

pub pure_last : {W A : Type 0} {a b : A} {w w' : W} → pure a w ≡ (done b, w') → (b ≡ a) × (w' ≡ w)
unfolding pure
pure_last h = (cc (ap (λ p. p.0) h), cc (ap (λ p. p.1) h))

pub succeeded_last :
    {W : Type 0} (status : Status) {w w' : W} {x : Unit {0}}
    → succeeded status w ≡ (done x, w')
    → (status ≡ hm_success) × (w' ≡ w)
unfolding succeeded
succeeded_last status h = elim (Bool-cases (status == hm_success)) [
  | inl e ↦ ((beq_iff status hm_success).0 e, cc (ap (λ p. p.1) h))
  | inr e ↦ absurd (ground (arith, e, ap (λ p. p.0) h))
]

-- A status that is reported for a body, with what goes with it, is HM_SUCCESS only if the body ended
-- with a result.
abbrev pub status_of : {A : Type 0} → Status → Option A → Status
status_of failure none = failure
status_of failure (some a) = hm_success

pub reported-success :
    {W A B : Type 0} (m : Run W A) (failure : Status) (result : Option A → B) (w : W) {b : B}
    {w' : W}
    → (failure == hm_success) ≡ false
    → ◌>>=◌ {B = Status × B} (or_null m) (λ o. pure (status_of failure o, result o)) w
      ≡ (done (hm_success, b), w')
    → (a : A) × (m w ≡ (done a, w')) × (b ≡ result (some a))
reported-success m failure result w {b} bad h =
    let (o, w₁, ran, h1) = bind-done _ _ _ h in
    let (same, state) = pure_last h1 in
    elim (Option-cases o) [
      | inl e ↦
          let ok : failure ≡ hm_success =
            sym (ap (λ x. x.0) same ∙ ap (λ o. status_of failure o) e) in
          absurd (ground (arith, bad, ok))
      | inr (a, e) ↦ (
        a,
        or_null-done m w (rw e at ran) ∙ ap (λ u. (done a, u)) (sym state),
        ap (λ x. x.1) same ∙ ap (λ o. result o) e,
      )
    ]

pub reported_status-success :
    {W A : Type 0} (m : Run W A) (failure : Status) (w : W) {w' : W}
    → (failure == hm_success) ≡ false
    → (or_null m >>= λ o. pure (status_of failure o)) w ≡ (done hm_success, w')
    → (a : A) × (m w ≡ (done a, w'))
reported_status-success m failure w bad h =
    let (o, w₁, ran, h1) = bind-done _ _ _ h in
    let (same, state) = pure_last h1 in
    elim (Option-cases o) [
      | inl e ↦
          let ok : failure ≡ hm_success = sym (same ∙ ap (λ o. status_of failure o) e) in
          absurd (ground (arith, bad, ok))
      | inr (a, e) ↦ (a, or_null-done m w (rw e at ran) ∙ ap (λ u. (done a, u)) (sym state))
    ]
