-- ===== src/MidHermesLl/Run/Safe.antt =====
-- Functions of src/mid_hermes_ll that do not crash, with what holds of their results: a function ends
-- with a result of which `P` holds, or with NULL.
use hermes_core.Prelude.{
  ◌≡◌, ◌⊎◌, inl, inr, refl, Bool, true, false, Option, none, some, if◌then◌else◌, ◌==◌,
}
use hermes_core.Common.Status.{Status, hm_success}
use hermes_core.MidHermesLl.Run.{
  Run, Outcome, done, null, or_null_of, continue, pure, tested, followed, or_null, guard, succeeded,
  succeeded_of, ◌>>=◌,
}
use hermes_core.MidHermesLl.Stores.{World, on_rng, on_keys, on_blocks, on_credentials}

pub data Safe {A : Type 0} (P : A → Type 0) : Outcome A → Type 0 where
  gave : (a : A) → P a → Safe P (done a)
  missed : Safe P null

-- `P` holds of every result of the function.
pub record Gives {W A : Type 0} (P : A → Type 0) (m : Run W A) : Type 0 where
  pub ends : (w : W) → Safe P (m w).0

abbrev pub Anything : {A : Type 0} → A → Type 0
Anything a = Unit {0}

-- The function ends with a result.
pub record Ends {W A : Type 0} (m : Run W A) (w : W) : Type 0 where
  pub value : A
  pub after : W
  pub ran : m w ≡ (done value, after)

-- `P` holds of a value that is not NULL.
pub data IfThere {A : Type 0} (P : A → Type 0) : Option A → Type 0 where
  no_value : IfThere P none
  a_value : (a : A) → P a → IfThere P (some a)

continue-Safe :
    {W A B : Type 0} {P : A → Type 0} {Q : B → Type 0} (r : Outcome A) (f : A → Run W B) (w : W)
    → Safe P r
    → ((a : A) → P a → Gives Q (f a))
    → Safe Q (continue r f w).0
continue-Safe r f w (gave a p) g = (g a p).ends w
continue-Safe r f w missed g = missed

or_null_of-Safe :
    {A : Type 0} {P : A → Type 0} {r : Outcome A} → Safe P r → Safe (IfThere P) (or_null_of r)
or_null_of-Safe (gave a p) = gave (some a) (a_value a p)
or_null_of-Safe missed = gave none no_value

succeeded_of-Safe : (test : Bool) → Safe Anything (succeeded_of test)
succeeded_of-Safe true = gave tt tt
succeeded_of-Safe false = missed

pub or_null_of_ends :
    {A : Type 0} {P : A → Type 0} {r : Outcome A}
    → Safe P r
    → (o : Option A) × (or_null_of r ≡ done o)
or_null_of_ends (gave a p) = (some a, refl)
or_null_of_ends missed = (none, refl)

pub Safe-cases :
    {A : Type 0} {P : A → Type 0} {r : Outcome A}
    → Safe P r
    → ((a : A) × (r ≡ done a) × P a) ⊎ (r ≡ null)
Safe-cases (gave a p) = inl (a, refl, p)
Safe-cases missed = inr refl

weaker-Safe : {A : Type 0} {P : A → Type 0} {r : Outcome A} → Safe P r → Safe Anything r
weaker-Safe (gave a p) = gave a tt
weaker-Safe missed = missed

module _ {W A : Type 0} where
  pub bind-Gives :
      {B : Type 0} {P : A → Type 0} {Q : B → Type 0} {m : Run W A} {f : A → Run W B}
      → Gives P m
      → ((a : A) → P a → Gives Q (f a))
      → Gives Q (m >>= f)
  unfolding ◌>>=◌
  bind-Gives {m = m} {f = f} g h = record {
    ends = λ w. continue-Safe (m w).0 f (m w).1 (g.ends w) h;
  }

  pub or_null-Gives : {P : A → Type 0} {m : Run W A} → Gives P m → Gives (IfThere P) (or_null m)
  unfolding or_null
  or_null-Gives g = record { ends = λ w. or_null_of-Safe (g.ends w) }

  pub pure-Gives : {P : A → Type 0} (a : A) → P a → Gives {W = W} P (pure a)
  unfolding pure
  pure-Gives a p = record { ends = λ w. gave a p }

  pub tested-Gives : {P : A → Type 0} {o : Option A} → IfThere P o → Gives {W = W} P (tested o)
  unfolding tested
  tested-Gives no_value = record { ends = λ w. missed }
  tested-Gives (a_value a p) = record { ends = λ w. gave a p }

  pub followed-Gives : {o : Option A} {a : A} → o ≡ some a → Gives {W = W} Anything (followed o)
  unfolding followed
  followed-Gives {a = a} e = record { ends = λ w. rw e (gave a tt) }

  pub followed_as-Gives :
      {P : A → Type 0} {o : Option A} (a : A) → (o ≡ some a) × P a → Gives {W = W} P (followed o)
  unfolding followed
  followed_as-Gives a h = record { ends = λ w. rw h.0 (gave a h.1) }

  pub weaker : {P : A → Type 0} {m : Run W A} → Gives P m → Gives Anything m
  weaker {m = m} g = record { ends = λ w. weaker-Safe (g.ends w) }

or_null_of_gives :
    {A : Type 0} {P : A → Type 0} {r : Outcome A}
    → Safe P r
    → (o : Option A) × (or_null_of r ≡ done o) × IfThere P o
or_null_of_gives (gave a p) = (some a, refl, a_value a p)
or_null_of_gives missed = (none, refl, no_value)

module _ {W A : Type 0} where
  -- A function whose NULL is kept, and what follows it.
  pub or_null-Ends :
      {B : Type 0} {P : A → Type 0} {m : Run W A} (f : Option A → Run W B) (w : W)
      → Gives P m
      → ((o : Option A) → IfThere P o → (w' : W) → Ends (f o) w')
      → Ends (or_null m >>= f) w
  unfolding or_null ◌>>=◌
  or_null-Ends {m = m} f w g h =
      let (o, e, p) = or_null_of_gives (g.ends w) in
      let next = h o p (m w).1 in
      record { value = next.value; after = next.after; ran = rw e next.ran }

  pub pure-Ends : (a : A) (w : W) → Ends (pure a) w
  unfolding pure
  pure-Ends a w = record { value = a; after = w; ran = refl }

  pub unless-Ends :
      (test : Bool) (m n : Run W A) (w : W) → Ends m w → Ends n w → Ends (if test then m else n) w
  unless-Ends true m n w g h = g
  unless-Ends false m n w g h = h

  -- What is reported of a function that does not crash.
  pub reported-Ends :
      {B : Type 0} {P : A → Type 0} {m : Run W A} (f : Option A → B) (w : W)
      → Gives P m
      → Ends (or_null m >>= λ o. pure (f o)) w
  unfolding or_null ◌>>=◌ pure
  reported-Ends {m = m} f w g =
      let (o, e) = or_null_of_ends (g.ends w) in
      record { value = f o; after = (m w).1; ran = rw e refl }

-- A test of which the outcome is used.
pub branch-Gives :
    {W A : Type 0} {P : A → Type 0} (test : Bool) (m n : Run W A)
    → (test ≡ true → Gives P m)
    → (test ≡ false → Gives P n)
    → Gives P (if test then m else n)
branch-Gives true m n g h = g refl
branch-Gives false m n g h = h refl

pub anything : {A : Type 0} (o : Option A) → IfThere Anything o
anything none = no_value
anything (some a) = a_value a tt

pub succeeded-Gives : {W : Type 0} (status : Status) → Gives {W = W} Anything (succeeded status)
unfolding succeeded
succeeded-Gives status = record { ends = λ w. succeeded_of-Safe (status == hm_success) }

pub guard-Gives : {W : Type 0} (test : Bool) → Gives {W = W} Anything (guard test)
unfolding guard
guard-Gives test = record { ends = λ w. succeeded_of-Safe test }

-- The calls of the library and of the stores end.
module _ {R K D C A : Type 0} where
  pub on_rng-Gives : (f : R → A × R) → Gives {W = World R K D C} Anything (on_rng f)
  unfolding on_rng
  on_rng-Gives f = record { ends = λ w. gave (f w.rng).0 tt }

  pub on_keys-Gives : (f : K → A × K) → Gives {W = World R K D C} Anything (on_keys f)
  unfolding on_keys
  on_keys-Gives f = record { ends = λ w. gave (f w.ks).0 tt }

  -- What holds of the call's result in every state of the store.
  pub on_keys_always-Gives :
      {P : A → Type 0} (f : K → A × K)
      → ((k : K) → P (f k).0)
      → Gives {W = World R K D C} P (on_keys f)
  unfolding on_keys
  on_keys_always-Gives f h = record { ends = λ w. gave (f w.ks).0 (h w.ks) }

  pub on_blocks-Gives : (f : D → A × D) → Gives {W = World R K D C} Anything (on_blocks f)
  unfolding on_blocks
  on_blocks-Gives f = record { ends = λ w. gave (f w.ds).0 tt }

  pub on_credentials-Gives : (f : C → A × C) → Gives {W = World R K D C} Anything (on_credentials f)
  unfolding on_credentials
  on_credentials-Gives f = record { ends = λ w. gave (f w.cs).0 tt }
