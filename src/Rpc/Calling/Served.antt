-- ===== src/Rpc/Calling/Served.antt =====
-- The text that every stub of the stores (`*_stub`) repeats around its operation, with the macros
-- HM_PARAM_EXTRACT and HM_PARAM_PACK of include/hermes/rpc/param_pack.h.
use hermes_core.Prelude.{
  ℕ, Bool, true, false, not, ◌&&◌, ◌≡◌, refl, Option, none, some, List, [], ◌∷◌, if◌then◌else◌,
  ◌==◌,
}
use hermes_core.Common.Status.{Status, hm_success, hm_fail}
use hermes_core.Rpc.ParamPack.{Pack, Created, created, null, diverged, Out, type_buffer}

abbrev pub one : List ℕ
one = type_buffer ∷ []

abbrev pub two : List ℕ
two = type_buffer ∷ one

abbrev pub three : List ℕ
three = type_buffer ∷ two

abbrev pub four : List ℕ
four = type_buffer ∷ three

abbrev pub five : List ℕ
five = type_buffer ∷ four

-- `if (!f || !given) return r;` in front of a call of `f`.
abbrev pub guarded : {A R : Type 0} → Bool → Option A → R → (A → R) → R
guarded false f r run = r
guarded true none r run = r
guarded true (some f) r run = run f

pub guarded_refused :
    {A R : Type 0} (u g : Bool) (f : Option A) (r : R) (run : A → R)
    → g ≡ false
    → guarded (u && g) f r run ≡ r
guarded_refused false g f r run h = refl
guarded_refused true g f r run h = rw h refl

module _ {D : Type 0} where
  -- `*out` is set to the new pack.
  abbrev pub with_out : Created → D → Option (Status × Option Pack × D)
  with_out (created p) d = some (hm_success, some p, d)
  with_out null d = some (hm_fail, none, d)
  with_out diverged d = some (hm_fail, none, d)

  abbrev pub no_out : Option (Status × D) → Option (Status × Option Pack × D)
  no_out none = none
  no_out (some (status, d)) = some (status, none, d)

  -- A stub returns the status of a failed extraction.
  abbrev pub extracted :
      Status × List Out
      → D
      → (List Out → Option (Status × Option Pack × D))
      → Option (Status × Option Pack × D)
  extracted (status, outs) d run =
      if not (status == hm_success) then some (status, none, d) else run outs
