-- ===== src/Rpc/Service/Laws.antt =====
-- How a service ends, and that it waits (service.c of the three stores).
use hermes_core.Prelude.{
  ◌≢◌, ◌∙◌, ℕ, zero, suc, ◌≡◌, inl, inr, refl, ap, Bool-cases, false, Option, Option-cases, none,
  some, List, ◌∷◌, if◌then◌else◌, ◌==◌, arith,
}
use hermes_core.Common.HashTable.{Table}
use hermes_core.Common.Status.{Status, hm_success, hm_fail}
use hermes_core.Rpc.Server.{Func, Served}
use hermes_core.Rpc.Service.{
  Service, Turn, asked_to_stop, request, silence, returned, waiting, start_loop, start, stop,
}

-- `n` requests come, and then what is given; and `n` requests, and then the flag is set.
abbrev pub requests_then : ℕ → List Turn → List Turn
requests_then zero turns = turns
requests_then (suc n) turns = request ∷ requests_then n turns

abbrev pub stopped_after : ℕ → List Turn → List Turn
stopped_after n turns = requests_then n (asked_to_stop ∷ turns)

get_or : {A : Type 0} → Option A → A → A
get_or none a = a
get_or (some b) a = b

some_of : {A : Type 0} {b : A} (a : A) → some a ≡ some b → a ≡ b
unfolding get_or
some_of a h = ap (λ o. get_or o a) h

not_success : (status : Status) → status ≢ hm_success → (status == hm_success) ≡ false
not_success status failed = ground arith

module _ {S D : Type 0} where
  -- `n` calls, each of which succeeds.
  abbrev served_then : Served S D → (S → D → Option (S × D)) → Option (S × D)
  served_then none rest = none
  served_then (some (status, s, d)) rest = if status == hm_success then rest s d else none

  abbrev pub served : (S → D → Served S D) → ℕ → S → D → Option (S × D)
  served call zero s d = some (s, d)
  served call (suc n) s d = served_then (call s d) (λ s' d'. served call n s' d')

  module _ (call : S → D → Served S D) where
    start_loop-requests :
        (n : ℕ) (turns : List Turn) (s : S) (d : D) (s' : S) (d' : D)
        → served call n s d ≡ some (s', d')
        → start_loop call (requests_then n turns) false s d ≡ start_loop call turns false s' d'
    unfolding start_loop
    start_loop-requests zero turns s d s' d' h =
        ap (λ p. start_loop call turns false p.0 p.1) (some_of (s, d) h)
    start_loop-requests (suc n) turns s d s' d' h = elim (Option-cases (call s d)) [
      | inl e ↦ absurd (ground (arith, rw e at h))
      | inr (r, e) ↦ elim (Bool-cases (r.0 == hm_success)) [
        | inl ok ↦ rw (e, ok) (start_loop-requests n turns r.1 r.2 s' d' (rw (e, ok) at h))
        | inr bad ↦ absurd (ground (arith, rw (e, bad) at h))
      ]
    ]

module _ {S D : Type 0} (call : Table (Func D) → S → D → Served S D) (table : Table (Func D)) where
  -- A service handles each call until it is asked to stop: where the first `n` calls of its server come
  -- and succeed and the flag is set after them, `start` has handled them, one after another, and no
  -- other, and returns HM_SUCCESS.
  pub start-served :
      (n : ℕ) (turns : List Turn) (s : S) (d : D) (s' : S) (d' : D)
      → served (call table) n s d ≡ some (s', d')
      → start call (some (record { s = table; finish = false })) (stopped_after n turns) s d
        ≡ returned hm_success s' d'
  unfolding start start_loop
  start-served n turns s d s' d' h =
      start_loop-requests (call table) n (asked_to_stop ∷ turns) s d s' d' h

  -- A service ends at the first call that fails: where `n` calls of its server come and succeed and the
  -- next one comes and fails, `start` has handled these and no other, and returns HM_FAIL, whatever the
  -- status of that call.
  pub start-failed :
      (n : ℕ) (turns : List Turn) (s : S) (d : D) (s' : S) (d' : D) (status : Status) (s'' : S)
      (d'' : D)
      → served (call table) n s d ≡ some (s', d')
      → call table s' d' ≡ some (status, s'', d'')
      → status ≢ hm_success
      → start call
          (some (record { s = table; finish = false }))
          (requests_then n (request ∷ turns))
          s
          d
        ≡ returned hm_fail s'' d''
  unfolding start start_loop
  start-failed n turns s d s' d' status s'' d'' h e failed =
      start_loop-requests (call table) n (request ∷ turns) s d s' d' h
      ∙ rw (e, not_success status failed) refl

  -- A service that waits is not stopped: where the first `n` requests are handled with success and no
  -- further one comes, the run waits in the next call of its server, whatever is asked of it after, and
  -- has handled those `n` and no other.
  pub start-waiting :
      (n : ℕ) (turns : List Turn) (s : S) (d : D) (s' : S) (d' : D)
      → served (call table) n s d ≡ some (s', d')
      → start call
          (some (record { s = table; finish = false }))
          (requests_then n (silence ∷ turns))
          s
          d
        ≡ waiting s' d'
  unfolding start start_loop
  start-waiting n turns s d s' d' h =
      start_loop-requests (call table) n (silence ∷ turns) s d s' d' h

-- A service that was stopped before it was started handles no call: after `stop`, `start` returns
-- HM_SUCCESS at once.
pub start-stop :
    {S D : Type 0} (call : Table (Func D) → S → D → Served S D) (service : Service D)
    (turns : List Turn) (s : S) (d : D)
    → start call (stop (some service)).1 turns s d ≡ returned hm_success s d
unfolding start stop start_loop
start-stop call service turns s d = refl
