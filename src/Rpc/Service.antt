-- ===== src/Rpc/Service.antt =====
-- The services of the three stores (src/key_store/service.c, src/data_store/service.c and
-- src/credential_store/service.c), which are alike: a server that handles one call after another until
-- it is asked to stop. Another thread asks by `stop`; a run is told, for each time that it looks at the
-- flag, whether the flag has been set since the last, and if not, whether a request comes. Where none
-- comes, the run is blocked in recv and does not look at the flag again. A connection that is closed,
-- which the transport answers as an error, counts as a request that the server fails to read.
pub mod Laws
use hermes_core.Prelude.{
  Bool, true, false, ◌||◌, Option, none, some, List, [], ◌∷◌, if◌then◌else◌, ◌==◌,
}
use hermes_core.Common.HashTable.{Table}
use hermes_core.Common.Status.{Status, hm_success, hm_fail, hm_invalid_parameter}
use hermes_core.Rpc.Server.{Func, Served}

-- `s` is the server, which is its table of functions.
pub record Service (D : Type 0) : Type 0 where
  pub s : Table (Func D)
  pub finish : Bool

pub data Turn : Type 0 where
  asked_to_stop : Turn
  request : Turn
  silence : Turn

-- What a run has come to: it has returned a status, or it goes on where what it was told ends, or it
-- waits for a request that does not come, or a call was undefined.
pub data Ending (S D : Type 0) : Type 0 where
  returned : Status → S → D → Ending S D
  running : S → D → Ending S D
  waiting : S → D → Ending S D
  undefined : Ending S D

module _ {S D : Type 0} where
  abbrev pub after_call : Served S D → (S → D → Ending S D) → Ending S D
  after_call none rest = undefined
  after_call (some (status, s, d)) rest =
      if status == hm_success then rest s d else returned hm_fail s d

  -- The loop over the calls of the server.
  unfoldable pub start_loop : (S → D → Served S D) → List Turn → Bool → S → D → Ending S D
  start_loop call turns true s d = returned hm_success s d
  start_loop call [] false s d = running s d
  start_loop call (asked_to_stop ∷ turns) false s d = returned hm_success s d
  start_loop call (request ∷ turns) false s d =
      after_call (call s d) (λ s' d'. start_loop call turns false s' d')
  start_loop call (silence ∷ turns) false s d = waiting s d

  unfoldable pub start :
      (Table (Func D) → S → D → Served S D) → Option (Service D) → List Turn → S → D → Ending S D
  start call none turns s d = returned hm_invalid_parameter s d
  start call (some service) turns s d = start_loop (call service.s) turns service.finish s d

module _ {D : Type 0} where
  unfoldable pub stop : Option (Service D) → Status × Option (Service D)
  stop none = (hm_invalid_parameter, none)
  stop (some service) = (hm_success, some (record service { finish = true }))

  -- A service that has a server; the inner `none` is NULL.
  abbrev pub created_with : Option (Option (Table (Func D))) → Option (Option (Service D))
  created_with none = none
  created_with (some none) = some none
  created_with (some (some table)) = some (some (record { s = table; finish = false }))
