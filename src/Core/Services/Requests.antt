-- ===== src/Core/Services/Requests.antt =====
-- Requests to one service (desktop/core/src/service.rs).
use bit_drive.Prelude.{◌≡◌, ◌≢◌, refl, String, none, some, if◌then◌else◌}
use bit_drive.Prelude.Eq.{eqb, string_eq}
use bit_drive.Prelude.Map.{Map, lookup, remove}
use bit_drive.Prelude.Keys.{lookup-insert_removed}
use bit_drive.Errors.{Result, ok, err, panic, ProtocolError}
use bit_drive.Pb.Service.{error_not_found}
use bit_drive.Service.{Service, not_found_text}
use bit_drive.Core.Context.{ServiceContext, ServiceRequest, ServiceResponse, ServiceEvent, error}
use bit_drive.Core.Services.{ServiceManager, answered, handle_found, handle_request}

module _ {S : Type 0} (impl : Service S ServiceContext ServiceRequest ServiceResponse ServiceEvent)
    (display : ProtocolError → String) where
  answered_back :
      (k j : String) (m : Map String S) (done : S × Result ServiceResponse)
      → done.1 ≢ panic
      → ((answered impl display k (remove k m) done).1 ≡ done.1)
        × (lookup j (answered impl display k (remove k m) done).0
            ≡ (if eqb k j then some done.0 else lookup j m))
  unfolding answered
  answered_back k j m (s, ok _) h = (refl, lookup-insert_removed k j s m)
  answered_back k j m (s, err e) h = (refl, lookup-insert_removed k j s m)
  answered_back k j m (s, panic) h = absurd (h refl)

  -- A request is handled by the service that is registered under its identifier and by no other: if
  -- that service does not panic, its answer, error or not, is the answer, it stays registered in the
  -- state that it left, and all others stay as they were. If there is no such service, the answer is a
  -- response with the request's number and the code for "not found", and nothing changes.
  pub handle_request_lem :
      (m : ServiceManager S) (r : ServiceRequest)
      → let run = handle_request impl display m r in
        ((s : S)
          → lookup r.service_id m.services ≡ some s
          → (impl.handle_request r s).1 ≢ panic
          → (run.1 ≡ (impl.handle_request r s).1)
            × ((j : String)
                → lookup j run.0.services ≡ (
                    if eqb r.service_id j
                    then some (impl.handle_request r s).0
                    else lookup j m.services)))
        × (lookup r.service_id m.services ≡ none
            → (run.0 ≡ m)
              × (run.1 ≡ ok (error r.request_id error_not_found (not_found_text r.service_id))))
  unfolding handle_request handle_found
  handle_request_lem m r = (
    λ s. λ found. λ calm. (
      rw found (answered_back r.service_id "" m.services (impl.handle_request r s) calm).0,
      λ j. rw found (answered_back r.service_id j m.services (impl.handle_request r s) calm).1,
    ),
    λ missing. (rw missing refl, rw missing refl),
  )
