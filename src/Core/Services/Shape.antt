-- ===== src/Core/Services/Shape.antt =====
-- The identifiers that a manager lists (desktop/core/src/service.rs).
use bit_drive.Prelude.{
  Bool, true, false, Bool-cases, inl, inr, if◌then◌else◌, String, List, [], ◌∷◌, Option, none, some,
}
use bit_drive.Prelude.Eq.{string_eq}
use bit_drive.Prelude.Map.{Map, lookup, remove}
use bit_drive.Prelude.Keys.{keys, IsUnique, insert-IsUnique, remove-IsUnique}
use bit_drive.Errors.{Result, ok, err, panic, ProtocolError}
use bit_drive.Service.{Service}
use bit_drive.Loop.{for_each-keeps}
use bit_drive.Core.Context.{ServiceContext, ServiceRequest, ServiceResponse, ServiceEvent}
use bit_drive.Core.Services.{
  ServiceManager, Ending, returns, deadlock, go_on, after_method, advance_found, advance,
  advance_all, init_with, init_all, start_all, stop_answer, stop_found, stop_one, stop_all, heard,
  broadcast_found, broadcast_one, broadcast_event, list_services, answered, handle_found,
  handle_request, set_context, register_found, register_service, unregister_found,
  unregister_service,
}

unfoldable pub does_return : Ending → Bool
does_return (returns r) = true
does_return deadlock = false

-- The calls that a manager serves.
pub data Call (S : Type 0) : Type 0 where
  context : ServiceContext → Call S
  register : S → Call S
  unregister : String → Call S
  init start stop : Call S
  request : ServiceRequest → Call S
  broadcast : ServiceEvent → Call S

module _ {S : Type 0} (impl : Service S ServiceContext ServiceRequest ServiceResponse ServiceEvent)
    (display : ProtocolError → String) where
  -- What a call leaves, and whether it returns.
  unfoldable pub serve : ServiceManager S → Call S → ServiceManager S × Bool
  unfolding set_context register_service unregister_service init_all start_all stop_all
      handle_request broadcast_event
  serve m (context c) = (set_context m c, true)
  serve m (register s) = ((register_service impl display m s).0, true)
  serve m (unregister id) = ((unregister_service m id).0, true)
  serve m init = let run = init_all impl display m in (run.0, does_return run.1)
  serve m start = let run = start_all impl display m in (run.0, does_return run.1)
  serve m stop = ((stop_all impl display m).0, true)
  serve m (request r) = ((handle_request impl display m r).0, true)
  serve m (broadcast e) = ((broadcast_event impl display m e).0, true)

  -- A call that does not return is the last one.
  unfoldable pub serve_all : ServiceManager S → List (Call S) → ServiceManager S
  unfolding serve
  serve_all m [] = m
  serve_all m (c ∷ cs) =
      let rest = serve_all (serve m c).0 cs in if (serve m c).1 then rest else (serve m c).0

  after_method-IsUnique :
      (what k : String) (m : Map String S) (done : S × Result (Unit {0}))
      → IsUnique (keys m)
      → IsUnique (keys (after_method impl display what k m done).0)
  unfolding after_method
  after_method-IsUnique what k m (s, ok _) u = u
  after_method-IsUnique what k m (s, err e) u = u
  after_method-IsUnique what k m (s, panic) u = u

  advance-IsUnique :
      (what : String) (method : S → S × Result (Unit {0})) (k : String) (m : Map String S)
      (found : Option S)
      → IsUnique (keys m)
      → IsUnique (keys (advance_found impl display what method k m found).0)
  unfolding advance_found
  advance-IsUnique what method k m none u = u
  advance-IsUnique what method k m (some s) u =
      after_method-IsUnique what k (remove k m) (method s) (remove-IsUnique k m u)

  go_on-IsUnique :
      (s : Map String S × Ending) (rest : Map String S → Map String S × Ending)
      → IsUnique (keys s.0)
      → ((n : Map String S) → IsUnique (keys n) → IsUnique (keys (rest n).0))
      → IsUnique (keys (go_on s rest).0)
  unfolding go_on
  go_on-IsUnique (m, returns (ok _)) rest u later = later m u
  go_on-IsUnique (m, returns (err e)) rest u later = u
  go_on-IsUnique (m, returns panic) rest u later = u
  go_on-IsUnique (m, deadlock) rest u later = u

  advance_all-IsUnique :
      (what : String) (method : S → S × Result (Unit {0})) (ks : List String) (m : Map String S)
      → IsUnique (keys m)
      → IsUnique (keys (advance_all impl display what method ks m).0)
  unfolding advance_all advance
  advance_all-IsUnique what method [] m u = u
  advance_all-IsUnique what method (k ∷ ks) m u =
      go_on-IsUnique (advance impl display what method k m) _
        (advance-IsUnique what method k m (lookup k m) u)
        (λ n. advance_all-IsUnique what method ks n)

  init_with-IsUnique :
      (c : Option ServiceContext) (m : Map String S)
      → IsUnique (keys m)
      → IsUnique (keys (init_with impl display c m).0)
  unfolding init_with
  init_with-IsUnique none m u = u
  init_with-IsUnique (some c) m u =
      advance_all-IsUnique "Failed to init " (impl.init c) (keys m) m u

  stop_answer-IsUnique :
      (m : Map String S) (r : Result (Unit {0}))
      → IsUnique (keys m)
      → IsUnique (keys (stop_answer impl display m r).0)
  unfolding stop_answer
  stop_answer-IsUnique m (ok _) u = u
  stop_answer-IsUnique m (err e) u = u
  stop_answer-IsUnique m panic u = u

  stop_found-IsUnique :
      (k : String) (m : Map String S) (found : Option S)
      → IsUnique (keys m)
      → IsUnique (keys (stop_found impl display k m found).0)
  unfolding stop_found
  stop_found-IsUnique k m none u = u
  stop_found-IsUnique k m (some s) u =
      stop_answer-IsUnique (remove k m) (impl.stop s).1 (remove-IsUnique k m u)

  heard-IsUnique :
      (k : String) (m : Map String S) (done : S × Result (Unit {0}))
      → IsUnique (keys m)
      → IsUnique (keys (heard impl display k m done).0)
  unfolding heard
  heard-IsUnique k m (s, ok _) u = insert-IsUnique k s m u
  heard-IsUnique k m (s, err e) u = insert-IsUnique k s m u
  heard-IsUnique k m (s, panic) u = u

  broadcast_found-IsUnique :
      (event : ServiceEvent) (k : String) (m : Map String S) (found : Option S)
      → IsUnique (keys m)
      → IsUnique (keys (broadcast_found impl display event k m found).0)
  unfolding broadcast_found
  broadcast_found-IsUnique event k m none u = u
  broadcast_found-IsUnique event k m (some s) u =
      heard-IsUnique k (remove k m) (impl.handle_event event s) (remove-IsUnique k m u)

  answered-IsUnique :
      (k : String) (m : Map String S) (done : S × Result ServiceResponse)
      → IsUnique (keys m)
      → IsUnique (keys (answered impl display k m done).0)
  unfolding answered
  answered-IsUnique k m (s, ok _) u = insert-IsUnique k s m u
  answered-IsUnique k m (s, err e) u = insert-IsUnique k s m u
  answered-IsUnique k m (s, panic) u = u

  handle_found-IsUnique :
      (m : ServiceManager S) (r : ServiceRequest) (found : Option S)
      → IsUnique (keys m.services)
      → IsUnique (keys (handle_found impl display m r found).0)
  unfolding handle_found
  handle_found-IsUnique m r none u = u
  handle_found-IsUnique m r (some s) u =
      answered-IsUnique r.service_id (remove r.service_id m.services) (impl.handle_request r s)
        (remove-IsUnique r.service_id m.services u)

  unregister_found-IsUnique :
      (m : ServiceManager S) (id : String) (found : Option S)
      → IsUnique (keys m.services)
      → IsUnique (keys (unregister_found m id found).0.services)
  unfolding unregister_found
  unregister_found-IsUnique m id none u = u
  unregister_found-IsUnique m id (some s) u = remove-IsUnique id m.services u

  register_found-IsUnique :
      (m : ServiceManager S) (s : S) (found : Option S)
      → IsUnique (keys m.services)
      → IsUnique (keys (register_found impl display m s found).0.services)
  unfolding register_found
  register_found-IsUnique m s none u = insert-IsUnique (impl.service_id s) s m.services u
  register_found-IsUnique m s (some there) u = u

  serve-IsUnique :
      (m : ServiceManager S) (c : Call S)
      → IsUnique (keys m.services)
      → IsUnique (keys (serve m c).0.services)
  unfolding serve set_context register_service unregister_service init_all start_all stop_all
      handle_request broadcast_event stop_one broadcast_one
  serve-IsUnique m (context c) u = u
  serve-IsUnique m (register s) u =
      register_found-IsUnique m s (lookup (impl.service_id s) m.services) u
  serve-IsUnique m (unregister id) u = unregister_found-IsUnique m id (lookup id m.services) u
  serve-IsUnique m init u = init_with-IsUnique m.context m.services u
  serve-IsUnique m start u =
      advance_all-IsUnique "Failed to start " impl.start (keys m.services) m.services u
  serve-IsUnique m stop u =
      for_each-keeps (stop_one impl display) (λ n. IsUnique (keys n))
        (λ k. λ n. stop_found-IsUnique k n (lookup k n)) (keys m.services) m.services u
  serve-IsUnique m (request r) u = handle_found-IsUnique m r (lookup r.service_id m.services) u
  serve-IsUnique m (broadcast e) u =
      for_each-keeps (broadcast_one impl display e) (λ n. IsUnique (keys n))
        (λ k. λ n. broadcast_found-IsUnique e k n (lookup k n)) (keys m.services) m.services u

  -- After any calls on a manager that held each service identifier once, whatever the services answer
  -- and also when one of them panics, it lists each identifier once.
  pub serve_all-IsUnique :
      (m : ServiceManager S) (calls : List (Call S))
      → IsUnique (list_services m)
      → IsUnique (list_services (serve_all m calls))
  unfolding serve_all list_services
  serve_all-IsUnique m [] u = u
  serve_all-IsUnique m (c ∷ cs) u = elim (Bool-cases (serve m c).1) [
    | inl back ↦ rw back (serve_all-IsUnique (serve m c).0 cs (serve-IsUnique m c u))
    | inr hung ↦ rw hung (serve-IsUnique m c u)
  ]
