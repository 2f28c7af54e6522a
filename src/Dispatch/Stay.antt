-- ===== src/Dispatch/Stay.antt =====
-- No call of a service takes it out of the map (desktop/protocol/src/service.rs).
use bit_drive.Prelude.{
  ◌≡◌, ◌∙◌, ap, refl, String, List, [], ◌∷◌, Option, none, some, Bool-cases, inl, inr,
}
use bit_drive.Prelude.Eq.{eqb, string_eq}
use bit_drive.Prelude.Map.{Map, lookup}
use bit_drive.Prelude.Keys.{keys}
use bit_drive.Errors.{Result, ok, err, panic, ProtocolError, err≢ok, panic≢ok}
use bit_drive.Service.{Service, failed}
use mathlib.Core.Option.{map as option_map}
use bit_drive.Dispatch.{
  ServiceContext, ServiceRequest, ServiceResponse, ServiceEvent, ServiceManager, list_services,
  after_try, try_all, after_log, log_all, write_at, init_with, init_all, start_all, stop_all,
  broadcast_event, handle_found, handle_request,
}

-- The calls that run methods of services.
pub data Call : Type 0 where
  init start stop : Call
  broadcast : ServiceEvent → Call
  request : ServiceRequest → Call

module _ {S : Type 0} where
  after_try-keys :
      (wrap : String → ProtocolError → ProtocolError) (id : String) (others : Map String S)
      (done : S × Result (Unit {0})) (rest : Map String S × Result (Unit {0}))
      → keys rest.0 ≡ keys others
      → keys (after_try wrap id others done rest).0 ≡ id ∷ keys others
  unfolding after_try
  after_try-keys wrap id others (s, ok _) rest h = ap (λ ks. id ∷ ks) h
  after_try-keys wrap id others (s, err e) rest h = refl
  after_try-keys wrap id others (s, panic) rest h = refl

  try_all-keys :
      (wrap : String → ProtocolError → ProtocolError) (method : S → S × Result (Unit {0}))
      (m : Map String S)
      → keys (try_all wrap method m).0 ≡ keys m
  unfolding try_all
  try_all-keys wrap method [] = refl
  try_all-keys wrap method ((id, s) ∷ others) =
      after_try-keys wrap id others (method s) (try_all wrap method others)
        (try_all-keys wrap method others)

  after_log-keys :
      (id : String) (others : Map String S) (done : S × Result (Unit {0}))
      (rest : Map String S × Result (Unit {0}))
      → keys rest.0 ≡ keys others
      → keys (after_log id others done rest).0 ≡ id ∷ keys others
  unfolding after_log
  after_log-keys id others (s, ok _) rest h = ap (λ ks. id ∷ ks) h
  after_log-keys id others (s, err e) rest h = ap (λ ks. id ∷ ks) h
  after_log-keys id others (s, panic) rest h = refl

  log_all-keys :
      (method : S → S × Result (Unit {0})) (m : Map String S) → keys (log_all method m).0 ≡ keys m
  unfolding log_all
  log_all-keys method [] = refl
  log_all-keys method ((id, s) ∷ others) =
      after_log-keys id others (method s) (log_all method others) (log_all-keys method others)

  write_at-keys : (id : String) (s : S) (m : Map String S) → keys (write_at id s m) ≡ keys m
  unfolding write_at
  write_at-keys id s [] = refl
  write_at-keys id s ((j, t) ∷ m) = elim (Bool-cases (eqb j id)) [
    | inl same ↦ rw same refl
    | inr other ↦ rw other (ap (λ ks. j ∷ ks) (write_at-keys id s m))
  ]

  after_try-ok :
      (wrap : String → ProtocolError → ProtocolError) (id : String) (others : Map String S)
      (done : S × Result (Unit {0})) (rest : Map String S × Result (Unit {0}))
      → (after_try wrap id others done rest).1 ≡ ok tt
      → (rest.1 ≡ ok tt) × ((after_try wrap id others done rest).0 ≡ (id, done.0) ∷ rest.0)
  unfolding after_try
  after_try-ok wrap id others (s, ok _) rest h = (h, refl)
  after_try-ok wrap id others (s, err e) rest h = absurd (err≢ok h)
  after_try-ok wrap id others (s, panic) rest h = absurd (panic≢ok h)

  try_all-ok :
      (wrap : String → ProtocolError → ProtocolError) (method : S → S × Result (Unit {0}))
      (m : Map String S)
      → (try_all wrap method m).1 ≡ ok tt
      → (j : String)
      → lookup j (try_all wrap method m).0 ≡ option_map (λ s. (method s).0) (lookup j m)
  unfolding try_all lookup
  try_all-ok wrap method [] h j = refl
  try_all-ok wrap method ((id, s) ∷ others) h j =
      let step = after_try-ok wrap id others (method s) (try_all wrap method others) h in
      ap (lookup j) step.1 ∙ elim (Bool-cases (eqb id j)) [
        | inl same ↦ rw same refl
        | inr other ↦ rw other (try_all-ok wrap method others step.0 j)
      ]

module _ {S : Type 0} (impl : Service S ServiceContext ServiceRequest ServiceResponse ServiceEvent)
    (display : ProtocolError → String) where
  unfoldable pub serve : ServiceManager S → Call → ServiceManager S
  unfolding init_all start_all stop_all broadcast_event handle_request
  serve m init = (init_all impl display m).0
  serve m start = (start_all impl display m).0
  serve m stop = (stop_all impl display m).0
  serve m (broadcast e) = (broadcast_event impl display m e).0
  serve m (request r) = (handle_request impl display m r).0

  unfoldable pub serve_all : ServiceManager S → List Call → ServiceManager S
  unfolding serve
  serve_all m [] = m
  serve_all m (c ∷ cs) = serve_all (serve m c) cs

  init_with-keys :
      (c : Option ServiceContext) (m : Map String S) → keys (init_with impl display c m).0 ≡ keys m
  unfolding init_with
  init_with-keys none m = refl
  init_with-keys (some c) m = try_all-keys (failed "Failed to init " display) (impl.init c) m

  handle_found-keys :
      (m : ServiceManager S) (r : ServiceRequest) (found : Option S)
      → keys (handle_found impl display m r found).0 ≡ keys m.services
  unfolding handle_found
  handle_found-keys m r none = refl
  handle_found-keys m r (some s) = write_at-keys r.service_id (impl.handle_request r s).0 m.services

  serve-keys : (m : ServiceManager S) (c : Call) → keys (serve m c).services ≡ keys m.services
  unfolding serve init_all start_all stop_all broadcast_event handle_request
  serve-keys m init = init_with-keys m.context m.services
  serve-keys m start = try_all-keys (failed "Failed to start " display) impl.start m.services
  serve-keys m stop = log_all-keys impl.stop m.services
  serve-keys m (broadcast e) = log_all-keys (impl.handle_event e) m.services
  serve-keys m (request r) = handle_found-keys m r (lookup r.service_id m.services)

  -- However the services answer, with a value, an error or a panic, a sequence of initialisations,
  -- starts, stops, broadcasts and requests leaves the registered identifiers and their order as they
  -- were.
  pub list_services-serve_all :
      (m : ServiceManager S) (calls : List Call)
      → list_services (serve_all m calls) ≡ list_services m
  unfolding serve_all list_services
  list_services-serve_all m [] = refl
  list_services-serve_all m (c ∷ cs) = list_services-serve_all (serve m c) cs ∙ serve-keys m c

  -- When `start_all` succeeds, every registered service was started once and no other was added.
  pub lookup-start_all_done :
      (m : ServiceManager S)
      → (start_all impl display m).1 ≡ ok tt
      → (j : String)
      → lookup j (start_all impl display m).0.services
        ≡ option_map (λ s. (impl.start s).0) (lookup j m.services)
  unfolding start_all
  lookup-start_all_done m h j =
      try_all-ok (failed "Failed to start " display) impl.start m.services h j
