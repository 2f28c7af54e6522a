-- ===== src/Daemon.antt =====
-- `Daemon` of desktop/daemon/src/main.rs: the start-up, the start and the stop of the one `Core`. Its
-- main loop waits for a signal and changes nothing.
use bit_drive.Prelude.{◌≡◌, ◌≢◌, ◌∙◌, sym, ap, refl, ℕ, String, Option, none, some, List}
use bit_drive.Errors.{
  Result, ok, err, panic, ProtocolError, config, >>=-ok, err≢ok, panic≢ok, ok-injective,
}
use bit_drive.Service.{Service, Handle}
use bit_drive.Core.Context.{ServiceContext, ServiceRequest, ServiceResponse, ServiceEvent}
use bit_drive.Core.Config.{Formats, ConfigManager, load, get, get_or_create_device_id}
use bit_drive.Core.Services.{Ending, returns, deadlock, init_all, init_with}
use bit_drive.Core.App.{Startup, Core, assemble, new, init, start, stop}

-- `anyhow::Result<()>`: an error with the text of its `context`; or no end at all.
pub data Outcome : Type 0 where
  done : Outcome
  fails : String → ProtocolError → Outcome
  unwinds : Outcome
  hangs : Outcome

fails≢done : {text : String} {e : ProtocolError} → fails text e ≢ done
fails≢done h = cc

unwinds≢done : unwinds ≢ done
unwinds≢done h = cc

pub record Daemon (S Json : Type 0) : Type 0 where
  pub core : Option (Core S Json)

module _ {S Json : Type 0} where
  unfoldable pub new_daemon : Daemon S Json
  new_daemon = record { core = none }

  -- `self.core = Some(core)`, behind the `?` of `core.init()`.
  unfoldable pub keep_core : Daemon S Json → Core S Json × Ending → Daemon S Json × Outcome
  keep_core d (c, returns (ok _)) = (record d { core = some c }, done)
  keep_core d (c, returns (err e)) = (d, fails "Failed to initialize services" e)
  keep_core d (c, returns panic) = (d, unwinds)
  keep_core d (c, deadlock) = (d, hangs)

  unfoldable pub store_core : Core S Json × Ending → String → Daemon S Json × Outcome
  store_core (c, returns (ok _)) text = (record { core = some c }, done)
  store_core (c, returns (err e)) text = (record { core = some c }, fails text e)
  store_core (c, returns panic) text = (record { core = some c }, unwinds)
  store_core (c, deadlock) text = (record { core = some c }, hangs)

module _ {S Json : Type 0} (io : Formats Json)
    (impl : Service S ServiceContext ServiceRequest ServiceResponse ServiceEvent)
    (display : ProtocolError → String) where
  unfoldable pub with_core : Daemon S Json → Result (Core S Json) → Daemon S Json × Outcome
  unfolding keep_core init
  with_core d (ok c) = keep_core d (init impl display c)
  with_core d (err e) = (d, fails "Failed to create core" e)
  with_core d panic = (d, unwinds)

  unfoldable pub with_config :
      Daemon S Json → Startup → Result (ConfigManager Json) → Daemon S Json × Outcome
  unfolding with_core new
  with_config d s (ok loaded) = with_core d (new io s)
  with_config d s (err e) = (d, fails "Failed to load configuration" e)
  with_config d s panic = (d, unwinds)

  -- The configuration is loaded once here, and once more when the core is made.
  unfoldable pub initialize : Daemon S Json → (first second : Startup) → Daemon S Json × Outcome
  unfolding with_config load
  initialize d first second =
      with_config d second (load io first.dirs first.created first.file first.first_write)

  unfoldable pub start_found : Option (Core S Json) → Daemon S Json × Outcome
  unfolding store_core start
  start_found none = (record { core = none }, done)
  start_found (some c) = store_core (start impl display c) "Failed to start core services"

  unfoldable pub start_daemon : Daemon S Json → Daemon S Json × Outcome
  unfolding start_found
  start_daemon d = start_found d.core

  unfoldable pub stop_found : Option (Core S Json) → Daemon S Json × Outcome
  unfolding store_core stop
  stop_found none = (record { core = none }, done)
  stop_found (some c) =
      let run = stop impl display c in store_core (run.0, returns run.1) "Failed to stop core"

  unfoldable pub stop_daemon : Daemon S Json → Daemon S Json × Outcome
  unfolding stop_found
  stop_daemon d = stop_found d.core

  assemble-context :
      (database : Handle) (made : ConfigManager Json × Result (List ℕ)) (c : Core S Json)
      → assemble io database made ≡ ok c
      → c.services.context ≡ none
  unfolding assemble
  assemble-context database (m, ok id) c h = ap (λ a. a.services.context) (sym (ok-injective h))
  assemble-context database (m, err e) c h = absurd (err≢ok h)
  assemble-context database (m, panic) c h = absurd (panic≢ok h)

  -- The services of a core that was just made have no context.
  new-context : (s : Startup) (c : Core S Json) → new io s ≡ ok c → c.services.context ≡ none
  unfolding new
  new-context s c h =
      let loaded = >>=-ok (load io s.dirs s.created s.file s.first_write) _ c h in
      let opened = >>=-ok (s.open_database (get loaded.0).database.path) _ c loaded.2 in
      assemble-context opened.0 (get_or_create_device_id io loaded.0 s.fresh s.second_write) c
        opened.2

  keep_core_fails :
      (d : Daemon S Json) (c : Core S Json)
      → c.services.context ≡ none
      → keep_core d (init impl display c)
        ≡ (d, fails "Failed to initialize services" (config "Service context not set"))
  unfolding keep_core init init_all init_with
  keep_core_fails d c h = rw h refl

  with_core_fails :
      (d : Daemon S Json) (s : Startup) (made : Result (Core S Json))
      → new io s ≡ made
      → ((with_core d made).0 ≡ d)
        × ((with_core d made).1 ≢ done)
        × ((c : Core S Json)
            → made ≡ ok c
            → (with_core d made).1
              ≡ fails "Failed to initialize services" (config "Service context not set"))
  unfolding with_core
  with_core_fails d s (ok c) h =
      let failing = keep_core_fails d c (new-context s c h) in
      (
        ap (λ r. r.0) failing,
        λ fine. fails≢done (sym (ap (λ r. r.1) failing) ∙ fine),
        λ a. λ same. ap (λ r. r.1) failing,
      )
  with_core_fails d s (err e) h = (refl, fails≢done, λ c. λ same. absurd (err≢ok same))
  with_core_fails d s panic h = (refl, unwinds≢done, λ c. λ same. absurd (panic≢ok same))

  with_config_fails :
      (d : Daemon S Json) (s : Startup) (r : Result (ConfigManager Json))
      → ((with_config d s r).0 ≡ d)
        × ((with_config d s r).1 ≢ done)
        × ((m : ConfigManager Json) (c : Core S Json)
            → r ≡ ok m
            → new io s ≡ ok c
            → (with_config d s r).1
              ≡ fails "Failed to initialize services" (config "Service context not set"))
  unfolding with_config
  with_config_fails d s (ok m) =
      let rest = with_core_fails d s (new io s) refl in
      (rest.0, rest.1, λ n. λ c. λ same. λ made. rest.2 c made)
  with_config_fails d s (err e) = (refl, fails≢done, λ m. λ c. λ same. λ made. absurd (err≢ok same))
  with_config_fails d s panic =
      (refl, unwinds≢done, λ m. λ c. λ same. λ made. absurd (panic≢ok same))

  -- Whatever the file system, the database and the services answer, `initialize` does not succeed, and
  -- the daemon is left without a core; when the configuration can be loaded and the core made, the
  -- error is that the service context is not set.
  pub initialize_fails :
      (d : Daemon S Json) (first second : Startup)
      → ((initialize d first second).0 ≡ d)
        × ((initialize d first second).1 ≢ done)
        × ((m : ConfigManager Json) (c : Core S Json)
            → load io first.dirs first.created first.file first.first_write ≡ ok m
            → new io second ≡ ok c
            → (initialize d first second).1
              ≡ fails "Failed to initialize services" (config "Service context not set"))
  unfolding initialize
  initialize_fails d first second =
      with_config_fails d second (load io first.dirs first.created first.file first.first_write)
