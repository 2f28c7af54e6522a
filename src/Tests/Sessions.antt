-- ===== src/Tests/Sessions.antt =====
-- Examples of desktop/protocol/src/session.rs.
use bit_drive.Prelude.{◌≡◌, refl, none, [], ◌∷◌, arith}
use bit_drive.Session.{Session, new, active, closing, set_state, timeout_event}
use bit_drive.Session.Keepalive.{tick, start, reply, close_it, run, AreWithin, sent, run-AreWithin}
use bit_drive.Session.Timeout.{keepalive_loop, keepalive_loop_timeout}
use bit_drive.Session.Sessions.{SessionManager, default_config, session_config, new_manager}

-- Active since 1000, with a timeout of 90000.
abbrev talking : Session
talking = record (new (session_config default_config (7 ∷ []) (1 ∷ []) (2 ∷ []) 1000) 1000) {
  state = active;
  config = session_config default_config (7 ∷ []) (1 ∷ []) (2 ∷ []) 1000;
  last_activity = 1000;
  tasks = [];
}

no_tasks : AreWithin []
unfolding AreWithin
no_tasks task missed h = absurd (cc)

run-AreWithin_example :
    AreWithin
      (run talking (
        start
        ∷ tick 0 91000
        ∷ start
        ∷ tick 1 95000
        ∷ reply 95001
        ∷ close_it "bye" 95002
        ∷ [])).tasks
run-AreWithin_example =
    run-AreWithin talking
      (start ∷ tick 0 91000 ∷ start ∷ tick 1 95000 ∷ reply 95001 ∷ close_it "bye" 95002 ∷ [])
      no_tasks

keepalive_loop_timeout_example :
    keepalive_loop (91000 ∷ 121000 ∷ 151000 ∷ 181000 ∷ []) talking 0
    ≡ (set_state (sent (sent talking)) closing, none, timeout_event talking 151000 ∷ [])
keepalive_loop_timeout_example =
    keepalive_loop_timeout talking 91000 121000 151000 (181000 ∷ []) refl (omega arith)
      (omega arith) (omega arith)

abbrev lone : SessionManager
lone = new_manager default_config
