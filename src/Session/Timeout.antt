-- ===== src/Session/Timeout.antt =====
-- One keepalive task of desktop/protocol/src/session.rs on its own, tick after tick.
use bit_drive.Prelude.{
  ℕ, ◌-◌, ◌<◌, ◌≤◌, ◌≡◌, refl, true, none, some, List, [], ◌∷◌, ◌++◌, arith, All, le→not_ltb,
  lt→ltb,
}
use bit_drive.Session.{
  Session, Turn, turn, closing, is_active, is_alive, send_keepalive, next_tx_sequence, time_out,
  handle_timeout, timeout_event, set_state,
}
use bit_drive.Session.Keepalive.{sent, turn_alive, turn_late, turn_over}

-- The loop over its ticks; `continue` runs what is left of them.
unfoldable pub go_on : (Session → ℕ → Turn) → Turn → Turn
go_on continue (s, none, events) = (s, none, events)
go_on continue (s, some missed, events) =
    let (s', missed', later) = continue s missed in (s', missed', events ++ later)

unfoldable pub keepalive_loop : List ℕ → Session → ℕ → Turn
unfolding go_on
keepalive_loop [] s missed = (s, some missed, [])
keepalive_loop (now ∷ ticks) s missed = go_on (keepalive_loop ticks) (turn s missed now)

-- A session that is active, and whose timeout has passed at the first three ticks of a loop, goes
-- to the state `Closing` at the third with one event, after two keepalives, and the loop ends
-- there.
pub keepalive_loop_timeout :
    (s : Session) (a b c : ℕ) (rest : List ℕ)
    → is_active s.state ≡ true
    → s.config.session_timeout ≤ a - s.last_activity
    → s.config.session_timeout ≤ b - s.last_activity
    → s.config.session_timeout ≤ c - s.last_activity
    → keepalive_loop (a ∷ b ∷ c ∷ rest) s 0
      ≡ (set_state (sent (sent s)) closing, none, timeout_event s c ∷ [])
unfolding keepalive_loop go_on send_keepalive next_tx_sequence is_alive time_out handle_timeout
keepalive_loop_timeout s a b c rest busy ha hb hc =
    rw
      (
        turn_late s 0 a busy (le→not_ltb _ _ ha) (omega arith),
        turn_late (sent s) 1 b busy (le→not_ltb _ _ hb) (omega arith),
        turn_over (sent (sent s)) 2 c busy (le→not_ltb _ _ hc) (omega arith),
      )
      refl

-- As many keepalives as there are ticks.
abbrev pub sent_for : List ℕ → Session → Session
sent_for [] s = s
sent_for (now ∷ ticks) s = sent_for ticks (sent s)

-- A session that is active, and that has seen activity within its timeout at every tick, goes on: the
-- loop sends a keepalive at each tick, has missed none after a tick, and reports nothing.
pub keepalive_loop_alive :
    (ticks : List ℕ) (s : Session)
    → is_active s.state ≡ true
    → All (λ now. now - s.last_activity < s.config.session_timeout) ticks
    → keepalive_loop ticks s 0 ≡ (sent_for ticks s, some 0, [])
unfolding keepalive_loop go_on is_alive send_keepalive next_tx_sequence
keepalive_loop_alive [] s busy all = refl
keepalive_loop_alive (now ∷ ticks) s busy (here, all) =
    rw (turn_alive s 0 now busy (lt→ltb _ _ here), keepalive_loop_alive ticks (sent s) busy all)
      refl
