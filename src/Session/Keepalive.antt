-- ===== src/Session/Keepalive.antt =====
-- The keepalive tasks of desktop/protocol/src/session.rs among the other calls of a session, in any order.
use bit_drive.Prelude.{
  ℕ, zero, suc, ◌+◌, ◌<◌, ◌≤◌, leb→le, not_leb→lt, ◌≡◌, inl, inr, refl, String, true, false,
  Bool-cases, Option, none, some, List, [], ◌∷◌, ◌++◌, set, get_elem?, leb, arith, some-injective,
  none≢some,
}
use bit_drive.Session.{
  Session, SessionState, SessionEvent, Turn, turn, is_active, is_alive, after_send, send_keepalive,
  time_out, start_keepalive, stop_keepalive, stop_task, touch, set_state, close,
  handle_keepalive_response,
}

pub data Step : Type 0 where
  start stop : Step
  tick : (task now : ℕ) → Step
  touch_it reply : (now : ℕ) → Step
  set_to : SessionState → Step
  close_it : (message : String) (now : ℕ) → Step

-- A task writes back how many keepalives it has missed, or that it has ended.
unfoldable pub write_back : ℕ → Turn → Session × List SessionEvent
write_back task (s, missed, events) = (record s { tasks = set s.tasks task missed }, events)

-- The tick of a task, for what stands in its place.
unfoldable pub tick_found : Session → ℕ → ℕ → Option (Option ℕ) → Session × List SessionEvent
unfolding write_back
tick_found s task now none = (s, [])
tick_found s task now (some none) = (s, [])
tick_found s task now (some (some missed)) = write_back task (turn s missed now)

unfoldable pub step : Session → Step → Session × List SessionEvent
unfolding tick_found
step s start = (start_keepalive s, [])
step s stop = (stop_keepalive s, [])
step s (tick task now) = tick_found s task now (get_elem? s.tasks task)
step s (touch_it now) = (touch s now, [])
step s (reply now) = (handle_keepalive_response s now, [])
step s (set_to state) = (set_state s state, [])
step s (close_it message now) = close s message now

unfoldable pub run : Session → List Step → Session
unfolding step
run s [] = s
run s (x ∷ xs) = run (step s x).0 xs

-- A task that runs has missed fewer than three keepalives.
unfoldable pub AreWithin : List (Option ℕ) → Type 0
AreWithin tasks = (task missed : ℕ) → get_elem? tasks task ≡ some (some missed) → missed < 3

pub IsValid : Session → Type 0
IsValid s = AreWithin s.tasks

set-AreWithin :
    (tasks : List (Option ℕ)) (task : ℕ) (now : Option ℕ)
    → ((missed : ℕ) → now ≡ some missed → missed < 3)
    → AreWithin tasks
    → AreWithin (set tasks task now)
unfolding AreWithin
set-AreWithin [] task now small all i m h = all i m h
set-AreWithin (t ∷ ts) zero now small all zero m h = small m (some-injective h)
set-AreWithin (t ∷ ts) zero now small all (suc i) m h = all (suc i) m h
set-AreWithin (t ∷ ts) (suc j) now small all zero m h = all zero m h
set-AreWithin (t ∷ ts) (suc j) now small all (suc i) m h =
    set-AreWithin ts j now small (λ k. all (suc k)) i m h

append-AreWithin : (tasks : List (Option ℕ)) → AreWithin tasks → AreWithin (tasks ++ some 0 ∷ [])
unfolding AreWithin
append-AreWithin [] all zero m h = omega (arith, some-injective (some-injective h))
append-AreWithin [] all (suc i) m h = absurd (none≢some h)
append-AreWithin (t ∷ ts) all zero m h = all zero m h
append-AreWithin (t ∷ ts) all (suc i) m h = append-AreWithin ts (λ k. all (suc k)) i m h

stop_task-AreWithin :
    (handle : Option ℕ) (tasks : List (Option ℕ))
    → AreWithin tasks
    → AreWithin (stop_task handle tasks)
unfolding stop_task
stop_task-AreWithin none tasks all = all
stop_task-AreWithin (some task) tasks all =
    set-AreWithin tasks task none (λ m h. absurd (none≢some h)) all

-- The session after a keepalive.
abbrev pub sent : Session → Session
sent s = (send_keepalive s).0

pub turn_idle :
    (s : Session) (missed now : ℕ) → is_active s.state ≡ false → turn s missed now ≡ (s, none, [])
unfolding turn
turn_idle s missed now idle = rw idle refl

pub turn_alive :
    (s : Session) (missed now : ℕ)
    → is_active s.state ≡ true
    → is_alive s now ≡ true
    → turn s missed now ≡ (sent s, some 0, [])
unfolding turn after_send send_keepalive
turn_alive s missed now busy alive = rw (busy, alive) refl

pub turn_late :
    (s : Session) (missed now : ℕ)
    → is_active s.state ≡ true
    → is_alive s now ≡ false
    → missed + 1 < 3
    → turn s missed now ≡ (sent s, some (missed + 1), [])
unfolding turn after_send send_keepalive
turn_late s missed now busy late few =
    let below : leb 3 (missed + 1) ≡ false = ground arith in rw (busy, late, below) refl

pub turn_over :
    (s : Session) (missed now : ℕ)
    → is_active s.state ≡ true
    → is_alive s now ≡ false
    → 3 ≤ missed + 1
    → turn s missed now ≡ time_out s now
unfolding turn
turn_over s missed now busy late many =
    let above : leb 3 (missed + 1) ≡ true = ground arith in rw (busy, late, above) refl

-- What a turn leaves.
IsSmall : Session → Turn → Type 0
IsSmall s t = (t.0.tasks ≡ s.tasks) × ((m : ℕ) → t.1 ≡ some m → m < 3)

turn-IsSmall : (s : Session) (missed now : ℕ) → IsSmall s (turn s missed now)
unfolding IsSmall send_keepalive time_out
turn-IsSmall s missed now = elim (Bool-cases (is_active s.state)) [
  | inr idle ↦ rw (turn_idle s missed now idle) (refl, λ m h. absurd (none≢some h))
  | inl busy ↦ elim (Bool-cases (is_alive s now)) [
    | inl alive ↦
        rw (turn_alive s missed now busy alive) (refl, λ m h. omega (arith, some-injective h))
    | inr late ↦ elim (Bool-cases (leb 3 (missed + 1))) [
      | inl many ↦
          rw (turn_over s missed now busy late (leb→le 3 (missed + 1) many))
            (refl, λ m h. absurd (none≢some h))
      | inr few ↦
          rw (turn_late s missed now busy late (not_leb→lt 3 (missed + 1) few))
            (refl, λ m h. omega (arith, some-injective h, not_leb→lt 3 (missed + 1) few))
    ]
  ]
]

write_back-IsValid :
    (s : Session) (task : ℕ) (t : Turn) → IsSmall s t → IsValid s → IsValid (write_back task t).0
unfolding write_back IsValid IsSmall
write_back-IsValid s task (s', missed, events) (tasks_eq, small) v =
    rw tasks_eq (set-AreWithin s.tasks task missed small v)

tick_found-IsValid :
    (s : Session) (task now : ℕ) (found : Option (Option ℕ))
    → IsValid s
    → IsValid (tick_found s task now found).0
unfolding tick_found
tick_found-IsValid s task now none v = v
tick_found-IsValid s task now (some none) v = v
tick_found-IsValid s task now (some (some missed)) v =
    write_back-IsValid s task (turn s missed now) (turn-IsSmall s missed now) v

step-IsValid : (s : Session) (x : Step) → IsValid s → IsValid (step s x).0
unfolding step IsValid start_keepalive stop_keepalive touch handle_keepalive_response set_state
    close
step-IsValid s start v = append-AreWithin s.tasks v
step-IsValid s stop v = stop_task-AreWithin s.keepalive_handle s.tasks v
step-IsValid s (tick task now) v = tick_found-IsValid s task now (get_elem? s.tasks task) v
step-IsValid s (touch_it now) v = v
step-IsValid s (reply now) v = v
step-IsValid s (set_to state) v = v
step-IsValid s (close_it message now) v = stop_task-AreWithin s.keepalive_handle s.tasks v

-- In whatever order the keepalive tasks of a session, of which there may be several, tick among its
-- other calls, a task that goes on has missed fewer than three keepalives in a row: if it is so at the
-- start, it stays so.
pub run-AreWithin : (s : Session) (xs : List Step) → AreWithin s.tasks → AreWithin (run s xs).tasks
unfolding run IsValid
run-AreWithin s [] v = v
run-AreWithin s (x ∷ xs) v = run-AreWithin (step s x).0 xs (step-IsValid s x v)
