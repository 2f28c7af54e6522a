-- ===== src/Core/EventBus.antt =====
-- `EventBus` of desktop/core/src/events.rs. A clone shares the history and the channel, so that the bus
-- is one state. `sent` holds the events that were handed to the broadcast channel, latest last; the
-- result of that call is dropped.
use bit_drive.Prelude.{
  ℕ, ◌-◌, ◌+◌, ◌≤◌, ◌≡◌, ◌∙◌, sym, ap, arith, List, [], ◌∷◌, ◌++◌, length, drop, ltb, if◌then◌else◌,
  length-append, length-drop, drop-append, drop-add, append-nil, append_assoc, Bool-cases, inl, inr,
  not_ltb→le,
}
use bit_drive.Errors.{Result, ok}
use bit_drive.Core.Events.{Event}

pub record EventBus : Type 0 where
  pub sent : List Event
  pub event_history : List Event
  pub max_history : ℕ

unfoldable pub new : EventBus
new = record { sent = []; event_history = []; max_history = 1000 }

-- `push`, then `drain(0..excess)` when there is an excess.
unfoldable pub keep_latest : ℕ → List Event → List Event
keep_latest max_history history =
    let excess = length history - max_history in
    if ltb 0 excess then drop excess history else history

unfoldable pub publish : EventBus → Event → EventBus × Result (Unit {0})
unfolding keep_latest
publish bus event = (
  record bus {
    sent = bus.sent ++ event ∷ [];
    event_history = keep_latest bus.max_history (bus.event_history ++ event ∷ []);
  },
  ok tt,
)

unfoldable pub history : EventBus → List Event
history bus = bus.event_history

unfoldable pub history_size : EventBus → ℕ
history_size bus = length bus.event_history

unfoldable pub clear_history : EventBus → EventBus
clear_history bus = record bus { event_history = [] }

-- Publications in a row.
unfoldable pub publish_all : EventBus → List Event → EventBus
unfolding publish
publish_all bus [] = bus
publish_all bus (event ∷ events) = publish_all (publish bus event).0 events

-- The abstract view: a log that forgets nothing, seen through a window of the last `n` entries.
unfoldable pub latest : ℕ → List Event → List Event
latest n log = drop (length log - n) log

keep_latest_lem : (n : ℕ) (log : List Event) → keep_latest n log ≡ latest n log
unfolding keep_latest latest
keep_latest_lem n log = elim (Bool-cases (ltb 0 (length log - n))) [
  | inl over ↦ rw over
  | inr fits ↦
      let none_over : length log - n ≡ 0 = omega (arith, not_ltb→le 0 (length log - n) fits) in
      rw (fits, none_over)
]

length-latest : (n : ℕ) (log : List Event) → length (latest n log) ≤ n
unfolding latest
length-latest n log = omega (arith, length-drop (length log - n) log)

latest_all : (n : ℕ) (log : List Event) → length log ≤ n → latest n log ≡ log
unfolding latest
latest_all n log h = let none_over : length log - n ≡ 0 = omega arith in rw none_over

-- What fell out of the window once is never seen again.
latest-latest :
    (n : ℕ) (log later : List Event) → latest n (latest n log ++ later) ≡ latest n (log ++ later)
unfolding latest
latest-latest n log later =
    let k = length log - n in
    let inside : drop k log ++ later ≡ drop k (log ++ later) =
      sym (drop-append k log later (omega arith)) in
    let counted : k + (length (drop k (log ++ later)) - n) ≡ length (log ++ later) - n =
      omega (arith, length-drop k (log ++ later), length-append log later) in
    ap (λ ys. drop (length ys - n) ys) inside
    ∙ sym (drop-add k (length (drop k (log ++ later)) - n) (log ++ later))
    ∙ ap (λ i. drop i (log ++ later)) counted

-- A bus whose history fits its bound, on which events are published one after the other, has as its
-- history the latest `max_history` entries of the old history followed by these events, in order and
-- never more than `max_history`, and each event was handed to the broadcast channel once, in order.
pub history-publish_all :
    (bus : EventBus) (events : List Event)
    → history_size bus ≤ bus.max_history
    → (history (publish_all bus events) ≡ latest bus.max_history (history bus ++ events))
      × (history_size (publish_all bus events) ≤ bus.max_history)
      × ((publish_all bus events).sent ≡ bus.sent ++ events)
unfolding publish_all publish history history_size
history-publish_all bus [] h =
    let whole = latest_all bus.max_history bus.event_history h in
    (rw (append-nil bus.event_history) (sym whole), h, rw (append-nil bus.sent))
history-publish_all bus (event ∷ events) h =
    let log = bus.event_history ++ event ∷ [] in
    let kept = keep_latest_lem bus.max_history log in
    let bounded : length (keep_latest bus.max_history log) ≤ bus.max_history =
      rw kept (length-latest bus.max_history log) in
    let rest = history-publish_all (publish bus event).0 events bounded in
    let seen =
      ap (λ ys. latest bus.max_history (ys ++ events)) kept
      ∙ latest-latest bus.max_history log events
      ∙ ap (latest bus.max_history) (append_assoc bus.event_history (event ∷ []) events) in
    (rest.0 ∙ seen, rest.1, rest.2 ∙ append_assoc bus.sent (event ∷ []) events)
