-- ===== src/Mux/Manager.antt =====
-- `ChannelManager` of desktop/protocol/src/mux.rs, one call at a time. The shared channels
-- (`Arc<RwLock<Channel>>`) stand in a heap, and a handle is a place in it.
pub mod Invariant
pub mod Numbers
pub mod Sections
use Prim.Native.String.{◌++◌ as append}
use bit_drive.Prelude.{
  get_or, ltb, ◌/◌, ◌%◌, ℕ, ◌+◌, ◌*◌, min, String, Bool, true, false, Option, none, some, List, [],
  ◌∷◌, ◌++◌, length, get_elem?, set, leb, ◌==◌, if◌then◌else◌, ◌%◌, ◌^◌,
}
use bit_drive.Prelude.Words.{u64}
use bit_drive.Prelude.Eq.{nat_eq}
use bit_drive.Prelude.Map.{Map, lookup, insert, remove}
use bit_drive.Errors.{Result, ok, err, invalid_argument, channel_not_found}
use bit_drive.Pb.Channel.{ChannelConfig, FlowControlUpdate}
use bit_drive.Frame.{value_or_zero}
use bit_drive.Mux.{Channel, new, closed, update_send_window}

pub data ChannelEvent : Type 0 where
  opened : ℕ → ChannelEvent
  closed_event : ℕ → ChannelEvent
  flow_control : ℕ → ℕ → ChannelEvent
  error_event : ℕ → String → ChannelEvent

abbrev pub max_channels : ℕ
max_channels = 16

-- `event_tx` holds the events that were handed to `try_send`, latest last. Its result is dropped.
pub record ChannelManager : Type 0 where
  pub channels : Map ℕ ℕ
  pub next_channel_id : ℕ
  pub event_tx : Option (List ChannelEvent)
  pub heap : List Channel

unfoldable pub empty : ChannelManager
empty = record { channels = []; next_channel_id = 1; event_tx = none; heap = [] }

unfoldable pub set_event_sender : ChannelManager → ChannelManager
set_event_sender m = record m { event_tx = some [] }

unfoldable pub send_to : ChannelEvent → Option (List ChannelEvent) → Option (List ChannelEvent)
send_to e none = none
send_to e (some sent) = some (sent ++ e ∷ [])

-- The number that `open_channel` tries.
abbrev pub wanted : ChannelManager → ChannelConfig → ℕ
wanted m config =
    let requested_id = value_or_zero config.channel_id in
    if requested_id == 0 then m.next_channel_id else requested_id

-- `format!("{}", n)` for a number below 100, as the number of a channel is where it is printed.
abbrev digit_text : ℕ → String
digit_text n = get_or ("0" ∷ "1" ∷ "2" ∷ "3" ∷ "4" ∷ "5" ∷ "6" ∷ "7" ∷ "8" ∷ "9" ∷ []) n ""

abbrev number_text : ℕ → String
number_text n =
    if ltb n 10 then digit_text n else append (digit_text (n / 10)) (digit_text (n % 10))

unfoldable pub exists_text : ℕ → String
exists_text channel_id = append "Channel " (append (number_text channel_id) " already exists")

-- The end of `open_channel`, for a number that is free.
unfoldable pub insert_channel : ChannelManager → ChannelConfig → ℕ → ChannelManager × Result ℕ
unfolding new send_to
insert_channel m config channel_id =
    let handle = length m.heap in
    (
      record {
        channels = insert channel_id handle m.channels;
        next_channel_id = min (channel_id + 1) max_channels;
        event_tx = send_to (opened channel_id) m.event_tx;
        heap = m.heap ++ new (record config { channel_id = some channel_id }) ∷ [];
      },
      ok handle,
    )

-- The test of the table, given what stands under the number.
unfoldable pub insert_free :
    ChannelManager → ChannelConfig → ℕ → Option ℕ → ChannelManager × Result ℕ
unfolding insert_channel
insert_free m config channel_id (some handle) = (m, err (invalid_argument (exists_text channel_id)))
insert_free m config channel_id none = insert_channel m config channel_id

-- The new manager and the handle of the new channel.
unfoldable pub open_channel : ChannelManager → ChannelConfig → ChannelManager × Result ℕ
unfolding insert_free
open_channel m config =
    let channel_id = wanted m config in
    if leb max_channels channel_id
    then (m, err (invalid_argument "Maximum channels reached"))
    else insert_free m config channel_id (lookup channel_id m.channels)

-- `get_channel`, a handle.
unfoldable pub get_channel : ChannelManager → ℕ → Option ℕ
get_channel m channel_id = lookup channel_id m.channels

-- A write through a handle.
unfoldable pub write_found : Option Channel → ℕ → (Channel → Channel) → List Channel → List Channel
write_found none handle f heap = heap
write_found (some ch) handle f heap = set heap handle (f ch)

unfoldable pub update_at : ℕ → (Channel → Channel) → List Channel → List Channel
unfolding write_found
update_at handle f heap = write_found (get_elem? heap handle) handle f heap

abbrev pub close : Channel → Channel
close ch = record ch { state = closed }

-- `close_channel` with what stands under the number.
unfoldable pub close_found : ChannelManager → ℕ → Option ℕ → ChannelManager × Result (Unit {0})
unfolding update_at send_to
close_found m channel_id none = (m, err (channel_not_found channel_id))
close_found m channel_id (some handle) = (
  record m {
    channels = remove channel_id m.channels;
    heap = update_at handle close m.heap;
    event_tx = send_to (closed_event channel_id) m.event_tx;
  },
  ok tt,
)

unfoldable pub close_channel : ChannelManager → ℕ → ChannelManager × Result (Unit {0})
unfolding close_found
close_channel m channel_id = close_found m channel_id (lookup channel_id m.channels)

-- The window that `handle_flow_control` reports.
window_at : List Channel → ℕ → ℕ
window_at heap handle = elim (get_elem? heap handle) [ none ↦ 0 | some ch ↦ ch.send_window ]

abbrev pub widen : ℕ → Channel → Channel
widen increment ch = update_send_window ch increment

-- `handle_flow_control` with what `get_channel` gives.
unfoldable pub widen_found : ChannelManager → ℕ → ℕ → Option ℕ → ChannelManager × Result (Unit {0})
unfolding update_at send_to window_at
widen_found m id increment none = (m, err (channel_not_found id))
widen_found m id increment (some handle) =
    let heap = update_at handle (widen increment) m.heap in
    (
      record m {
        heap = heap;
        event_tx = send_to (flow_control id (window_at heap handle)) m.event_tx;
      },
      ok tt,
    )

unfoldable pub handle_flow_control :
    ChannelManager → FlowControlUpdate → ChannelManager × Result (Unit {0})
unfolding get_channel widen_found
handle_flow_control m update =
    let id = value_or_zero update.channel_id in
    widen_found m id update.window_increment (get_channel m id)

-- `list_channels`: the handles in the table.
unfoldable pub handles : Map ℕ ℕ → List ℕ
handles [] = []
handles ((id, handle) ∷ rest) = handle ∷ handles rest

unfoldable pub list_channels : ChannelManager → List ℕ
unfolding handles
list_channels m = handles m.channels

count_at : (Channel → ℕ) → List Channel → ℕ → ℕ
count_at counter heap handle = elim (get_elem? heap handle) [ none ↦ 0 | some ch ↦ counter ch ]

-- `total_frames_sent` and its siblings: a sum, in a `u64`, of one counter over the table.
unfoldable pub total : (Channel → ℕ) → List Channel → List ℕ → ℕ
unfolding count_at
total counter heap [] = 0
total counter heap (handle ∷ rest) = u64 (count_at counter heap handle + total counter heap rest)

unfoldable pub total_frames_sent : ChannelManager → ℕ
unfolding total list_channels
total_frames_sent m = total (λ c. c.frames_sent) m.heap (list_channels m)

unfoldable pub total_frames_received : ChannelManager → ℕ
unfolding total list_channels
total_frames_received m = total (λ c. c.frames_received) m.heap (list_channels m)

unfoldable pub total_bytes_sent : ChannelManager → ℕ
unfolding total list_channels
total_bytes_sent m = total (λ c. c.bytes_sent) m.heap (list_channels m)

unfoldable pub total_bytes_received : ChannelManager → ℕ
unfolding total list_channels
total_bytes_received m = total (λ c. c.bytes_received) m.heap (list_channels m)
