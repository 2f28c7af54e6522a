-- ===== src/Pb/FrameType.antt =====
-- `FrameType` and the conversions that prost derives for it.
use bit_drive.Prelude.{ℕ, ◌<◌, ◌≡◌, refl, Option, none, some, ◌==◌, if◌then◌else◌, arith}

-- `Data`, `Control` and `Error` are `data_frame`, `control_frame` and `error_frame`.
pub data FrameType : Type 0 where
  data_frame data_fragment data_end : FrameType
  control_frame : FrameType
  session_open session_open_ack session_close session_close_ack : FrameType
  keepalive keepalive_ack : FrameType
  capability_negotiate capability_ack : FrameType
  auth_challenge auth_response auth_success auth_failure auth_key_confirm : FrameType
  channel_open channel_open_ack channel_close channel_close_ack : FrameType
  flow_control : FrameType
  service_register service_unregister service_discover service_discover_resp : FrameType
  error_frame : FrameType

-- `frame_type as i32`
unfoldable pub as_i32 : FrameType → ℕ
as_i32 data_frame = 0
as_i32 data_fragment = 1
as_i32 data_end = 2
as_i32 control_frame = 10
as_i32 session_open = 20
as_i32 session_open_ack = 21
as_i32 session_close = 22
as_i32 session_close_ack = 23
as_i32 keepalive = 30
as_i32 keepalive_ack = 31
as_i32 capability_negotiate = 40
as_i32 capability_ack = 41
as_i32 auth_challenge = 50
as_i32 auth_response = 51
as_i32 auth_success = 52
as_i32 auth_failure = 53
as_i32 auth_key_confirm = 54
as_i32 channel_open = 60
as_i32 channel_open_ack = 61
as_i32 channel_close = 62
as_i32 channel_close_ack = 63
as_i32 flow_control = 70
as_i32 service_register = 80
as_i32 service_unregister = 81
as_i32 service_discover = 82
as_i32 service_discover_resp = 83
as_i32 error_frame = 255

-- `FrameType::try_from(n)`, in two halves.
try_from_high : ℕ → Option FrameType
try_from_high n =
    if n == 51
    then some auth_response
    else if n == 52
    then some auth_success
    else if n == 53
    then some auth_failure
    else if n == 54
    then some auth_key_confirm
    else if n == 60
    then some channel_open
    else if n == 61
    then some channel_open_ack
    else if n == 62
    then some channel_close
    else if n == 63
    then some channel_close_ack
    else if n == 70
    then some flow_control
    else if n == 80
    then some service_register
    else if n == 81
    then some service_unregister
    else if n == 82
    then some service_discover
    else if n == 83
    then some service_discover_resp
    else if n == 255
    then some error_frame
    else none

unfoldable pub try_from : ℕ → Option FrameType
unfolding try_from_high
try_from n =
    if n == 0
    then some data_frame
    else if n == 1
    then some data_fragment
    else if n == 2
    then some data_end
    else if n == 10
    then some control_frame
    else if n == 20
    then some session_open
    else if n == 21
    then some session_open_ack
    else if n == 22
    then some session_close
    else if n == 23
    then some session_close_ack
    else if n == 30
    then some keepalive
    else if n == 31
    then some keepalive_ack
    else if n == 40
    then some capability_negotiate
    else if n == 41
    then some capability_ack
    else if n == 50
    then some auth_challenge
    else try_from_high n

pub try_from-as_i32 : (t : FrameType) → try_from (as_i32 t) ≡ some t
unfolding try_from as_i32
try_from-as_i32 data_frame = refl
try_from-as_i32 _ = refl

pub as_i32-lt : (t : FrameType) → as_i32 t < 256
unfolding as_i32
as_i32-lt data_frame = omega arith
as_i32-lt _ = omega arith

try_from_high_sound : (n : ℕ) {t : FrameType} → try_from_high n ≡ some t → as_i32 t ≡ n
unfolding try_from_high as_i32
try_from_high_sound n h = ground arith

-- Only the number of a frame type is read as that type.
pub try_from_sound : (n : ℕ) {t : FrameType} → try_from n ≡ some t → as_i32 t ≡ n
unfolding as_i32
try_from_sound n h = unfold try_from in ground (arith, try_from_high_sound n)
