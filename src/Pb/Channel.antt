-- ===== src/Pb/Channel.antt =====
-- `ChannelConfig`, `FlowControlUpdate` and the enumerations of channels.
use bit_drive.Prelude.{ℕ, String, Option, none, some, ◌==◌, if◌then◌else◌}
use bit_drive.Prelude.Map.{Map}

pub record ChannelConfig : Type 0 where
  pub channel_id : Option ℕ
  pub type : ℕ
  pub priority : ℕ
  pub send_window : ℕ
  pub receive_window : ℕ
  pub max_frame_size : ℕ
  pub service_id : String
  pub metadata : Map String String

pub record FlowControlUpdate : Type 0 where
  pub channel_id : Option ℕ
  pub window_increment : ℕ

pub data ChannelType : Type 0 where
  control data_channel stream urgent : ChannelType

pub data ChannelPriority : Type 0 where
  priority_low priority_normal priority_high priority_critical : ChannelPriority

abbrev pub channel_type_as_i32 : ChannelType → ℕ
channel_type_as_i32 control = 0
channel_type_as_i32 data_channel = 1
channel_type_as_i32 stream = 2
channel_type_as_i32 urgent = 3

abbrev pub priority_as_i32 : ChannelPriority → ℕ
priority_as_i32 priority_low = 0
priority_as_i32 priority_normal = 1
priority_as_i32 priority_high = 2
priority_as_i32 priority_critical = 3

-- `ChannelType::try_from(n)`
abbrev pub channel_type_try_from : ℕ → Option ChannelType
channel_type_try_from n =
    if n == 0
    then some control
    else if n == 1
    then some data_channel
    else if n == 2
    then some stream
    else if n == 3
    then some urgent
    else none

-- `ChannelPriority::try_from(n)`
abbrev pub priority_try_from : ℕ → Option ChannelPriority
priority_try_from n =
    if n == 0
    then some priority_low
    else if n == 1
    then some priority_normal
    else if n == 2
    then some priority_high
    else if n == 3
    then some priority_critical
    else none
