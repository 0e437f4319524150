-- ===== src/Info.antt =====
-- The state of the program: `struct info` of src/info.h with the structures that it points to,
-- `struct scpi_core` of src/scpi_core.h and `struct cgr101` of src/cgr101.c. A C int that holds 0 or
-- 1 is a Bool, and `F` is double. An array of C that the code indexes within asserted bounds is a
-- function from index to element.
pub mod Actions
use cgr101_scpi.Prelude.{ℕ, Bool, true, false, List, []}
use cgr101_scpi.ErrorQueue.{ErrQueue}
use cgr101_scpi.ErrorQueue
use cgr101_scpi.Output.{Output, Text}
use cgr101_scpi.Output
use cgr101_scpi.Event.{Pipe}

-- `enum cgr101_rcv_state`
pub data RcvState : Type 0 where
  idle identify digital_read scope_offset scope_status scope_read scope_addr : RcvState
  scope_data error_msg interrupt_msg : RcvState

-- `enum cgr101_identify_state`, and the states of the same three names for the digital input, the
-- scope status and the device error.
pub data Progress : Type 0 where
  idle pending complete : Progress

-- `enum cgr101_scope_offset_state` and `enum cgr101_scope_data_state`
pub data ByteState : Type 0 where
  idle expect_a_high expect_b_high expect_a_low expect_b_low complete : ByteState

-- `enum cgr101_scope_addr_state`
pub data AddrState : Type 0 where
  idle expect_high expect_low complete : AddrState

-- `enum cgr101_scope_trigger_source`
pub data TriggerSource : Type 0 where
  int ext imm : TriggerSource

-- `enum cgr101_waveform_shape`
pub data WaveformShape : Type 0 where
  shape_none shape_rand shape_sin shape_squ shape_tri shape_user : WaveformShape

-- `struct digital_event`: the time in seconds and microseconds, and the data.
pub record DigitalEvent : Type 0 where
  pub tv_sec : ℕ
  pub tv_usec : ℕ
  pub value : ℕ

-- The element of `scope.channel[]`.
pub record Channel (F : Type 0) : Type 0 where
  pub input_low : F
  pub input_high : F
  pub input_midpoint : F
  pub input_ptp : F
  pub input_low_range : Bool
  pub offset_low : F
  pub offset_high : F
  pub enable : Bool
  pub samples : ℕ → ℕ

-- The oscilloscope part of `struct cgr101`; its two channels are `channel_a` and `channel_b`.
pub record Scope (F : Type 0) : Type 0 where
  pub offset_state : ByteState
  pub sweep_time : F
  pub sample_rate_divisor : ℕ
  pub internal_trigger_source : Bool
  pub trigger_polarity : Bool
  pub trigger_external : Bool
  pub trigger_filter_disable : Bool
  pub status_state : Progress
  pub status : ℕ
  pub trigger_level : F
  pub trigger_source : TriggerSource
  pub trigger_offset : F
  pub trigger_ref : F
  pub addr_state : AddrState
  pub addr : ℕ
  pub data_state : ByteState
  pub data_count : ℕ
  pub output_pending : Bool
  pub output_mask : ℕ
  pub channel_a : Channel F
  pub channel_b : Channel F

-- The digital event part of `struct cgr101`. The mode is a character, and the log the first
-- `current` elements of `data`, whose length is `max`.
pub record Events : Type 0 where
  pub chan_mask : ℕ
  pub mode : ℕ
  pub log : List DigitalEvent
  pub max : ℕ
  pub output_pending : Bool

pub record Waveform (F : Type 0) : Type 0 where
  pub shape : WaveformShape
  pub user : List F
  pub frequency : F
  pub amplitude : F

pub record Pwm (F : Type 0) : Type 0 where
  pub frequency : F
  pub duty_cycle : F

-- `struct cgr101`; the device id and the error message are the bytes stored so far.
pub record Device (F : Type 0) : Type 0 where
  pub identify_state : Progress
  pub identify_output_requested : Bool
  pub device_id : Text
  pub rcv_state : RcvState
  pub sent : Bool
  pub digital_read_state : Progress
  pub digital_read_requested : Bool
  pub digital_read_data : ℕ
  pub error_state : Progress
  pub error_msg : Text
  pub digital_write_data : ℕ
  pub waveform : Waveform F
  pub scope : Scope F
  pub event : Events
  pub pwm : Pwm F

-- `struct scpi_reg`, without the transition filters that no code uses.
pub record Reg : Type 0 where
  pub cond : ℕ
  pub event : ℕ
  pub enable : ℕ

-- `struct scpi_core`
pub record Core : Type 0 where
  pub ques : Reg
  pub oper : Reg
  pub seser : ℕ
  pub sesr : ℕ
  pub sbr : ℕ
  pub srer : ℕ
  pub opcq : Bool

-- `struct info`. `link` says whether the device takes what is written to it, and `written` are the
-- commands that it took, in order: they stand for the pipe to the child process.
pub record Info (F : Type 0) : Type 0 where
  pub quit : Bool
  pub overlapped : Bool
  pub block_input : Bool
  pub enable_flash_writes : Bool
  pub sweep_status : Bool
  pub digital_event_status : Bool
  pub offset_status : Bool
  pub scpi : Core
  pub output : Output
  pub error : ErrQueue
  pub event : Pipe
  pub device : Device F
  pub link : Bool
  pub written : List Text
