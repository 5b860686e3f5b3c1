-- ===== src/Mdef.antt =====
-- mdef.cpp: the profile of a MIDI controller, and the questions asked of it.
pub mod Parse
pub mod Lookup
mod Tests
use esp_glow.Prelude.{ℕ, Bool, List}

-- `kChannelAgnostic`, a uint8_t of 0xFF
abbrev pub channel_agnostic : ℕ
channel_agnostic = 0xff

pub data EncoderMode : Type 0 where
  absolute relative_2c relative_sign_mag : EncoderMode

pub data LedMsgType : Type 0 where
  note cc : LedMsgType

pub data LedSemantic : Type 0 where
  velocity value : LedSemantic

pub record PadRange : Type 0 where
  pub note_from : ℕ
  pub note_to : ℕ
  pub channel_from : ℕ
  pub channel_to : ℕ

pub record FaderRange : Type 0 where
  pub cc_from : ℕ
  pub cc_to : ℕ
  pub name_off : ℕ
  pub channel_from : ℕ
  pub channel_to : ℕ

pub record EncoderRange : Type 0 where
  pub cc_from : ℕ
  pub cc_to : ℕ
  pub mode : EncoderMode

pub record ColorEntry : Type 0 where
  pub name_off : ℕ
  pub value : ℕ

pub record LedRange : Type 0 where
  pub msg_type : LedMsgType
  pub addr_from : ℕ
  pub addr_to : ℕ
  pub semantic : LedSemantic
  pub color_offset : ℕ
  pub color_count : ℕ
  pub channel_from : ℕ
  pub channel_to : ℕ

-- Each array with its count is a list, each init blob its bytes.
pub record MidiControllerProfile : Type 0 where
  pub midi_channel : ℕ
  pub pads : List PadRange
  pub faders : List FaderRange
  pub encoders : List EncoderRange
  pub leds : List LedRange
  pub colors : List ColorEntry
  pub init_blobs : List (List ℕ)
  pub name_blob : List ℕ
