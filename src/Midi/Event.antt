-- ===== src/Midi/Event.antt =====
-- live_control.h: the event that every input parses to.
use esp_glow.Prelude.{ℕ, Bool, ◌≡◌, arith}

pub data ControlType : Type 0 where
  button fader aftertouch pitch_bend program : ControlType

pub record ControlEvent (F : Type 0) : Type 0 where
  pub type : ControlType
  pub id : ℕ
  pub channel : ℕ
  pub pressed : Bool
  pub value : F

pub ControlType-discrete : Discrete ControlType
ControlType-discrete = hlevel

abbrev pub same_type : ControlType → ControlType → Bool
same_type button button = Bool.true
same_type fader fader = Bool.true
same_type aftertouch aftertouch = Bool.true
same_type pitch_bend pitch_bend = Bool.true
same_type program program = Bool.true
same_type _ _ = Bool.false

pub same_type-eq : (a b : ControlType) → same_type a b ≡ Bool.true → a ≡ b
same_type-eq a b h = ground arith
