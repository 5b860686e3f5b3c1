-- ===== src/Fixture/Capability.antt =====
-- `Capability` of fixture_profile.h. The parser casts any byte to it, so it is a byte, with names.
use esp_glow.Prelude.{ℕ}

abbrev pub Capability : Type 0
Capability = ℕ

abbrev pub dimmer : Capability
dimmer = 0

abbrev pub red : Capability
red = 1

abbrev pub green : Capability
green = 2

abbrev pub blue : Capability
blue = 3

abbrev pub white : Capability
white = 4

abbrev pub amber : Capability
amber = 5

abbrev pub uv : Capability
uv = 6

abbrev pub cyan : Capability
cyan = 7

abbrev pub magenta : Capability
magenta = 8

abbrev pub yellow : Capability
yellow = 9

abbrev pub pan : Capability
pan = 10

abbrev pub tilt : Capability
tilt = 11

abbrev pub shutter_strobe : Capability
shutter_strobe = 12

abbrev pub gobo : Capability
gobo = 13

abbrev pub focus : Capability
focus = 14

abbrev pub zoom : Capability
zoom = 15

abbrev pub fog : Capability
fog = 16

abbrev pub fan : Capability
fan = 17
