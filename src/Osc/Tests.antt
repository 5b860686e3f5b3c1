-- ===== src/Osc/Tests.antt =====
-- Runs of the OSC parser.
use esp_glow.Prelude.{ℕ, ◌*◌, ◌≤◌, ◌≡◌, refl, arith, false, List, [], ◌∷◌, ◌++◌, length}
use esp_glow.Prelude.Int.{ℤ, pos, negsuc}
use esp_glow.Prelude.Float.{milli}
use esp_glow.Prelude.Bytes.{bytes_test_lem}
use esp_glow.Prelude.Outcome.{ok, fault, read, Succeeds}
use esp_glow.Midi.Event.{ControlEvent, button, fader}
use esp_glow.Osc.{OscBinding, OscFloat, parse_osc, parse_osc_packet}
use esp_glow.Osc.Safe.{parse_osc_packet_lem}

-- A float is in thousandths, and so are the bits of one.
abbrev thousandths_of : ℤ → ℕ
thousandths_of (pos n) = n * 1000
thousandths_of (negsuc n) = 0

abbrev thousandths : OscFloat ℕ
thousandths = record { of_bits = λ n. n; of_int = thousandths_of }

abbrev map : List OscBinding
map =
    record { address = 47 ∷ 97 ∷ []; type = button; id = 3 }
    ∷ record { address = 47 ∷ 98 ∷ []; type = fader; id = 4 }
    ∷ []

-- "/b", one int of 127
abbrev message : List ℕ
message = 47 ∷ 98 ∷ 0 ∷ 0 ∷ 44 ∷ 105 ∷ 0 ∷ 0 ∷ 0 ∷ 0 ∷ 0 ∷ 127 ∷ []

abbrev moved : ControlEvent ℕ
moved = record { type = fader; id = 4; channel = 0; pressed = false; value = 1000 }

message_run : parse_osc ⦃fl = milli⦄ thousandths message 12 map ≡ ok moved
unfolding parse_osc read
message_run = refl

-- a bundle: the marker, a time tag, and its elements
abbrev bundle : List ℕ → List ℕ
bundle elements =
    35 ∷ 98 ∷ 117 ∷ 110 ∷ 100 ∷ 108 ∷ 101 ∷ 0 ∷ 0 ∷ 0 ∷ 0 ∷ 0 ∷ 0 ∷ 0 ∷ 0 ∷ 1 ∷ elements

abbrev two_messages : List ℕ
two_messages = bundle ((0 ∷ 0 ∷ 0 ∷ 12 ∷ message) ++ (0 ∷ 0 ∷ 0 ∷ 12 ∷ message))

two_messages_run :
    parse_osc_packet ⦃fl = milli⦄ thousandths 64 map two_messages (length two_messages)
    ≡ ok (moved ∷ moved ∷ [])
unfolding parse_osc_packet read
two_messages_run = refl

parse_osc_packet_example :
    Succeeds
      (λ es. 12 * length es ≤ length two_messages)
      (parse_osc_packet ⦃fl = milli⦄ thousandths 64 map two_messages (length two_messages))
parse_osc_packet_example =
    parse_osc_packet_lem ⦃fl = milli⦄ thousandths 64 map two_messages
      (bytes_test_lem two_messages refl) (omega arith)

-- A bundle whose element claims 2^32 - 1 bytes. With a `size_t` of 32 bits the test of its end wraps around,
-- and the element is read behind the packet.
abbrev huge_element : List ℕ
huge_element = bundle (255 ∷ 255 ∷ 255 ∷ 255 ∷ [])

huge_element_run_32 :
    parse_osc_packet ⦃fl = milli⦄ thousandths 32 map huge_element (length huge_element) ≡ fault
unfolding parse_osc_packet read
huge_element_run_32 = refl

huge_element_run_64 :
    parse_osc_packet ⦃fl = milli⦄ thousandths 64 map huge_element (length huge_element) ≡ ok []
unfolding parse_osc_packet read
huge_element_run_64 = refl
