-- ===== src/Midi.antt =====
-- The MIDI input path: the byte reader of midi_realtime.cpp, the message parser of live_control.cpp,
-- and the USB packets of usb_midi_packetizer.cpp.
pub mod Event
pub mod Parse
pub mod Reader
pub mod Packets
mod Tests
