-- ===== src/Lib.antt =====
-- esp-glow: a lighting controller for the ESP32 that turns live input into DMX and Art-Net frames.
--
-- How the parts interact. Input tasks read MIDI bytes (midi_realtime.cpp), MIDI messages
-- (live_control.cpp) and DJ Link packets (djlink_parser.cpp, djlink_master_tracker.cpp) and push
-- events into bounded queues (control_queue.cpp, beat_queue.cpp, eval_queue.cpp). Once a frame the
-- render task drains the queues, lets the show controller (show_control.cpp) blend the active cues
-- into intents, and sends the frames to the DMX mailbox (dmx_frame_buffer.cpp) and the Art-Net
-- router (artnet_router.cpp).
--
-- Which file models which part.
-- Prelude and its children: shared names, tests, list lemmas, parser outcomes, bit lemmas and
-- floats.
-- Queue: the ring that RingControlEventQueue, RingBeatEventQueue and RingEvalSubmissionQueue have
-- in common (push, pop, size), for any element type; Queue/Bounded is the abstract list, Queue/Inv
-- the invariant, Queue/Refine the refinement, Queue/Pump pumpControlEvents, Queue/Beat and
-- Queue/Eval the two other queues and makeEvalSubmission.
-- Midi: Midi/Reader is MidiByteReader::feed, Midi/Parse is parseMidi, Midi/Packets is
-- packUsbMidiEventPackets.
-- Show: Show/Control is ShowController with its cues and scenes; Show/Control/Evaluate and its
-- children are ShowController::evaluate, and Blend, Settle, State and Fade hold what is proved of
-- it. Show/Patch is the state of Show (show.cpp) and its patch, Show/Render a frame of it and
-- safeBlackoutCore; it calls the functions of Fixture/Apply on the universes.
-- Fixture: Fixture/Capability and Fixture/Profile are the types of fixture_profile.h;
-- Fixture/Parse is parseProfile, Fixture/Apply the functions that write slots (applyCapability,
-- applyDefaults, applyRangeByName, applyRangeByIndex), Fixture/Ranges the range queries,
-- Fixture/Encode the ProfileBuilder of profile_encoder.cpp.
-- DeviceConfig: parseDeviceConfig and devcfgCrc32 of device_config.cpp; DeviceConfig/Encode is
-- encodeDeviceConfig of device_config_encoder.cpp.
-- Osc: osc_parser.cpp, with the eight levels of nested bundles as structural recursion; the loop
-- over a bundle has as many rounds as the packet has bytes, and each round but the last passes at
-- least five bytes.
-- Dmx: DmxFrameBuffer. ArtNet: ArtNet/Packet is buildArtDmxPacket and buildArtSyncPacket,
-- ArtNet/Router is ArtNetRouter, ArtNet/Discovery is artnet_discovery.cpp.
-- Mdef: Mdef/Parse is parseMidiController, Mdef/Lookup the find functions, ledColorValueByName,
-- resolvePadXY and decodeEncoderDelta of mdef.cpp. Live: LiveControl of live_control.cpp, which
-- holds the show controller.
-- Pacing: paceNextFrame of render_pacing.cpp.
-- DjLink: DjLink/Parse is djlink_parser.cpp, DjLink/Master is djlink_master_tracker.cpp.
--
-- Conventions. A byte is a natural number, a buffer of len bytes is a list of that length, and a
-- read outside the storage is the outcome fault; a write of the MIDI byte reader outside its
-- buffer leaves no buffer. Numbers that the code keeps in w bits are taken modulo 2^w; size_t has
-- 32 bits, as on the device, and its width is a parameter in Osc, where sums wrap around. Floats
-- are a type with the operations that the code uses; a theorem that needs a law of them names it
-- as a hypothesis, and runs at concrete inputs use thousandths. A mutex or critical section makes
-- a call one step, so the interleavings of the tasks are the sequences of calls. Loops are
-- structural recursion; pack_from is given as many rounds as there are bytes, and each round takes
-- at least one. The pump takes at most the rounds of its frame, as the code does.
--
-- Not modelled: the script engine and its bindings (third-party Lua and Fennel), sockets, UART,
-- USB and FreeRTOS calls, the web console and the provisioning tool, board start-up, and floating-
-- point numerics such as the beat clock. The aiming of moving heads, which the rendering takes as
-- a parameter, the encoder of controller profiles, the show bundle, pixel matrices and LED
-- feedback are not modelled either. The sort of evaluate is an insertion sort; std::sort gives the
-- same order where no two active cues have both priority and activation number in common.
pub mod Prelude
pub mod Queue
pub mod Midi
pub mod Fixture
pub mod Show
pub mod DeviceConfig
pub mod Dmx
pub mod ArtNet
pub mod DjLink
pub mod Mdef
pub mod Live
pub mod Pacing
pub mod Osc
