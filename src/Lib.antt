-- ===== src/Lib.antt =====
-- ExoBrowserCore: a browser that is split in two. The host (gutted-host-rs) runs the web engine and
-- sends pictures, sound and tab state; the client (gutted-client) draws them and sends input. The
-- two speak the binary protocol of gutted-proto. A frame is `varint TAG | varint LEN | payload`.
--
-- The parts and the files that model them:
--   Wire      gutted-proto/src/lib.rs: `write_varint`, `read_varint`, `write_*`, `read_*`. A write
--             takes the buffer to the longer buffer, or to `none` where the code panics; a read
--             takes a slice to a value and the rest, or to an `Error`.
--   Pixel     gutted-proto/src/lib.rs: `write_payload_geom`, `read_payload_geom` and what they call:
--             the spatial filter (Pixel/Filter), the half-resolution mode (Pixel/Scale) and the LZ4
--             block codec (Pixel/Lz4).
--   Message   gutted-proto/src/lib.rs: the message types (Types, Tag), `encode` (Encode), `decode`
--             (Decode/Frame, with one reader per arm of `decode_payload` in the files beside it),
--             the ranges of the fields (Valid), the round trips (RoundTrip) and the behaviour of
--             `decode` on parts of frames and on refused frames (Framing).
--   Client    gutted-client/src/render.rs: `RenderEvent` and `InputEvent` (Events), `AVClock`
--             (Clock), `encode_hello`, `encode_outbound_messages` and `ingest_wire_bytes` (Session),
--             with what happens to streams of frames (Stream, Ingest, Hello); the tabs and the
--             pending pictures of `BrowserCore` with `handle_render_event` (Core); `canonicalize_url`
--             (Url); and the input of the user (Ui): the window, pointer, wheel and address (Ui
--             itself), opening, closing and switching tabs (Moves), `on_key` (Keys),
--             `on_mouse_button` (Clicks), one input after another (Inputs) and mixed with events of
--             the host (Turns). Ui/Tabs is an abstract machine of the tabs, Ui/Steps shows that the
--             inputs are its steps, and Ui/Agree joins it with the handlers of Host. Render is the
--             part of `render_into` below the chrome.
--   Host      gutted-host-rs/src/main.rs: the differences of two frames (Diff), the tabs and frames
--             of `HostState` (State) with what it tells the engine and the viewers (Engine), the
--             event loop (Loop), the handlers of messages (Dispatch) and the reading of messages from
--             chunks of bytes (Reader), the bus (Bus), the video writers (Writer), and all turns in any
--             order (Session). Screen says what a viewer
--             draws of the frames, from the bytes that `encode` writes.
--   Common    names of the library, and tests, lists, bits and order on the native numbers.
--   Tests     the theorems at concrete inputs.
-- Client uses `encode` and `decode` of Message, which use Wire, and Pixel for the pixels. Host handles
-- and publishes the messages of Message. What the user does at a client reaches Host as messages.
--
-- The model. A `u8`, `u16`, `u32`, `u64` or `usize` is a natural number, and what wraps around is
-- written `% 2 ^ w`; `usize` has 64 bits, and an `i32` is an integer. `String` is the list of its UTF-8
-- bytes, and `from_utf8` is the check of Wire/Utf8. `&mut` arguments are passed and returned. The
-- time that `Instant::now()` gives is an argument. `ingest_wire_bytes` takes `handle_render_event` as a
-- parameter, a function on any state; Client/Core/Wire gives it the one of Client/Core/Handle. A
-- `BTreeMap` is an association list, and the fields of `BrowserCore` are grouped in records. Sides and
-- places that are not negative are natural numbers.
--
-- A `HashMap` of the host is an association list, a task's turn is a step on the shared state, and
-- the calls of the engine, the messages on the bus and the replies are lists of effects. Where an
-- alignment matters, the address of a buffer is a number. Zoom levels and scroll distances, which
-- the code turns into floating point, stay in their units.
--
-- Loops. `write_varint` and the loop for the length recurse on the value, which each round divides
-- by 128. `read_varint` has its five rounds. `ingest_wire_bytes` runs on fuel, the length of the
-- buffer: each message takes at least two bytes. The LZ4 loops run on the length of their input, of
-- which each round takes at least one byte. The loops that join changed rows run on the number of
-- rows, of which each round passes at least one, and the message loops of the host on fuel for each
-- message.
--
-- Not modelled: fonts and the drawing of the chrome, sound output and windows, sockets and threads,
-- certificates, the engine binding and the web bridge of the host, and the C and script files.
-- Allocation never fails in the model.
mod Tests
pub mod Common
pub mod Wire
pub mod Pixel
pub mod Message
pub mod Client
pub mod Host
