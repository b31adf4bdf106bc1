-- ===== src/Lib.antt =====
-- Verification of light-discord, a chat and voice program in Rust.
--
-- The program is a server (crates/light-discord-server/src/main.rs) that clients reach over TCP with
-- JSON frames, one per line, and over UDP with voice packets. The server keeps its connections, voice
-- rooms and screen shares in `InnerState`, calls a storage (crates/light-discord-storage/src/lib.rs, in
-- memory or in PostgreSQL) for accounts, invitations, sessions, messages and the audit log, and uses
-- crates/light-discord-auth/src/lib.rs for passwords and tokens. The protocol crate
-- (crates/light-discord-core/src/protocol.rs) holds the frames and the binary voice packet. The client
-- (crates/light-discord-client/src) shows what the frames of the server say, sends what its user does,
-- and has a thread for the network, a worker for the screen share and one for the voice, which stand on
-- crates/light-discord-platform/src: audio devices and the playback queue, the jitter buffer that orders
-- received packets, resampling, the identifiers of screens, and the store of the session token.
--
-- Which file models which part:
--   Common            shared notation: tests, lists, results, texts, maps as association lists,
--                     integers with i32 (Int), and decimal numbers (Decimal)
--   Protocol          the data of protocol.rs: messages, screen-share options, frames, defaults
--   Wire              the voice packet: encode_voice_packet_binary (Wire/Encode) and
--                     decode_voice_packet_binary (Wire/Decode, over the readers of Wire/Reader), UTF-8
--                     (Wire/Utf8) and little-endian integers (Wire/Bytes)
--   Voice/Jitter      JitterBuffer: new, push, pop; the BTreeMap is a list of entries by rising keys
--   Voice/Frames      drain_frames
--   Voice/Resample    resample_linear_mono
--   Audio             crates/light-discord-platform/src/audio.rs: the list of devices (Devices, over the
--                     groups of Group), PCM bytes (Pcm), channels (Channels), and the queue between the
--                     network and the output stream (Queue; Schedule says what its runs play;
--                     Playback prepares the frames)
--   Capture           fit_screen_share_dimensions, and the identifiers of sources (Sources), of
--                     crates/light-discord-platform/src/screen.rs
--   SessionToken      crates/light-discord-platform/src/session_token.rs: keyring and fallback files
--   Storage/Types     retention policy, accounts, results, display_name_key
--   Storage/Memory    MemoryStorage, one function per method, on the record MemoryInner
--                     (those on messages in Storage/Memory/Messages);
--                     Storage/Memory/Calls has its calls as data and the runs of them
--   Storage/Interface the methods of `Storage`, as a record over the state of the backend, and
--                     MemoryStorage as one
--   Storage/Postgres  PostgresStorage over tables, one function per method (Sessions, Messages); Calls
--                     has its calls as data, and the other files say how it agrees with MemoryStorage
--   Auth              the auth crate over SHA-256 and Argon2
--   Server/State      InnerState, and the sending of frames
--   Server/Chat, Voice, Codecs, Screen, Login   the methods of AppState and the free functions
--   Server/Bootstrap  bootstrap_auth, of the environment's variables
--   Server/Unchanged, Server/Sent   which handlers leave InnerState alone, and the frames they add
--   Server/Client     handle_client and run_voice_relay as steps on events, and runs of events
--   Client            LightDiscordApp of app.rs: Frames applies what the server sends, Commands is what
--                     the user does and what poll_network takes, Settings and Sharing are the worker of
--                     screen_share.rs; Accepted, Live, Offline and Shares state what holds of runs
--   Client/Network    run_network of net.rs; Lines states what it reports of whole lines
--   Client/Voice      run_voice_worker of voice.rs: Microphone sends, Legacy and Remotes receive; Numbered,
--                     Peers and Rounds state what holds of it
--
-- How the code is rendered. A `String` is a `Text`, the list of its Unicode scalar values; bytes are
-- numbers below 256; u16, u32, u64 and usize are natural numbers, with the wrap-around and the
-- saturation of the code written out where it has them. A method that takes the lock is a function of
-- the state. What the code reads from clocks and random generators is an argument: `now` and `new_id`
-- in the storage, the record `Draws` in the server. A frame that the server sends is appended to the
-- list `sent`, with the number of the channel that it goes to. A HashMap is an association list that
-- iterates in the order of first insertion, where Rust leaves the order open. The text of an error
-- frame is a constructor of `ErrorMessage` with the values that the code formats into it.
-- A handler of the server is one step: other tasks may run between two locks that a handler takes,
-- and such overlaps are not modelled. Each handler takes the write lock at most once.
--
-- A table of the database is a list of rows; a statement that the code sends is a function of the
-- tables, with the constraints of migrations/0001_init.sql written out, and no statement fails for
-- another reason. Rows of one time come in the order of the table, where ORDER BY leaves it open; no result
-- says how they are ordered.
--
-- Fuel is used in Voice/Jitter/Drain and Client/Voice/Remotes, for the loops that pop until the buffer
-- is empty, where one round more than the numbers from the expected one to the last that waits is
-- enough (Voice/Jitter/Ends); in Voice/Frames, where as many rounds as samples are enough; in Wire/Utf8,
-- where as many as bytes are; and in Common/Decimal, where a number needs no more digits than itself and
-- one. All other loops are structural.
--
-- Parameters, since their code is elsewhere: SHA-256, Argon2 and the parser of its hashes (the record
-- `Hashes` of Auth); the lower case of the database; the keyring and the file system; the decoders of
-- base64 and of images; the devices that cpal lists; the Opus codec, the filters with the noise gate and
-- the loudness of samples in Client/Voice. The server is over any `Storage`. JSON is parsed
-- outside.
--
-- Not modelled: sockets, timers and threads; the views and the fonts of the client; the limit of
-- sixteen datagrams a round and the ducking of the voice worker; the streams of cpal and the capture of
-- pixels; the filters in floating point; the connection to PostgreSQL, whose tables do not fill the
-- `Storage` that the server is over; scripts and deployment.
pub mod Audio
pub mod Auth
pub mod Capture
pub mod Client
pub mod Common
pub mod Protocol
pub mod Server
pub mod SessionToken
pub mod Storage
pub mod Voice
pub mod Wire
