-- ===== src/Client/Network.antt =====
-- `run_network` of crates/light-discord-client/src/net.rs. What comes from the server is a list of
-- arrivals; `parse` is serde_json on a line. What comes of each write is an argument, and so are the
-- commands that wait in each round of the loop.
pub mod Lines
use light_discord.Common.{
  Bool, List, Option, Result, Text, [], err, false, if◌then◌else◌, none, not, ok, some, text, true,
  ℕ, ◌++◌, ◌==◌, ◌∷◌,
}
use light_discord.Wire.Utf8.{from_utf8}
use light_discord.Protocol.{ClientFrame, disconnect, ServerFrame}
use light_discord.Client.Commands.{ClientEvent, connected, disconnected, server, failed}

-- A byte, a read timeout of 100 ms without one, or an error of the socket. After the last arrival the
-- server has closed the connection.
pub data Arrival : Type 0 where
  arrived : ℕ → Arrival
  pause : Arrival
  broken : Text → Arrival

-- What `read_line` answers: `Ok` with the bytes, none of them at the end; a timeout; another error.
pub data ReadLine : Type 0 where
  read : List ℕ → ReadLine
  timed_out : ReadLine
  read_failed : Text → ReadLine

-- `read_line`, `line` being what it has read. On an error what it has
-- read is in the `line` of the round, which the code drops.
unfoldable pub read_line : List ℕ → List Arrival → ReadLine × List Arrival
read_line line [] = (read line, [])
read_line line (pause ∷ arrivals) = (timed_out, arrivals)
read_line line (broken e ∷ arrivals) = (read_failed e, arrivals)
read_line line (arrived b ∷ arrivals) =
    let rest = read_line (line ++ b ∷ []) arrivals in
    if b == 10 then (read (line ++ b ∷ []), arrivals) else rest

-- A frame to send, and the error of writing it, if there is one.
abbrev pub Command : Type 0
Command = ClientFrame × Option Text

-- What has been written and reported.
pub record Network : Type 0 where
  pub written : List ClientFrame
  pub events : List ClientEvent

-- The thread goes on, or has returned.
pub data Running : Type 0 where
  going : Network → Running
  returned : Network → Running

abbrev pub report : ClientEvent → Network → Network
report event net = record net { events = net.events ++ event ∷ [] }

abbrev pub written_frame : ClientFrame → Network → Network
written_frame frame net = record net { written = net.written ++ frame ∷ [] }

abbrev pub is_disconnect : ClientFrame → Bool
is_disconnect disconnect = true
is_disconnect frame = false

-- `while let Ok(frame) = command_rx.try_recv()`
unfoldable pub send_commands : List Command → Network → Running
send_commands [] net = going net
send_commands ((frame, some e) ∷ commands) net =
    returned (report (failed (text "send failed: " ++ e)) net)
send_commands ((frame, none) ∷ commands) net =
    let net' = written_frame frame net in
    let rest = send_commands commands net' in
    if is_disconnect frame
    then returned (report (disconnected (text "closed by client")) net')
    else rest

module _ (parse : Text → Result ServerFrame Text) where
  abbrev pub frame_event : Result ServerFrame Text → ClientEvent
  frame_event (ok frame) = server frame
  frame_event (err e) = failed (text "bad server frame: " ++ e)

  -- A line that is no UTF-8 is an error of `read_line`.
  abbrev pub receive_text : Option Text → Network → Running
  receive_text none net =
      returned
        (report (disconnected (text "network error: stream did not contain valid UTF-8")) net)
  receive_text (some line) net = going (report (frame_event (parse line)) net)

  unfoldable pub receive_line : ReadLine → Network → Running
  unfolding from_utf8
  receive_line (read []) net = returned (report (disconnected (text "server closed")) net)
  receive_line (read (b ∷ bytes)) net = receive_text (from_utf8 (b ∷ bytes)) net
  receive_line timed_out net = going net
  receive_line (read_failed e) net =
      returned (report (disconnected (text "network error: " ++ e)) net)

  -- The reading half of a round, of a thread that may have returned.
  unfoldable pub receive_round : List Arrival → Running → Running × List Arrival
  unfolding read_line receive_line
  receive_round arrivals (returned net) = (returned net, arrivals)
  receive_round arrivals (going net) =
      let (line, rest) = read_line [] arrivals in (receive_line line net, rest)

  abbrev pub go_on : (Network → List Arrival → Running) → Running × List Arrival → Running
  go_on loop (returned net, arrivals) = returned net
  go_on loop (going net, arrivals) = loop net arrivals

  -- The loop, for as many rounds as there are lists of commands.
  unfoldable pub run_loop : List (List Command) → Network → List Arrival → Running
  unfolding send_commands receive_round
  run_loop [] net arrivals = going net
  run_loop (commands ∷ rounds) net arrivals =
      go_on (run_loop rounds) (receive_round arrivals (send_commands commands net))

  -- How the start of the thread goes: an error, before which nothing is done, or none.
  unfoldable pub run_network :
      Option Text
      → Option Text
      → Option Text
      → Command
      → List (List Command)
      → List Arrival
      → Running
  unfolding run_loop
  run_network (some e) timeout clone auth rounds arrivals =
      returned (record { written = []; events = failed (text "connect failed: " ++ e) ∷ [] })
  run_network none (some e) clone auth rounds arrivals =
      returned
        (record { written = []; events = failed (text "read timeout setup failed: " ++ e) ∷ [] })
  run_network none none (some e) auth rounds arrivals =
      returned (record { written = []; events = failed (text "stream clone failed: " ++ e) ∷ [] })
  run_network none none none (frame, some e) rounds arrivals =
      returned (record { written = []; events = failed (text "authentication failed: " ++ e) ∷ [] })
  run_network none none none (frame, none) rounds arrivals =
      run_loop rounds (record { written = frame ∷ []; events = connected ∷ [] }) arrivals
