-- ===== src/Client/Network/Lines.antt =====
-- What `run_network` (crates/light-discord-client/src/net.rs) reports of lines that come whole.
mod Examples
use light_discord.Common.{
  All, List, Result, Text, [], ap, append-nil, append_assoc, ap₂, arith, false, length, none, refl,
  some, sym, ℕ, ◌++◌, ◌==◌, ◌∙◌, ◌∷◌, ◌≡◌,
}
use light_discord.Wire.Utf8.{from_utf8}
use light_discord.Protocol.{ClientFrame, ServerFrame}
use light_discord.Client.Commands.{ClientEvent, connected}
use light_discord.Client.Network.{
  Arrival, arrived, pause, read, read_line, Command, Network, Running, going, is_disconnect,
  send_commands, frame_event, receive_text, receive_line, receive_round, go_on, run_loop,
  run_network,
}

-- A line with its text, both without the newline that ends it, or a pause between two.
pub data Segment : Type 0 where
  line : List ℕ → Text → Segment
  gap : Segment

abbrev pub bytes_arrive : List ℕ → List Arrival → List Arrival
bytes_arrive [] arrivals = arrivals
bytes_arrive (b ∷ bytes) arrivals = arrived b ∷ bytes_arrive bytes arrivals

abbrev pub arrivals_of : List Segment → List Arrival
arrivals_of [] = []
arrivals_of (gap ∷ segments) = pause ∷ arrivals_of segments
arrivals_of (line bytes t ∷ segments) = bytes_arrive bytes (arrived 10 ∷ arrivals_of segments)

abbrev IsNotNewline : ℕ → Type 0
IsNotNewline b = (b == 10) ≡ false

abbrev pub IsSegment : Segment → Type 0
IsSegment gap = Unit {0}
IsSegment (line bytes t) = All IsNotNewline bytes × (from_utf8 (bytes ++ 10 ∷ []) ≡ some t)

-- The command is written, and is no `Disconnect`.
abbrev pub IsSent : Command → Type 0
IsSent command = (command.1 ≡ none) × (is_disconnect command.0 ≡ false)

abbrev pub frames_of : List Command → List ClientFrame
frames_of [] = []
frames_of (command ∷ commands) = command.0 ∷ frames_of commands

abbrev pub all_frames_of : List (List Command) → List ClientFrame
all_frames_of [] = []
all_frames_of (commands ∷ rounds) = frames_of commands ++ all_frames_of rounds

abbrev network : List ClientFrame → List ClientEvent → Running
network frames events = going (record { written = frames; events = events })

send_commands-IsSent :
    (commands : List Command) (net : Network)
    → All IsSent commands
    → send_commands commands net
      ≡ going (record net { written = net.written ++ frames_of commands })
unfolding send_commands
send_commands-IsSent [] net h =
    ap (λ w. going (record net { written = w })) (sym (append-nil net.written))
send_commands-IsSent ((frame, some e) ∷ commands) net h = absurd (ground (arith, h.0.0))
send_commands-IsSent ((frame, none) ∷ commands) net h = rw (h.0.1) (
    send_commands-IsSent commands (record net { written = net.written ++ frame ∷ [] }) h.1
    ∙ ap (λ w. going (record net { written = w }))
        (append_assoc net.written (frame ∷ []) (frames_of commands)))

-- A line that comes without a pause is read as a whole.
read_line-whole :
    (front bytes : List ℕ) (arrivals : List Arrival)
    → All IsNotNewline bytes
    → read_line front (bytes_arrive bytes (arrived 10 ∷ arrivals))
      ≡ (read (front ++ (bytes ++ 10 ∷ [])), arrivals)
unfolding read_line
read_line-whole front [] arrivals h = refl
read_line-whole front (b ∷ bytes) arrivals h = rw (h.0) (
    read_line-whole (front ++ b ∷ []) bytes arrivals h.1
    ∙ ap (λ l. (read l, arrivals)) (append_assoc front (b ∷ []) (bytes ++ 10 ∷ [])))

module _ (parse : Text → Result ServerFrame Text) where
  -- What is reported of a segment.
  abbrev pub events_of : List Segment → List ClientEvent
  events_of [] = []
  events_of (gap ∷ segments) = events_of segments
  events_of (line bytes t ∷ segments) = frame_event parse (parse t) ∷ events_of segments

  receive_line-whole :
      (bytes : List ℕ) (t : Text) (net : Network)
      → from_utf8 (bytes ++ 10 ∷ []) ≡ some t
      → receive_line parse (read (bytes ++ 10 ∷ [])) net
        ≡ going (record net { events = net.events ++ frame_event parse (parse t) ∷ [] })
  unfolding receive_line
  receive_line-whole [] t net e = ap (λ o. receive_text parse o net) e
  receive_line-whole (b ∷ bytes) t net e = ap (λ o. receive_text parse o net) e

  sent :
      (commands : List Command) (rounds : List (List Command)) (net : Network)
      (arrivals : List Arrival)
      → All IsSent commands
      → go_on parse
          (run_loop parse rounds)
          (receive_round parse arrivals (send_commands commands net))
        ≡ go_on parse (run_loop parse rounds) (
            receive_round parse arrivals
              (going (record net { written = net.written ++ frames_of commands })))
  sent commands rounds net arrivals c =
      ap (λ r. go_on parse (run_loop parse rounds) (receive_round parse arrivals r))
        (send_commands-IsSent commands net c)

  -- A loop that has a round for each segment, and whose commands are written, writes them in order
  -- and reports the lines in order.
  run_loop-lines :
      (segments : List Segment) (rounds : List (List Command)) (net : Network)
      → All IsSegment segments
      → All (All IsSent) rounds
      → length rounds ≡ length segments
      → run_loop parse rounds net (arrivals_of segments)
        ≡ going (record {
          written = net.written ++ all_frames_of rounds;
          events = net.events ++ events_of segments;
        })
  unfolding run_loop receive_round
  run_loop-lines [] [] net s c l =
      ap₂ network (sym (append-nil net.written)) (sym (append-nil net.events))
  run_loop-lines [] (commands ∷ rounds) net s c l = absurd (omega arith)
  run_loop-lines (segment ∷ segments) [] net s c l = absurd (omega arith)
  run_loop-lines (gap ∷ segments) (commands ∷ rounds) net s c l =
      sent commands rounds net (arrivals_of (gap ∷ segments)) c.0
      ∙ run_loop-lines segments rounds (record net { written = net.written ++ frames_of commands })
          s.1 c.1 (omega arith)
      ∙ ap (λ w. network w (net.events ++ events_of segments))
          (append_assoc net.written (frames_of commands) (all_frames_of rounds))
  run_loop-lines (line bytes t ∷ segments) (commands ∷ rounds) net s c l =
      let net' : Network = record net { written = net.written ++ frames_of commands } in
      let after : Network = record net' {
        events = net.events ++ frame_event parse (parse t) ∷ [];
      } in
      sent commands rounds net (arrivals_of (line bytes t ∷ segments)) c.0
      ∙ ap (λ r. go_on parse (run_loop parse rounds) (receive_line parse r.0 net', r.1))
          (read_line-whole [] bytes (arrivals_of segments) s.0.0)
      ∙ ap (λ r. go_on parse (run_loop parse rounds) (r, arrivals_of segments))
          (receive_line-whole bytes t net' s.0.1)
      ∙ run_loop-lines segments rounds after s.1 c.1 (omega arith)
      ∙ ap₂ network (append_assoc net.written (frames_of commands) (all_frames_of rounds))
          (append_assoc net.events (frame_event parse (parse t) ∷ []) (events_of segments))

  -- A thread that starts, whose frames are written, none of them a disconnection, and to which the
  -- lines of the server come whole, with pauses only between them, is still running after a round
  -- for each line and each pause: it has written the frame that authenticates and then the frames
  -- of its commands, all and in order, and has reported that it is connected and then each line,
  -- in order, as the frame that it holds or as a bad one.
  pub run_network-lines :
      (auth : ClientFrame) (segments : List Segment) (rounds : List (List Command))
      → All IsSegment segments
      → All (All IsSent) rounds
      → length rounds ≡ length segments
      → run_network parse none none none (auth, none) rounds (arrivals_of segments)
        ≡ going (record {
          written = auth ∷ all_frames_of rounds;
          events = connected ∷ events_of segments;
        })
  unfolding run_network
  run_network-lines auth segments rounds s c l =
      run_loop-lines segments rounds (record { written = auth ∷ []; events = connected ∷ [] }) s c l
