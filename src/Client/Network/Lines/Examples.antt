-- ===== src/Client/Network/Lines/Examples.antt =====
-- Lines of a server that come whole, and one that comes in two parts.
use light_discord.Common.{All, List, Result, Text, [], err, none, ok, refl, text, ◌∷◌, ◌≡◌}
use light_discord.Wire.Utf8.{from_utf8}
use light_discord.Protocol.{hello, join_channel, ServerFrame, channel_joined}
use light_discord.Client.Commands.{connected, disconnected, server, failed}
use light_discord.Client.Network.{
  arrived, pause, Command, going, returned, read_line, send_commands, receive_line, receive_round,
  run_loop, run_network,
}
use light_discord.Client.Network.Lines.{
  Segment, line, gap, arrivals_of, IsSegment, run_network-lines,
}

-- A line of at least three characters, with its newline, is a frame.
abbrev parse : Text → Result ServerFrame Text
parse (a ∷ b ∷ c ∷ rest) = ok (channel_joined (a ∷ b ∷ []))
parse t = err (text "EOF")

abbrev segments : List Segment
segments = line (104 ∷ 105 ∷ []) (text "hi\n") ∷ gap ∷ line (120 ∷ []) (text "x\n") ∷ []

abbrev rounds : List (List Command)
rounds = ((join_channel (text "general"), none) ∷ []) ∷ [] ∷ [] ∷ []

segments-IsSegment : All IsSegment segments
unfolding from_utf8
segments-IsSegment = (((refl, (refl, tt)), refl), (tt, (((refl, tt), refl), tt)))

run_network-lines_example :
    run_network parse none none none (hello (text "Ann"), none) rounds (arrivals_of segments)
    ≡ going (record {
      written = hello (text "Ann") ∷ join_channel (text "general") ∷ [];
      events =
          connected
          ∷ server (channel_joined (text "hi"))
          ∷ failed (text "bad server frame: EOF")
          ∷ [];
    })
run_network-lines_example =
    run_network-lines parse (hello (text "Ann")) segments rounds segments-IsSegment
      (((refl, refl), tt), (tt, (tt, tt))) refl

-- The line "hi" with a pause of 100 ms in it: its first half is lost, and the frame with it.
line_in_two_parts :
    run_network parse none none none
      (hello (text "Ann"), none)
      ([] ∷ [] ∷ [] ∷ [])
      (arrived 104 ∷ pause ∷ arrived 105 ∷ arrived 10 ∷ [])
    ≡ returned (record {
      written = hello (text "Ann") ∷ [];
      events =
          connected
          ∷ failed (text "bad server frame: EOF")
          ∷ disconnected (text "server closed")
          ∷ [];
    })
unfolding run_network run_loop receive_round receive_line read_line send_commands from_utf8
line_in_two_parts = refl
