-- ===== src/Server/Sent.antt =====
-- What the handlers of crates/light-discord-server/src/main.rs add to the frames sent: frames that
-- everybody may see, and for administrators their own.
pub mod Handlers
pub mod ChatHandlers
use light_discord.Common.{
  All, All-append, Bool, List, Option, Text, [], ap, append-nil, append_assoc, false, none, refl,
  some, sym, true, ℕ, ◌++◌, ◌∙◌, ◌∷◌, ◌≡◌,
}
use light_discord.Common.Maps.{Map, get}
use light_discord.Protocol.{ChatMessage, ServerFrame, invite_created, audit_log, message}
use light_discord.Server.State.{
  UserConnection, World, copies, others, send_on, send_to, broadcast, broadcast_except,
}
use light_discord.Server.Chat as Chat
use light_discord.Server.Voice as Voice
use light_discord.Server.Screen as Screen

-- Frames for administrators.
abbrev pub is_privileged : ServerFrame → Bool
is_privileged (invite_created code) = true
is_privileged (audit_log entries) = true
is_privileged _ = false

-- The list grows by frames that satisfy `Q`.
abbrev pub Adds :
    (ℕ × ServerFrame → Type 0) → List (ℕ × ServerFrame) → List (ℕ × ServerFrame) → Type 0
Adds Q before after = (new : List (ℕ × ServerFrame)) × (after ≡ before ++ new) × All Q new

-- A frame that nobody is barred from.
abbrev pub IsQuiet : ServerFrame → Type 0
IsQuiet f = is_privileged f ≡ false

module _ (Q : ℕ × ServerFrame → Type 0)
    (quiet : (tx : ℕ) (f : ServerFrame) → IsQuiet f → Q (tx, f)) where
  pub Adds-none : (a : List (ℕ × ServerFrame)) → Adds Q a a
  Adds-none a = ([], sym (append-nil a), tt)

  pub Adds-one : (a : List (ℕ × ServerFrame)) (e : ℕ × ServerFrame) → Q e → Adds Q a (a ++ (e ∷ []))
  Adds-one a e h = (e ∷ [], refl, (h, tt))

  pub Adds-trans : (a b c : List (ℕ × ServerFrame)) → Adds Q a b → Adds Q b c → Adds Q a c
  Adds-trans a b c (new, e, h) (more, f, k) =
      (new ++ more, f ∙ ap (λ l. l ++ more) e ∙ append_assoc a new more, All-append Q new more h k)

  All-copies : (users : Map UserConnection) (f : ServerFrame) → IsQuiet f → All Q (copies users f)
  All-copies [] f h = tt
  All-copies ((u, c) ∷ users) f h = (quiet c.tx f h, All-copies users f h)

  module _ {S : Type 0} where
    abbrev pub Grows : World S → World S → Type 0
    Grows w x = Adds Q w.sent x.sent

    pub broadcast-Grows : (w : World S) (f : ServerFrame) → IsQuiet f → Grows w (broadcast w f)
    unfolding broadcast
    broadcast-Grows w f h = (copies w.inner.users f, refl, All-copies w.inner.users f h)

    pub broadcast_except-Grows :
        (w : World S) (u : Text) (f : ServerFrame) → IsQuiet f → Grows w (broadcast_except w u f)
    unfolding broadcast_except
    broadcast_except-Grows w u f h =
        (copies (others u w.inner.users) f, refl, All-copies (others u w.inner.users) f h)

    pub send_on-Grows :
        (w : World S) (o : Option UserConnection) (f : ServerFrame)
        → ((c : UserConnection) → o ≡ some c → Q (c.tx, f))
        → Grows w (send_on w o f)
    unfolding send_on
    send_on-Grows w none f h = Adds-none w.sent
    send_on-Grows w (some c) f h = Adds-one w.sent (c.tx, f) (h c refl)

    pub send_to-Grows :
        (w : World S) (u : Text) (f : ServerFrame) → IsQuiet f → Grows w (send_to w u f)
    unfolding send_to
    send_to-Grows w u f h = send_on-Grows w (get u w.inner.users) f (λ c _. quiet c.tx f h)

    pub send_all-Grows :
        (w : World S) (u : Text) (ms : List ChatMessage) → Grows w (Chat.send_all w u ms)
    unfolding Chat.send_all
    send_all-Grows w u [] = Adds-none w.sent
    send_all-Grows w u (m ∷ ms) =
        Adds-trans w.sent (send_to w u (message m)).sent _ (send_to-Grows w u (message m) refl)
          (send_all-Grows (send_to w u (message m)) u ms)

    pub broadcast_voice_states-Grows :
        (w : World S) (rooms : List Text) → Grows w (Voice.broadcast_voice_states w rooms)
    unfolding Voice.broadcast_voice_states Voice.broadcast_voice_state
    broadcast_voice_states-Grows w [] = Adds-none w.sent
    broadcast_voice_states-Grows w (r ∷ rooms) =
        Adds-trans w.sent (Voice.broadcast_voice_state w r).sent _ (broadcast-Grows w _ refl)
          (broadcast_voice_states-Grows (Voice.broadcast_voice_state w r) rooms)

    pub join_voice-Grows : (w : World S) (u r : Text) → Grows w (Voice.join_voice w u r)
    unfolding Voice.join_voice Voice.broadcast_voice_state
    join_voice-Grows w u r = broadcast-Grows (Voice.with_rooms w _) _ refl

    pub leave_voice-Grows : (w : World S) (u : Text) → Grows w (Voice.leave_voice w u)
    unfolding Voice.leave_voice
    leave_voice-Grows w u =
        broadcast_voice_states-Grows (Voice.with_rooms w (Voice.leave_rooms u w.inner.voice_rooms))
          (Voice.rooms_of u w.inner.voice_rooms)
