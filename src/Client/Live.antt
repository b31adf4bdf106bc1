-- ===== src/Client/Live.antt =====
-- What a client shows of its channel (crates/light-discord-client/src/app.rs) while the server saves and
-- deletes messages in its storage in memory and tells its connections of it
-- (crates/light-discord-server/src/main.rs).
pub mod Runs
pub mod Told
use light_discord.Common.{
  All, Bool, Bool-cases, List, Text, [], ap, arith, false, if-elim, inl, inr, keep, none, not, refl,
  some, subst, sym, text_eq, text_eq_iff, true, ◌++◌, ◌||◌, ◌∙◌, ◌∷◌, ◌≡◌,
}
use light_discord.Common.Maps.{Map, get, insert, get-insert}
use light_discord.Protocol.{ChatMessage, message}
use light_discord.Storage.Memory.{MemoryMessage}
use light_discord.Client.{LightDiscordApp}

-- The message is stored as it is, in the channel, and is not deleted.
abbrev pub IsLive : Map MemoryMessage → Text → ChatMessage → Type 0
IsLive stored channel_id m =
    (v : MemoryMessage) × (get m.id stored ≡ some v)
    × (v.message ≡ m)
    × (v.deleted_at_unix_ms ≡ none)
    × (text_eq m.channel_id channel_id ≡ true)

-- Whether a message with the identifier is among those that are shown.
unfoldable pub shows : Text → List ChatMessage → Bool
shows id [] = false
shows id (m ∷ ms) = text_eq m.id id || shows id ms

-- Every message that is shown is live.
abbrev pub AllLive : Map MemoryMessage → LightDiscordApp → Type 0
AllLive stored app = All (IsLive stored app.channel_id) app.messages

-- A stored message of the channel that is not deleted and was not there before is shown.
abbrev pub Knows : Map MemoryMessage → Map MemoryMessage → LightDiscordApp → Type 0
Knows before stored app =
    (id : Text) (v : MemoryMessage)
    → get id stored ≡ some v
    → v.deleted_at_unix_ms ≡ none
    → text_eq v.message.channel_id app.channel_id ≡ true
    → get id before ≡ none
    → shows id app.messages ≡ true

abbrev pub Tracks : Map MemoryMessage → Map MemoryMessage → LightDiscordApp → Type 0
Tracks before stored app = AllLive stored app × Knows before stored app

pub some-injective {ℓ} : {A : Type ℓ} (x y : A) → some x ≡ some y → x ≡ y
some-injective x y e = cc

pub shows-append :
    (id : Text) (ms ns : List ChatMessage) → shows id (ms ++ ns) ≡ (shows id ms || shows id ns)
unfolding shows
shows-append id [] ns = refl
shows-append id (m ∷ ms) ns = ground (arith, shows-append id ms ns)

abbrev pub is_other : Text → ChatMessage → Bool
is_other id m = not (text_eq m.id id)

pub All-keep {ℓ κ} :
    {A : Type ℓ} (P : A → Type κ) (p : A → Bool) (xs : List A) → All P xs → All P (keep p xs)
All-keep P p [] h = tt
All-keep P p (x ∷ xs) h =
    if-elim (All P) (p x) (λ _. (h.0, All-keep P p xs h.1)) (λ _. All-keep P p xs h.1)

pub shows-keep :
    (id j : Text) (ms : List ChatMessage)
    → text_eq id j ≡ false
    → shows j (keep (is_other id) ms) ≡ shows j ms
unfolding shows
shows-keep id j [] apart = refl
shows-keep id j (m ∷ ms) apart = ground (
  arith,
  apart,
  shows-keep id j ms apart,
  text_eq_iff m.id id,
  text_eq_iff m.id j,
  text_eq_iff id j,
)

module _ (stored : Map MemoryMessage) (channel_id : Text) where
  apart-absent :
      (k j : Text) (u : MemoryMessage)
      → get k stored ≡ none
      → get j stored ≡ some u
      → text_eq k j ≡ false
  apart-absent k j u new at = elim (Bool-cases (text_eq k j)) [
    | inl same ↦
        let both = subst (λ i. get i stored ≡ none) ((text_eq_iff k j).0 same) new in
        absurd (ground (arith, both, at))
    | inr other ↦ other
  ]

  -- A live message of this channel is not the one that is stored in another.
  apart-other :
      (k : Text) (w : MemoryMessage) (m : ChatMessage)
      → get k stored ≡ some w
      → text_eq w.message.channel_id channel_id ≡ false
      → IsLive stored channel_id m
      → text_eq k m.id ≡ false
  apart-other k w m at apart (u, there, is, live, here) = elim (Bool-cases (text_eq k m.id)) [
    | inl same ↦
        let both = subst (λ i. get i stored ≡ some w) ((text_eq_iff k m.id).0 same) at in
        let one = some-injective u w (sym there ∙ both) in
        let elsewhere =
          subst (λ c. text_eq c.channel_id channel_id ≡ false)
            (ap (λ (x : MemoryMessage). x.message) (sym one) ∙ is) apart in
        absurd (ground (arith, elsewhere, here))
    | inr other ↦ other
  ]

  IsLive-insert :
      (k : Text) (v : MemoryMessage) (m : ChatMessage)
      → text_eq k m.id ≡ false
      → IsLive stored channel_id m
      → IsLive (insert k v stored) channel_id m
  IsLive-insert k v m apart (u, at, is, live, here) =
      (u, get-insert k m.id v stored ∙ rw apart at, is, live, here)

  -- Beside a message that is new, all that were live are.
  pub AllLive-insert_new :
      (k : Text) (v : MemoryMessage) (ms : List ChatMessage)
      → get k stored ≡ none
      → All (IsLive stored channel_id) ms
      → All (IsLive (insert k v stored) channel_id) ms
  AllLive-insert_new k v [] new h = tt
  AllLive-insert_new k v (m ∷ ms) new h = (
    IsLive-insert k v m (apart-absent k m.id h.0.0 new h.0.1) h.0,
    AllLive-insert_new k v ms new h.1,
  )

  -- Without the messages with the identifier, all are live whatever is stored under it.
  pub AllLive-keep :
      (k : Text) (v : MemoryMessage) (ms : List ChatMessage)
      → All (IsLive stored channel_id) ms
      → All (IsLive (insert k v stored) channel_id) (keep (is_other k) ms)
  AllLive-keep k v [] h = tt
  AllLive-keep k v (m ∷ ms) h = elim (Bool-cases (text_eq m.id k)) [
    | inl same ↦ rw same (AllLive-keep k v ms h.1)
    | inr other ↦ rw other (
      IsLive-insert k v m (ground (arith, other, text_eq_iff m.id k, text_eq_iff k m.id)) h.0,
      AllLive-keep k v ms h.1,
    )
  ]

  -- A message that is stored in another channel is not shown.
  pub AllLive-other :
      (k : Text) (v w : MemoryMessage) (ms : List ChatMessage)
      → get k stored ≡ some w
      → text_eq w.message.channel_id channel_id ≡ false
      → All (IsLive stored channel_id) ms
      → All (IsLive (insert k v stored) channel_id) ms
  AllLive-other k v w [] at apart h = tt
  AllLive-other k v w (m ∷ ms) at apart h = (
    IsLive-insert k v m (apart-other k w m at apart h.0) h.0,
    AllLive-other k v w ms at apart h.1,
  )
