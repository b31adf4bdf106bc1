-- ===== src/Wire/Reader.antt =====
-- The cursor of `decode_voice_packet_binary`: a reader takes bytes from the front of what is left,
-- `&bytes[pos..]`, and answers with the rest. `usize` has 64 bits, so `pos + n` does not wrap.
use light_discord.Common.{
  List, Result, arith, drop, drop-append_length, err, if◌then◌else◌, length, length-append,
  length-take, ltb, ok, take, take-append-drop, take-append_length, ℕ, ◌++◌, ◌≡◌,
}
use light_discord.Wire.Packet.{VoicePacketBinaryError, truncated}

abbrev pub Reader {ℓ} : Type ℓ → Type ℓ
Reader A = List ℕ → Result (A × List ℕ) VoicePacketBinaryError

module _ {ℓ} {A : Type ℓ} where
  abbrev pub pure : A → Reader A
  pure a bytes = ok (a, bytes)

  abbrev pub fail : VoicePacketBinaryError → Reader A
  fail e bytes = err e

infixl 5 ◌>>=◌
abbrev pub ◌>>=◌ {ℓ κ} : {A : Type ℓ} {B : Type κ} → Reader A → (A → Reader B) → Reader B
◌>>=◌ m f bytes = elim (m bytes) [ ok (a, rest) ↦ f a rest | err e ↦ err e ]

-- `need!(n)`, then the slice of `n` bytes.
unfoldable pub take_bytes : ℕ → Reader (List ℕ)
take_bytes n bytes = if ltb (length bytes) n then err truncated else ok (take n bytes, drop n bytes)

pub take_bytes-append : (xs rest : List ℕ) → take_bytes (length xs) (xs ++ rest) ≡ ok (xs, rest)
unfolding take_bytes
take_bytes-append xs rest =
    ground (arith, length-append xs rest, take-append_length xs rest, drop-append_length xs rest)

pub take_bytes_sound :
    (n : ℕ) (bytes xs rest : List ℕ)
    → take_bytes n bytes ≡ ok (xs, rest)
    → (bytes ≡ xs ++ rest) × (length xs ≡ n)
unfolding take_bytes
take_bytes_sound n bytes xs rest e = ground (arith, take-append-drop n bytes, length-take n bytes)
