-- ===== src/Voice/Jitter.antt =====
-- `JitterBuffer` of voice.rs. The `BTreeMap` of waiting packets is the list of its entries in the
-- order of their keys; a payload is a list of bytes.
pub mod Pending
pub mod Valid
pub mod Order
pub mod Drain
pub mod Ends
mod Examples
use light_discord.Common.{
  Bool, List, Option, [], false, if◌then◌else◌, leb, length, ltb, max, none, not, some, ℕ, ◌%◌,
  ◌&&◌, ◌+◌, ◌^◌, ◌||◌, ◌∷◌,
}
use Pending.{Entries, find, put, erase}

abbrev pub u64_mod : ℕ
u64_mod = 2 ^ 64

pub record JitterBuffer : Type 0 where
  pub target_depth : ℕ
  pub max_depth : ℕ
  pub next_expected : Option ℕ
  pub pending : Entries
  pub primed : Bool

pub data JitterPop : Type 0 where
  packet : ℕ → List ℕ → JitterPop
  lost : ℕ → Option (List ℕ) → JitterPop
  empty : JitterPop

unfoldable pub new : ℕ → ℕ → JitterBuffer
new target_depth max_depth = record {
  target_depth = max target_depth 1;
  max_depth = max max_depth (max target_depth 1);
  next_expected = none;
  pending = [];
  primed = false;
}

-- `sequence < next`, if a packet has been emitted
unfoldable pub is_stale : Option ℕ → ℕ → Bool
is_stale none sequence = false
is_stale (some next) sequence = ltb sequence next

-- `while self.pending.len() > self.max_depth { remove the first entry }`
unfoldable pub evict : ℕ → Entries → Entries
evict limit [] = []
evict limit (e ∷ rest) =
    let fewer = evict limit rest in if ltb limit (length (e ∷ rest)) then fewer else e ∷ rest

unfoldable pub push : JitterBuffer → ℕ → List ℕ → JitterBuffer
push b sequence payload =
    if is_stale b.next_expected sequence
    then b
    else record b { pending = evict b.max_depth (put sequence payload b.pending) }

abbrev first_payload : Entries → Option (List ℕ)
first_payload [] = none
first_payload ((k, payload) ∷ rest) = some payload

-- `self.next_expected.unwrap_or(first_key)`
abbrev pub expected_or : Option ℕ → ℕ → ℕ
expected_or none first_key = first_key
expected_or (some next) first_key = next

-- The emission of the expected number, found or missing.
unfoldable pub emit : JitterBuffer → ℕ → Option (List ℕ) → JitterPop × JitterBuffer
emit b expected (some payload) = (
  packet expected payload,
  record b { next_expected = some ((expected + 1) % u64_mod); pending = erase expected b.pending },
)
emit b expected none = (
  lost expected (first_payload b.pending),
  record b { next_expected = some ((expected + 1) % u64_mod) },
)

-- `pop` on a buffer that is not empty, whose first key is `first_key`.
unfoldable pub pop_from : JitterBuffer → Bool → ℕ → JitterPop × JitterBuffer
unfolding emit
pop_from b force_drain first_key =
    let primed = b.primed || leb b.target_depth (length b.pending) in
    let b' = record b { primed = primed } in
    let expected = expected_or b.next_expected first_key in
    if not force_drain && not primed
    then (empty, b')
    else emit b' expected (find expected b.pending)

-- `pop`, by the packets that wait.
unfoldable pub pop_on : Entries → JitterBuffer → Bool → JitterPop × JitterBuffer
pop_on [] b force_drain = (empty, record b { primed = false })
pop_on ((first_key, payload) ∷ rest) b force_drain = pop_from b force_drain first_key

unfoldable pub pop : JitterBuffer → Bool → JitterPop × JitterBuffer
unfolding pop_on
pop b force_drain = pop_on b.pending b force_drain
