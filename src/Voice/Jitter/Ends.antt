-- ===== src/Voice/Jitter/Ends.antt =====
-- That the loop that pops the jitter buffer (crates/light-discord-platform/src/voice.rs) ends, ready or
-- not, with the rounds that are enough, and what `push` and `pop` keep of the numbers and the depths.
use light_discord.Common.{
  Bool, Bool-cases, List, Option, [], arith, false, if-elim, inl, inr, leb, length, none, not, refl,
  some, subst, suc, sym, true, ℕ, ◌&&◌, ◌<◌, ◌||◌, ◌∙◌, ◌∷◌, ◌≡◌,
}
use light_discord.Voice.Jitter.Pending.{Entries, put, erase, Rising}
use light_discord.Voice.Jitter.{
  JitterBuffer, JitterPop, packet, lost, empty, is_stale, evict, push, expected_or, emit, pop_from,
  pop_on, pop, u64_mod,
}
use light_discord.Voice.Jitter.Valid.{floor, IsValid, Rising-expected}
use light_discord.Voice.Jitter.Drain.{
  drain, after_pop, drain_step, timeline, span, AreU64, drain-timeline,
}

abbrev waiting : Option ℕ → Entries → ℕ
waiting o [] = 0
waiting o ((k, v) ∷ m) = span (expected_or o k) ((k, v) ∷ m)

-- One round more than the numbers from the expected one to the last that waits.
unfoldable pub rounds : JitterBuffer → ℕ
unfolding span
rounds b = suc (waiting b.next_expected b.pending)

abbrev pub Ends : ℕ → JitterBuffer → Type 0
Ends fuel b = (out : List JitterPop) × (drain fuel b false ≡ some out)

abbrev is_ready : JitterBuffer → Bool
is_ready b = b.primed || leb b.target_depth (length b.pending)

-- A buffer that is not ready, or holds nothing, answers Empty.
pop_on-unready :
    (m : Entries) (b : JitterBuffer) → is_ready b ≡ false → (pop_on m b false).0 ≡ empty
unfolding pop_on pop_from
pop_on-unready [] b e = refl
pop_on-unready ((k, v) ∷ m) b e = rw e refl

pop_on-nothing : (m : Entries) (b : JitterBuffer) → m ≡ [] → (pop_on m b false).0 ≡ empty
unfolding pop_on
pop_on-nothing [] b e = refl
pop_on-nothing ((k, v) ∷ m) b e = absurd cc

after_pop-empty :
    (rest : JitterBuffer → Option (List JitterPop)) (r : JitterPop × JitterBuffer)
    → r.0 ≡ empty
    → after_pop rest r ≡ some []
unfolding after_pop
after_pop-empty rest (empty, b) e = refl
after_pop-empty rest (packet s v, b) e = absurd cc
after_pop-empty rest (lost s v, b) e = absurd cc

Ends-empty : (fuel : ℕ) (b : JitterBuffer) → (pop b false).0 ≡ empty → Ends (suc fuel) b
Ends-empty fuel b e = ([], drain_step fuel b false _ refl ∙ after_pop-empty _ _ e)

-- What the expected number is does not matter to an emission.
emit-expected :
    (b : JitterBuffer) (o : Option ℕ) (due : ℕ) (found : Option (List ℕ))
    → emit b due found ≡ emit (record b { next_expected = o }) due found
unfolding emit
emit-expected b o due (some payload) = refl
emit-expected b o due none = refl

-- Before the first packet is emitted, the first that waits is the expected one.
pop_from-first :
    (b : JitterBuffer) (k : ℕ)
    → b.next_expected ≡ none
    → is_ready b ≡ true
    → pop_from b false k ≡ pop_from (record b { next_expected = some k }) false k
unfolding pop_from
pop_from-first b k e r = rw (r, e) (emit-expected (record b { primed = true }) (some k) k _)

pop_on-first :
    (m : Entries) (b : JitterBuffer) (k : ℕ) (v : List ℕ) (rest : Entries)
    → b.next_expected ≡ none
    → m ≡ (k, v) ∷ rest
    → is_ready b ≡ true
    → pop_on m b false ≡ pop_on m (record b { next_expected = some k }) false
unfolding pop_on
pop_on-first [] b k v rest e p r = absurd cc
pop_on-first ((j, w) ∷ m) b k v rest e p r =
    let same : j ≡ k = ground (arith, p) in rw same (pop_from-first b k e r)

drain-first :
    (fuel : ℕ) (b : JitterBuffer) (k : ℕ) (v : List ℕ) (m : Entries)
    → b.next_expected ≡ none
    → b.pending ≡ (k, v) ∷ m
    → is_ready b ≡ true
    → drain (suc fuel) b false ≡ drain (suc fuel) (record b { next_expected = some k }) false
unfolding pop
drain-first fuel b k v m e p r =
    drain_step fuel b false _ (pop_on-first b.pending b k v m e p r)
    ∙ sym (drain_step fuel (record b { next_expected = some k }) false _ refl)

Ends-expected :
    (o : Option ℕ) (b : JitterBuffer) (k : ℕ) (v : List ℕ) (m : Entries)
    → b.next_expected ≡ o
    → b.pending ≡ (k, v) ∷ m
    → IsValid b
    → AreU64 b.pending
    → is_ready b ≡ true
    → Ends (suc (span (expected_or o k) b.pending)) b
Ends-expected (some n) b k v m e p valid u r = (
  timeline n b.pending,
  drain-timeline b n _ false e (subst (λ o. Rising (floor o) b.pending) e valid.rising) u r
      (omega arith),
)
Ends-expected none b k v m e p valid u r = (
  timeline k b.pending,
  drain-first _ b k v m e p r
      ∙ drain-timeline (record b { next_expected = some k }) k _ false refl rising u r
          (omega arith),
)
  where
    rising : Rising k b.pending
    rising = rw p (
        Rising-expected none k v m
          (subst (Rising 0) p (subst (λ o. Rising (floor o) b.pending) e valid.rising)))

Ends-on :
    (m : Entries) (b : JitterBuffer)
    → b.pending ≡ m
    → IsValid b
    → AreU64 b.pending
    → Ends (suc (waiting b.next_expected m)) b
unfolding pop
Ends-on [] b p valid u = Ends-empty 0 b (pop_on-nothing b.pending b p)
Ends-on ((k, v) ∷ m) b p valid u = elim (Bool-cases (is_ready b)) [
  | inl ready ↦
      subst (λ l. Ends (suc (span (expected_or b.next_expected k) l)) b) p
        (Ends-expected b.next_expected b k v m refl p valid u ready)
  | inr unready ↦ Ends-empty _ b (pop_on-unready b.pending b unready)
]

-- Popping a buffer that keeps the invariant, ready or not, until it answers Empty ends within as many
-- rounds as there are numbers from the expected one to the last that waits, and one.
pub drain-Ends : (b : JitterBuffer) → IsValid b → AreU64 b.pending → Ends (rounds b) b
unfolding rounds
drain-Ends b valid u = Ends-on b.pending b refl valid u

-- The numbers that wait stay of 64 bits.
put-AreU64 : (k : ℕ) (v : List ℕ) (m : Entries) → k < u64_mod → AreU64 m → AreU64 (put k v m)
unfolding put
put-AreU64 k v [] h u = (h, tt)
put-AreU64 k v ((j, w) ∷ m) h u = ground (arith, put-AreU64 k v m)

erase-AreU64 : (k : ℕ) (m : Entries) → AreU64 m → AreU64 (erase k m)
unfolding erase
erase-AreU64 k [] u = tt
erase-AreU64 k ((j, w) ∷ m) u = ground (arith, erase-AreU64 k m)

evict-AreU64 : (limit : ℕ) (m : Entries) → AreU64 m → AreU64 (evict limit m)
unfolding evict
evict-AreU64 limit [] u = tt
evict-AreU64 limit (e ∷ m) u = ground (arith, evict-AreU64 limit m)

-- `push` keeps the numbers in 64 bits, and the depths.
pub push-AreU64 :
    (b : JitterBuffer) (sequence : ℕ) (payload : List ℕ)
    → sequence < u64_mod
    → AreU64 b.pending
    → AreU64 (push b sequence payload).pending × ((push b sequence payload).max_depth ≡ b.max_depth)
unfolding push
push-AreU64 b sequence payload h u = elim (Bool-cases (is_stale b.next_expected sequence)) [
  | inl stale ↦ rw stale (u, refl)
  | inr fresh ↦
      rw fresh (evict-AreU64 b.max_depth _ (put-AreU64 sequence payload b.pending h u), refl)
]

abbrev pub Keeps : JitterBuffer → JitterPop × JitterBuffer → Type 0
Keeps b r = AreU64 r.1.pending × (r.1.max_depth ≡ b.max_depth)

emit-Keeps :
    (b : JitterBuffer) (due : ℕ) (found : Option (List ℕ))
    → AreU64 b.pending
    → Keeps b (emit b due found)
unfolding emit
emit-Keeps b due (some payload) u = (erase-AreU64 due b.pending u, refl)
emit-Keeps b due none u = (u, refl)

pop_on-Keeps :
    (m : Entries) (b : JitterBuffer) (force_drain : Bool)
    → AreU64 b.pending
    → Keeps b (pop_on m b force_drain)
unfolding pop_on pop_from
pop_on-Keeps [] b f u = (u, refl)
pop_on-Keeps ((k, v) ∷ m) b f u =
    if-elim (Keeps b) (not f && not (is_ready b)) (λ _. (u, refl))
      (λ _. emit-Keeps (record b { primed = is_ready b }) _ _ u)

-- `pop` keeps the numbers in 64 bits, and the depths.
pub pop-Keeps :
    (b : JitterBuffer) (force_drain : Bool) → AreU64 b.pending → Keeps b (pop b force_drain)
unfolding pop
pop-Keeps b f u = pop_on-Keeps b.pending b f u
