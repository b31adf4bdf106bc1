-- ===== src/Voice/Jitter/Order.antt =====
-- What comes out of the jitter buffer over any history of pushes and pops.
use light_discord.Common.{
  ==_iff, All, Bool, Bool-cases, List, Option, [], arith, false, if-elim, if◌then◌else◌, inl, inr,
  leb, length, ltb, none, not, refl, some, subst, suc, true, ℕ, ◌%◌, ◌&&◌, ◌+◌, ◌==◌, ◌||◌, ◌∷◌,
  ◌≡◌,
}
use mathlib.Core.Path.{subst₂}
use light_discord.Voice.Jitter.Pending.{Entries, find, put, erase}
use light_discord.Voice.Jitter.Valid.{IsValid, new-IsValid, push-IsValid, pop-IsValid}
use light_discord.Voice.Jitter.{
  JitterBuffer, JitterPop, packet, lost, empty, new, is_stale, evict, push, expected_or, emit,
  pop_from, pop_on, pop, u64_mod,
}

pub data Call : Type 0 where
  pushes : ℕ → List ℕ → Call
  pops : Bool → Call

-- The answers of the pops, in order.
unfoldable pub outputs : JitterBuffer → List Call → List JitterPop
outputs b [] = []
outputs b (pushes sequence payload ∷ calls) = outputs (push b sequence payload) calls
outputs b (pops force_drain ∷ calls) =
    let (answer, b') = pop b force_drain in answer ∷ outputs b' calls

abbrev Due : Option ℕ → ℕ → Type 0
Due none sequence = Unit {0}
Due (some next) sequence = sequence ≡ next

-- Packets and losses count up one by one, from the number that is due.
abbrev pub Consecutive : Option ℕ → List JitterPop → Type 0
Consecutive next [] = Unit {0}
Consecutive next (empty ∷ out) = Consecutive next out
Consecutive next (packet s payload ∷ out) = Due next s × Consecutive (some ((s + 1) % u64_mod)) out
Consecutive next (lost s fec ∷ out) = Due next s × Consecutive (some ((s + 1) % u64_mod)) out

-- How one answer moves the number that is due.
abbrev Moves : Option ℕ → JitterPop → Option ℕ → Type 0
Moves next empty next' = next' ≡ next
Moves next (packet s payload) next' = Due next s × (next' ≡ some ((s + 1) % u64_mod))
Moves next (lost s fec) next' = Due next s × (next' ≡ some ((s + 1) % u64_mod))

expected_or-Due : (next : Option ℕ) (k : ℕ) → Due next (expected_or next k)
expected_or-Due none k = tt
expected_or-Due (some n) k = refl

emit-Moves :
    (b : JitterBuffer) (next : Option ℕ) (expected : ℕ) (o : Option (List ℕ))
    → Due next expected
    → Moves next (emit b expected o).0 (emit b expected o).1.next_expected
unfolding emit
emit-Moves b next expected (some payload) d = (d, refl)
emit-Moves b next expected none d = (d, refl)

pop_on-Moves :
    (m : Entries) (b : JitterBuffer) (force_drain : Bool)
    → Moves b.next_expected (pop_on m b force_drain).0 (pop_on m b force_drain).1.next_expected
unfolding pop_on pop_from
pop_on-Moves [] b force_drain = refl
pop_on-Moves ((k, payload) ∷ rest) b force_drain =
    go (not force_drain && not (b.primed || leb b.target_depth (length b.pending)))
      (record b { primed = b.primed || leb b.target_depth (length b.pending) }) refl
  where
    go :
        (wait : Bool) (b' : JitterBuffer)
        → b'.next_expected ≡ b.next_expected
        → let due = expected_or b.next_expected k in
          let answer = if wait then (empty, b') else emit b' due (find due b.pending) in
          Moves b.next_expected answer.0 answer.1.next_expected
    go true b' e = e
    go false b' e =
        emit-Moves b' b.next_expected (expected_or b.next_expected k)
          (find (expected_or b.next_expected k) b.pending) (expected_or-Due b.next_expected k)

Consecutive-Moves :
    (next next' : Option ℕ) (answer : JitterPop) (out : List JitterPop)
    → Moves next answer next'
    → Consecutive next' out
    → Consecutive next (answer ∷ out)
Consecutive-Moves next next' empty out m c = subst (λ n. Consecutive n out) m c
Consecutive-Moves next next' (packet s payload) out m c =
    (m.0, subst (λ n. Consecutive n out) m.1 c)
Consecutive-Moves next next' (lost s fec) out m c = (m.0, subst (λ n. Consecutive n out) m.1 c)

push_next :
    (b : JitterBuffer) (sequence : ℕ) (payload : List ℕ)
    → (push b sequence payload).next_expected ≡ b.next_expected
unfolding push
push_next b sequence payload = ground arith

-- Over any history of pushes and pops the sequence numbers that come out, received or lost, count
-- up by one modulo 2 ^ 64, from the one expected or, while none is expected, from the first that
-- comes out.
pub outputs-Consecutive :
    (b : JitterBuffer) (calls : List Call) → Consecutive b.next_expected (outputs b calls)
unfolding outputs
outputs-Consecutive b [] = tt
outputs-Consecutive b (pushes sequence payload ∷ calls) =
    subst (λ n. Consecutive n (outputs (push b sequence payload) calls))
      (push_next b sequence payload) (outputs-Consecutive (push b sequence payload) calls)
outputs-Consecutive b (pops force_drain ∷ calls) =
    Consecutive-Moves b.next_expected (pop b force_drain).1.next_expected (pop b force_drain).0 _
      (unfold pop in pop_on-Moves b.pending b force_drain)
      (outputs-Consecutive (pop b force_drain).1 calls)

module _ (P : ℕ → List ℕ → Type 0) where
  abbrev Holds : ℕ × List ℕ → Type 0
  Holds e = P e.0 e.1

  -- Every pushed packet satisfies `P`.
  abbrev pub AllPushed : List Call → Type 0
  AllPushed [] = Unit {0}
  AllPushed (pushes sequence payload ∷ calls) = P sequence payload × AllPushed calls
  AllPushed (pops force_drain ∷ calls) = AllPushed calls

  abbrev pub AnswerHolds : JitterPop → Type 0
  AnswerHolds (packet s payload) = P s payload
  AnswerHolds (lost s fec) = Unit {0}
  AnswerHolds empty = Unit {0}

  put-All : (k : ℕ) (v : List ℕ) (m : Entries) → P k v → All Holds m → All Holds (put k v m)
  unfolding put
  put-All k v [] h a = (h, tt)
  put-All k v ((j, w) ∷ m) h a =
      if-elim (All Holds) (j == k) (λ _. (h, a.1))
        (λ _. if-elim (All Holds) (ltb k j) (λ _. (h, a)) (λ _. (a.0, put-All k v m h a.1)))

  evict-All : (limit : ℕ) (m : Entries) → All Holds m → All Holds (evict limit m)
  unfolding evict
  evict-All limit [] a = tt
  evict-All limit (e ∷ m) a =
      if-elim (All Holds) (ltb limit (suc (length m))) (λ _. evict-All limit m a.1) (λ _. a)

  erase-All : (k : ℕ) (m : Entries) → All Holds m → All Holds (erase k m)
  unfolding erase
  erase-All k [] a = tt
  erase-All k ((j, w) ∷ m) a =
      if-elim (All Holds) (j == k) (λ _. a.1) (λ _. (a.0, erase-All k m a.1))

  find-All : (k : ℕ) (v : List ℕ) (m : Entries) → All Holds m → find k m ≡ some v → P k v
  unfolding find
  find-All k v [] a e = absurd (cc e)
  find-All k v ((j, w) ∷ m) a e = elim (Bool-cases (j == k)) [
    | inl hit ↦
        let key : j ≡ k = (==_iff j k).0 hit in
        let value : w ≡ v = ground arith in subst₂ P key value a.0
    | inr miss ↦ find-All k v m a.1 (ground arith)
  ]

  push-All :
      (b : JitterBuffer) (sequence : ℕ) (payload : List ℕ)
      → P sequence payload
      → All Holds b.pending
      → All Holds (push b sequence payload).pending
  unfolding push
  push-All b sequence payload h a =
      if-elim {A = JitterBuffer} (λ c. All Holds c.pending) (is_stale b.next_expected sequence)
        (λ _. a) (λ _. evict-All b.max_depth _ (put-All sequence payload b.pending h a))

  -- An answer satisfies `P`, and so does what still waits.
  abbrev Carries : JitterPop × JitterBuffer → Type 0
  Carries r = AnswerHolds r.0 × All Holds r.1.pending

  emit-Carries :
      (b : JitterBuffer) (expected : ℕ) (o : Option (List ℕ))
      → find expected b.pending ≡ o
      → All Holds b.pending
      → Carries (emit b expected o)
  unfolding emit
  emit-Carries b expected (some payload) e a =
      (find-All expected payload b.pending a e, erase-All expected b.pending a)
  emit-Carries b expected none e a = (tt, a)

  pop_on-Carries :
      (m : Entries) (b : JitterBuffer) (force_drain : Bool)
      → All Holds b.pending
      → Carries (pop_on m b force_drain)
  unfolding pop_on pop_from
  pop_on-Carries [] b force_drain a = (tt, a)
  pop_on-Carries ((k, payload) ∷ rest) b force_drain a =
      if-elim Carries (not force_drain && not (b.primed || leb b.target_depth (length b.pending)))
        (λ _. (tt, a))
        (λ _.
          emit-Carries (record b { primed = b.primed || leb b.target_depth (length b.pending) })
            (expected_or b.next_expected k) _ refl a)

  outputs-All_from :
      (b : JitterBuffer) (calls : List Call)
      → All Holds b.pending
      → AllPushed calls
      → All AnswerHolds (outputs b calls)
  unfolding outputs
  outputs-All_from b [] a h = tt
  outputs-All_from b (pushes sequence payload ∷ calls) a h =
      outputs-All_from (push b sequence payload) calls (push-All b sequence payload h.0 a) h.1
  outputs-All_from b (pops force_drain ∷ calls) a h =
      let (here, later) = pop_on-Carries b.pending b force_drain a in
      (unfold pop in here, outputs-All_from (pop b force_drain).1 calls (unfold pop in later) h)

  -- Whatever holds of the number and the payload of every packet that is pushed into a new buffer
  -- holds of every packet that comes out.
  pub outputs-All :
      (target_depth max_depth : ℕ) (calls : List Call)
      → AllPushed calls
      → All AnswerHolds (outputs (new target_depth max_depth) calls)
  outputs-All target_depth max_depth calls h =
      outputs-All_from (new target_depth max_depth) calls (unfold new in tt) h

-- The buffer that is left.
unfoldable pub after : JitterBuffer → List Call → JitterBuffer
after b [] = b
after b (pushes sequence payload ∷ calls) = after (push b sequence payload) calls
after b (pops force_drain ∷ calls) = after (pop b force_drain).1 calls

after-IsValid : (b : JitterBuffer) (calls : List Call) → IsValid b → IsValid (after b calls)
unfolding after
after-IsValid b [] v = v
after-IsValid b (pushes sequence payload ∷ calls) v =
    after-IsValid (push b sequence payload) calls (push-IsValid b sequence payload v)
after-IsValid b (pops force_drain ∷ calls) v =
    after-IsValid (pop b force_drain).1 calls (pop-IsValid b force_drain v)

-- After any history of a new buffer its packets wait in order, each once, none before the expected
-- number, and at most max_depth of them.
pub after-new-IsValid :
    (target_depth max_depth : ℕ) (calls : List Call)
    → IsValid (after (new target_depth max_depth) calls)
after-new-IsValid target_depth max_depth calls =
    after-IsValid (new target_depth max_depth) calls (new-IsValid target_depth max_depth)
