-- ===== src/Voice/Jitter/Valid.antt =====
-- The invariant of the jitter buffer, kept by `push` and `pop`.
use light_discord.Common.{
  Bool, Bool-cases, List, Option, [], arith, false, if◌then◌else◌, inl, inr, leb, length, none, not,
  refl, some, subst, suc, true, ℕ, ◌&&◌, ◌||◌, ◌∷◌, ◌≡◌, ◌≤◌,
}
use light_discord.Voice.Jitter.Pending.{
  Entries, find, Rising, Rising-mono, put-Rising, erase-Rising, length-erase, Rising-absent,
}
use light_discord.Voice.Jitter.{
  JitterBuffer, empty, new, is_stale, evict, push, expected_or, emit, pop_from, pop_on, pop,
}

-- The number from which on packets may still wait.
abbrev pub floor : Option ℕ → ℕ
floor none = 0
floor (some n) = n

-- The packets that wait are in order, each once, none before the expected one, and at most
-- `max_depth`, which is not less than the depth at which the buffer starts to drain.
pub record IsValid (b : JitterBuffer) : Type 0 where
  pub depth_pos : 1 ≤ b.target_depth
  pub depths : b.target_depth ≤ b.max_depth
  pub rising : Rising (floor b.next_expected) b.pending
  pub bounded : length b.pending ≤ b.max_depth

pub new-IsValid : (target_depth max_depth : ℕ) → IsValid (new target_depth max_depth)
unfolding new
new-IsValid t m = record {
  depth_pos = omega arith;
  depths = omega arith;
  rising = tt;
  bounded = omega arith;
}

evict-Rising : (n limit : ℕ) (m : Entries) → Rising n m → Rising n (evict limit m)
unfolding evict
evict-Rising n limit [] r = tt
evict-Rising n limit ((k, v) ∷ m) r =
    ground (arith, evict-Rising (suc k) limit m, Rising-mono n (suc k) (evict limit m))

length-evict : (limit : ℕ) (m : Entries) → length (evict limit m) ≤ limit
unfolding evict
length-evict limit [] = omega arith
length-evict limit (e ∷ m) = ground (arith, length-evict limit m)

pub push-IsValid :
    (b : JitterBuffer) (sequence : ℕ) (payload : List ℕ)
    → IsValid b
    → IsValid (push b sequence payload)
unfolding push
push-IsValid b sequence payload v = elim (Bool-cases (is_stale b.next_expected sequence)) [
  | inl stale ↦ rw stale v
  | inr fresh ↦ rw fresh (record {
    depth_pos = v.depth_pos;
    depths = v.depths;
    rising = evict-Rising _ _ _ (put-Rising _ _ _ _ (not_stale b.next_expected fresh) v.rising);
    bounded = length-evict _ _;
  })
]
  where
    not_stale : (o : Option ℕ) → is_stale o sequence ≡ false → floor o ≤ sequence
    not_stale none e = omega arith
    not_stale (some n) e = unfold is_stale in ground arith

emit-IsValid :
    (b : JitterBuffer) (expected : ℕ) (o : Option (List ℕ))
    → IsValid b
    → Rising expected b.pending
    → find expected b.pending ≡ o
    → IsValid (emit b expected o).1
unfolding emit
emit-IsValid b expected (some payload) v r e = record {
  depth_pos = v.depth_pos;
  depths = v.depths;
  rising = Rising-mono _ (suc expected) _ (omega arith) (erase-Rising expected b.pending r);
  bounded = omega (arith, length-erase expected b.pending, v.bounded);
}
emit-IsValid b expected none v r e = record {
  depth_pos = v.depth_pos;
  depths = v.depths;
  rising = Rising-mono _ (suc expected) _ (omega arith) (Rising-absent expected b.pending r e);
  bounded = v.bounded;
}

-- The waiting packets rise from the number that is due.
pub Rising-expected :
    (o : Option ℕ) (k : ℕ) (v : List ℕ) (m : Entries)
    → Rising (floor o) ((k, v) ∷ m)
    → Rising (expected_or o k) ((k, v) ∷ m)
Rising-expected none k v m r = (omega arith, r.1)
Rising-expected (some n) k v m r = r

pop_on-IsValid :
    (m : Entries) (b : JitterBuffer) (force_drain : Bool)
    → b.pending ≡ m
    → IsValid b
    → IsValid (pop_on m b force_drain).1
unfolding pop_on pop_from
pop_on-IsValid [] b force_drain e v = record {
  depth_pos = v.depth_pos;
  depths = v.depths;
  rising = v.rising;
  bounded = v.bounded;
}
pop_on-IsValid ((k, payload) ∷ rest) b force_drain e v =
    let primed = b.primed || leb b.target_depth (length b.pending) in
    let b' : JitterBuffer = record b { primed = primed } in
    let v' : IsValid b' = record {
      depth_pos = v.depth_pos;
      depths = v.depths;
      rising = v.rising;
      bounded = v.bounded;
    } in
    let due = expected_or b.next_expected k in
    let rising : Rising due b.pending = rw e (
      Rising-expected b.next_expected k payload rest
        (subst (Rising (floor b.next_expected)) e v.rising)) in
    go (not force_drain && not primed) b' v' due rising
  where
    go :
        (wait : Bool) (b' : JitterBuffer)
        → IsValid b'
        → (due : ℕ) → Rising due b'.pending
        → IsValid (if wait then (empty, b') else emit b' due (find due b'.pending)).1
    go true b' v' due rising = v'
    go false b' v' due rising = emit-IsValid b' due (find due b'.pending) v' rising refl

pub pop-IsValid :
    (b : JitterBuffer) (force_drain : Bool) → IsValid b → IsValid (pop b force_drain).1
unfolding pop
pop-IsValid b force_drain v = pop_on-IsValid b.pending b force_drain refl v
