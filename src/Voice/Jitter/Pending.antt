-- ===== src/Voice/Jitter/Pending.antt =====
-- A `BTreeMap<u64, Vec<u8>>` as the list of its entries by rising key.

use light_discord.Common.{
  List, Option, [], arith, if◌then◌else◌, length, ltb, none, refl, some, suc, ℕ, ◌<◌, ◌==◌, ◌∷◌,
  ◌≡◌, ◌≤◌,
}

abbrev pub Entries : Type 0
Entries = List (ℕ × List ℕ)

-- `map.get(&key)`
unfoldable pub find : ℕ → Entries → Option (List ℕ)
find k [] = none
find k ((j, v) ∷ m) = if j == k then some v else find k m

-- `map.insert(key, value)`
unfoldable pub put : ℕ → List ℕ → Entries → Entries
put k v [] = (k, v) ∷ []
put k v ((j, w) ∷ m) =
    if j == k then (k, v) ∷ m else if ltb k j then (k, v) ∷ (j, w) ∷ m else (j, w) ∷ put k v m

-- `map.remove(&key)`
unfoldable pub erase : ℕ → Entries → Entries
erase k [] = []
erase k ((j, v) ∷ m) = if j == k then m else (j, v) ∷ erase k m

-- The keys rise, from `n` on.
abbrev pub Rising : ℕ → Entries → Type 0
Rising n [] = Unit {0}
Rising n ((k, v) ∷ m) = (n ≤ k) × Rising (suc k) m

pub Rising-mono : (i n : ℕ) (m : Entries) → i ≤ n → Rising n m → Rising i m
Rising-mono i n [] h r = tt
Rising-mono i n ((k, v) ∷ m) h r = (omega arith, r.1)

pub put-Rising : (n k : ℕ) (v : List ℕ) (m : Entries) → n ≤ k → Rising n m → Rising n (put k v m)
unfolding put
put-Rising n k v [] h r = (h, tt)
put-Rising n k v ((j, w) ∷ m) h r =
    ground (arith, put-Rising (suc j) k v m, Rising-mono (suc k) (suc j) m)

pub length-put : (k : ℕ) (v : List ℕ) (m : Entries) → length (put k v m) ≤ suc (length m)
unfolding put
length-put k v [] = omega arith
length-put k v ((j, w) ∷ m) = ground (arith, length-put k v m)

pub find_below : (k n : ℕ) (m : Entries) → k < n → Rising n m → find k m ≡ none
unfolding find
find_below k n [] h r = refl
find_below k n ((j, v) ∷ m) h r = ground (arith, find_below k (suc j) m)

pub erase-Rising : (n : ℕ) (m : Entries) → Rising n m → Rising (suc n) (erase n m)
unfolding erase
erase-Rising n [] r = tt
erase-Rising n ((j, v) ∷ m) r = ground (arith, erase_above n (suc j) m)
  where
    erase_above : (k i : ℕ) (m : Entries) → k < i → Rising i m → Rising i (erase k m)
    erase_above k i [] h r = tt
    erase_above k i ((j, v) ∷ m) h r = ground (arith, erase_above k (suc j) m)

pub length-erase : (k : ℕ) (m : Entries) → length (erase k m) ≤ length m
unfolding erase
length-erase k [] = omega arith
length-erase k ((j, v) ∷ m) = ground (arith, length-erase k m)

-- The entries from `n` on other than `n` rise from the next number.
pub Rising-absent : (n : ℕ) (m : Entries) → Rising n m → find n m ≡ none → Rising (suc n) m
unfolding find
Rising-absent n [] r e = tt
Rising-absent n ((j, v) ∷ m) r e = ground arith

pub find-put :
    (k j : ℕ) (v : List ℕ) (m : Entries) (n : ℕ)
    → Rising n m
    → find j (put k v m) ≡ (if k == j then some v else find j m)
unfolding find put
find-put k j v [] n r = refl
find-put k j v ((i, w) ∷ m) n r = ground (arith, find-put k j v m (suc i))
