-- ===== src/CircularBuffer/Contents.antt =====
-- The invariant of the circular buffer, the measures that it holds, and cbWrite and cbRead in
-- terms of them (source/kernel/circular_buffer.c).
use dmacftu.Prelude.{
  ℕ, suc, ◌≢◌, ◌+◌, ◌-◌, ◌%◌, ◌^◌, ◌≤◌, ◌<◌, ◌≡◌, List, [], ◌∷◌, ◌++◌, length, set, take, drop, ltb,
  if◌then◌else◌, arith, length-set, length-append, length-take, length-drop, take-set_end,
  drop-set_before, drop-set_after, take-all, dec_lt, ◌==◌,
}
use native.Mathlib.Nat.{mod-eq_of_lt}
use mathlib.Core.List.{append_assoc, append-nil}
use dmacftu.CircularBuffer.{
  UnitBuff, CircularBuffer, add_uint, cb_is_full, cb_is_empty, get_counter, cb_write,
}

-- The indices lie in the memory, which fits the C types.
pub record IsValid (cb : CircularBuffer) : Type 0 where
  pub small : cb.size < 2 ^ 31
  pub storage : length cb.array_element ≡ cb.size
  pub start_in : cb.start < cb.size
  pub end_in : cb.end < cb.size

-- The measures held, oldest first.
abbrev pub window : List UnitBuff → ℕ → ℕ → List UnitBuff
window xs s e = if ltb e s then drop s xs ++ take e xs else take (e - s) (drop s xs)

abbrev pub contents : CircularBuffer → List UnitBuff
contents cb = window cb.array_element cb.start cb.end

pub length-window :
    (xs : List UnitBuff) (s e : ℕ)
    → s < length xs
    → e < length xs
    → length (window xs s e) ≡ (if ltb e s then length xs + e - s else e - s)
length-window xs s e hs he = ground (
  arith,
  length-append (drop s xs) (take e xs),
  length-drop s xs,
  length-take e xs,
  length-take (e - s) (drop s xs),
)

-- The next index round the buffer.
pub next_index :
    (e n : ℕ) → n < 2 ^ 31 → e < n → add_uint e 1 % n ≡ (if ltb (e + 1) n then e + 1 else 0)
next_index e n h k = elim (dec_lt (e + 1) n) [
  | yes p ↦
      let small : (e + 1) % 2 ^ 32 ≡ e + 1 = omega arith in
      rw (small, mod-eq_of_lt p) (ground arith)
  | no p ↦ ground (arith, last)
]
  where
    last : e + 1 ≡ n → add_uint e 1 % n ≡ 0
    last q = grind arith

-- A write at e, seen from s on, extends the elements from s to e.
drop-set_end :
    (xs : List UnitBuff) (s e : ℕ) (v : UnitBuff)
    → s ≤ e
    → e < length xs
    → take (suc (e - s)) (drop s (set xs e v)) ≡ take (e - s) (drop s xs) ++ v ∷ []
drop-set_end xs s e v h k =
    let room : e - s < length (drop s xs) = omega (arith, length-drop s xs) in
    rw (drop-set_after s e xs v h, take-set_end (e - s) (drop s xs) v room)

window-set :
    (xs : List UnitBuff) (s e : ℕ) (v : UnitBuff)
    → s < length xs
    → e < length xs
    → (if ltb (e + 1) (length xs) then e + 1 else 0) ≢ s
    → window (set xs e v) s (if ltb (e + 1) (length xs) then e + 1 else 0) ≡ window xs s e ++ v ∷ []
window-set xs s e v hs he free = elim (dec_lt e s) [
  | yes p ↦
      let more : take (e + 1) (set xs e v) ≡ take e xs ++ v ∷ [] =
        let one : e + 1 ≡ suc e = omega arith in rw (one, take-set_end e xs v he) in
      ground
        (arith, more, drop-set_before s e xs v p, append_assoc (drop s xs) (take e xs) (v ∷ []))
  | no p ↦
      let tail = drop-set_end xs s e v (omega arith) he in
      let one : suc (e - s) ≡ e + 1 - s = omega arith in
      let all = take-all (suc (e - s)) (drop s (set xs e v)) in
      ground (
        arith,
        tail,
        one,
        all,
        append-nil (drop s (set xs e v)),
        length-drop s (set xs e v),
        length-set xs e v,
      )
]

-- cbWrite appends the measure to the contents unless the index test says full.
pub contents-cb_write :
    {cb : CircularBuffer} (v : UnitBuff)
    → IsValid cb
    → contents (cb_write cb v) ≡ (if cb_is_full cb then contents cb else contents cb ++ v ∷ [])
unfolding cb_write cb_is_full
contents-cb_write {cb} v h = ground (
  arith,
  next_index cb.end cb.size h.small h.end_in,
  window-set cb.array_element cb.start cb.end v,
)

pub cb_write-IsValid : {cb : CircularBuffer} (v : UnitBuff) → IsValid cb → IsValid (cb_write cb v)
unfolding cb_write cb_is_full
cb_write-IsValid {cb} v h =
    ground (arith, next_index cb.end cb.size h.small h.end_in, length-set cb.array_element cb.end v)

pub length-contents :
    {cb : CircularBuffer}
    → IsValid cb
    → length (contents cb)
      ≡ (if ltb cb.end cb.start then cb.size + cb.end - cb.start else cb.end - cb.start)
length-contents {cb} h = ground (arith, length-window cb.array_element cb.start cb.end)

-- On a valid buffer, the index tests say what they are meant to: full is one element short of the
-- memory, empty is no measure held.
pub full_empty_lem :
    {cb : CircularBuffer}
    → IsValid cb
    → (cb_is_full cb ≡ (length (contents cb) + 1 == cb.size))
      × (cb_is_empty cb ≡ (length (contents cb) == 0))
unfolding cb_is_full cb_is_empty
full_empty_lem {cb} h =
    ground (arith, length-contents h, next_index cb.end cb.size h.small h.end_in)

-- Counting an event gives the next number, and changes neither the measures nor the invariant.
pub get_counter_lem :
    {cb : CircularBuffer}
    → IsValid cb
    → ((get_counter cb).0 ≡ cb.count_event + 1)
      × (contents (get_counter cb).1 ≡ contents cb)
      × IsValid (get_counter cb).1
      × ((get_counter cb).1.size ≡ cb.size)
      × ((get_counter cb).1.count_event ≡ cb.count_event + 1)
unfolding get_counter
get_counter_lem {cb} h = ground arith

pub count_event-cb_write :
    (cb : CircularBuffer) (v : UnitBuff) → (cb_write cb v).count_event ≡ cb.count_event
unfolding cb_write
count_event-cb_write cb v = ground arith
