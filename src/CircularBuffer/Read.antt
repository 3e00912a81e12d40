-- ===== src/CircularBuffer/Read.antt =====
-- cbRead and cbRead_list (source/kernel/circular_buffer.c) in terms of the measures held.
use dmacftu.Prelude.{
  ℕ, zero, suc, ◌≢◌, ◌+◌, ◌-◌, ◌%◌, ◌^◌, ◌≤◌, ◌<◌, ◌≡◌, refl, ap, false, List, ◌∷◌, ◌++◌, some,
  length, get_elem?, take, drop, ltb, if◌then◌else◌, arith, length-drop, take-all, drop-get_elem?,
  get_elem?-of_lt, dec_lt, drop-all, take-append, drop-append, take-take, drop-take, drop-drop,
  ◌==◌, min,
}
use native.Mathlib.Nat.{mod-eq_of_lt, mod-eq-sub-mod}
use mathlib.Core.List.{append-nil}
use dmacftu.CircularBuffer.{
  UnitBuff, CircularBuffer, add_uint, cb_is_empty, cb_read, cb_read_list, segments, copy_segments,
}
use dmacftu.CircularBuffer.Contents.{IsValid, window, contents, length-contents}

-- An index moved on by k, less than once round the buffer.
advance :
    (s k n : ℕ)
    → n < 2 ^ 31
    → s < n
    → k ≤ n
    → add_uint s k % n ≡ (if ltb (s + k) n then s + k else s + k - n)
advance s k n small hs hk = elim (dec_lt (s + k) n) [
  | yes p ↦
      let fits : (s + k) % 2 ^ 32 ≡ s + k = omega arith in rw (fits, mod-eq_of_lt p) (ground arith)
  | no p ↦
      let fits : (s + k) % 2 ^ 32 ≡ s + k = omega arith in
      ground (
        arith,
        fits,
        mod-eq-sub-mod {n = s + k} {m = n} (omega arith),
        mod-eq_of_lt {n = s + k - n} {m = n} (omega arith),
      )
]

module _ (xs : List UnitBuff) (s e k : ℕ) (hs : s < length xs) (he : e < length xs)
    (hk : k ≤ (if ltb e s then length xs + e - s else e - s)) where
  -- Moving the start on by k drops the k oldest measures.
  window-advance :
      window xs (if ltb (s + k) (length xs) then s + k else s + k - length xs) e
      ≡ drop k (window xs s e)
  window-advance = elim (dec_lt e s) [
    | yes p ↦ ground (
      arith,
      drop-append k (drop s xs) (take e xs),
      drop-drop k s xs,
      length-drop s xs,
      drop-take (k - length (drop s xs)) e xs,
      drop-all (s + k) xs,
    )
    | no p ↦ ground (
      arith,
      drop-take k (e - s) (drop s xs),
      drop-drop k s xs,
      ap (λ j. take j (drop (s + k) xs)) (e-sub p),
    )
  ]
    where
      e-sub : ¬ (e < s) → e - s - k ≡ e - (s + k)
      e-sub p = omega arith

  -- The k oldest measures stand in at most two pieces, round the end of the memory.
  window-pieces :
      (if ltb (length xs - s) k
        then take (length xs - s) (drop s xs) ++ take (k - (length xs - s)) xs
        else take k (drop s xs))
      ≡ take k (window xs s e)
  window-pieces = elim (dec_lt e s) [
    | yes p ↦ ground (
      arith,
      take-append k (drop s xs) (take e xs),
      length-drop s xs,
      take-all k (drop s xs),
      take-all (length xs - s) (drop s xs),
      take-take (k - length (drop s xs)) e xs,
      append-nil (take k (drop s xs)),
    )
    | no p ↦ ground (arith, take-take k (e - s) (drop s xs))
  ]

get_elem?-window :
    (xs : List UnitBuff) (s e : ℕ) {v : UnitBuff}
    → e ≢ s
    → e < length xs
    → get_elem? xs s ≡ some v
    → window xs s e ≡ v ∷ drop 1 (window xs s e)
get_elem?-window xs s e {v} ne he at = elim (dec_lt e s) [
  | yes p ↦ ground (arith, drop-get_elem? s xs at)
  | no p ↦
      let more : e - s ≡ suc (e - s - 1) = omega arith in
      ground (arith, drop-get_elem? s xs at, more)
]

-- cbRead on a valid buffer that is not empty returns the oldest measure and removes it, and keeps
-- the invariant; the memory is read in range.
pub cb_read_lem :
    {cb : CircularBuffer}
    → IsValid cb
    → cb_is_empty cb ≡ false
    → (v : UnitBuff) × ((cb_read cb).0 ≡ some v)
      × (contents cb ≡ v ∷ contents (cb_read cb).1)
      × IsValid (cb_read cb).1
unfolding cb_is_empty cb_read
cb_read_lem {cb} h ne =
    let (v, at) = get_elem?-of_lt cb.start cb.array_element (omega arith) in
    (
      v,
      at,
      ground (
        arith,
        advance cb.start 1 cb.size h.small h.start_in,
        get_elem?-window cb.array_element cb.start cb.end (ground arith) (omega arith) at,
        window-advance cb.array_element cb.start cb.end 1,
      ),
      ground (arith, advance cb.start 1 cb.size h.small h.start_in),
    )

-- What the two copies do when the pieces are cut at the end of the memory.
copy_segments_lem :
    {cb : CircularBuffer} (s1 s2 : ℕ)
    → IsValid cb
    → s1 + s2 ≤ length (contents cb)
    → s1 ≤ cb.size - cb.start
    → (s2 ≢ 0 → s1 ≡ cb.size - cb.start)
    → let (out, cb', n) = copy_segments cb (s1, s2) in
      (n ≡ s1 + s2)
      × (out ≡ take (s1 + s2) (contents cb))
      × (contents cb' ≡ drop (s1 + s2) (contents cb))
      × IsValid cb'
copy_segments_lem {cb} s1 zero h fits room cut =
    let one : s1 + 0 ≡ s1 = omega arith in
    ground (
      arith,
      one,
      length-contents h,
      advance cb.start s1 cb.size h.small h.start_in,
      window-advance cb.array_element cb.start cb.end s1,
      window-pieces cb.array_element cb.start cb.end s1,
    )
copy_segments_lem {cb} s1 (suc s2) h fits room cut =
    let whole : s1 ≡ cb.size - cb.start = cut (omega arith) in
    let count = length-contents h in
    let back : add_uint cb.start s1 % cb.size ≡ 0 =
      ground (arith, advance cb.start s1 cb.size h.small h.start_in) in
    let moved : add_uint (add_uint cb.start s1 % cb.size) (suc s2) % cb.size ≡ suc s2 =
      rw back (ground (arith, advance 0 (suc s2) cb.size h.small)) in
    let twice : (suc s2 == 0) ≡ false = ground arith in
    rw twice (
      refl,
      rw back (ground (arith, window-pieces cb.array_element cb.start cb.end (s1 + suc s2))),
      rw moved (ground (arith, window-advance cb.array_element cb.start cb.end (s1 + suc s2))),
      rw moved (ground arith),
    )

-- On a valid buffer, cbRead_list returns the number of measures copied, the lesser of `size` and the
-- number held; it copies exactly that many of the oldest, in order, removes them, and keeps the
-- invariant.
pub cb_read_list_lem :
    {cb : CircularBuffer} (size : ℕ)
    → IsValid cb
    → let (out, cb', n) = cb_read_list cb size in
      (n ≡ min size (length (contents cb)))
      × (out ≡ take n (contents cb))
      × (contents cb' ≡ drop n (contents cb))
      × IsValid cb'
unfolding cb_read_list
cb_read_list_lem {cb} size h =
    ground (arith, length-contents h, copy_segments_lem (segments cb size).0 (segments cb size).1 h)
