-- ===== src/Alloc/Releases.antt =====
-- Releasing a channel that is held exclusively (source/drivers/dma/dmaengine.c, dma_release_channel).
use dmacftu.Prelude.{
  ℕ, ◌+◌, ◌-◌, ◌≡◌, refl, true, List, [], ◌∷◌, Option, none, some, ◌==◌, arith, get_elem?, set,
  Bool-cases, inl, inr, ◌≤◌, ◌<◌, All, subst,
}
use dmacftu.Alloc.{Chan, Device, dma_chan_put, dma_release_channel, release_at, put_at, index_of}
use dmacftu.Alloc.Sums.{
  sum, sum-set, refs_to, is_number, count_of, refs_to-le-total, NumberAt, no_number, number_at,
  index_of-NumberAt, unique_refs,
}
use dmacftu.Alloc.Holds.{held_in, numbered_in, one_if, DeviceOk, number-positive}
use dmacftu.Alloc.Requests.{held, numbered, not_numbered-not_held}

put-id : (d : Device) (ch : Chan) → (dma_chan_put d ch).1.id ≡ ch.id
unfolding dma_chan_put
put-id d ch = ground arith

put-count : (d : Device) (ch : Chan) → (dma_chan_put d ch).1.client_count ≡ ch.client_count - 1
unfolding dma_chan_put
put-count d ch = ground arith

-- What a release does to the exclusive references and the numbers.
pub record Released (c : ℕ) (ds out : List Device) : Type 0 where
  pub others : (x : ℕ) → held x out + one_if (x == c) ≡ held x ds
  pub numbers : (x : ℕ) → numbered x out ≡ numbered x ds
  pub in_order : All DeviceOk out

record ReleasedAt (c : ℕ) (d out : Device) : Type 0 where
  others : (x : ℕ) → held_in x out + one_if (x == c) ≡ held_in x d
  numbers : (x : ℕ) → numbered_in x out ≡ numbered_in x d
  in_order : DeviceOk out

put_at-ReleasedAt :
    (d : Device) (i : ℕ) (ch ch' : Chan) (owner_refs : ℕ)
    → DeviceOk d
    → get_elem? d.channels i ≡ some ch
    → d.is_private ≡ true
    → 0 < ch.client_count
    → ch'.id ≡ ch.id
    → ch'.client_count ≡ ch.client_count - 1
    → ReleasedAt ch.id d (put_at d i (owner_refs, ch'))
put_at-ReleasedAt d i ch ch' owner_refs ok found private held_here same n =
    let total = sum-set count_of d.channels i ch ch' found in
    let bound : sum count_of d.channels ≤ d.privatecnt = ground (arith, private, ok.enough) in
    record {
      others = λ x. elim (Bool-cases (d.privatecnt == 1)) [
        | inl last ↦ ground (
          arith,
          last,
          private,
          bound,
          held_here,
          same,
          n,
          total,
          sum-set (refs_to x) d.channels i ch ch' found,
          refs_to-le-total x (set d.channels i ch'),
        )
        | inr more ↦ ground (
          arith,
          more,
          private,
          held_here,
          same,
          n,
          sum-set (refs_to x) d.channels i ch ch' found,
        )
      ];
      numbers = λ x. ground (arith, same, sum-set (is_number x) d.channels i ch ch' found);
      in_order = record {
        bit = ground (arith, private, ok.bit);
        enough = ground (arith, private, bound, held_here, n, total);
      };
    }

release_at-ReleasedAt :
    (c : ℕ) (d : Device) (i : ℕ) (ch : Chan)
    → DeviceOk d
    → numbered_in c d ≤ 1
    → 0 < held_in c d
    → get_elem? d.channels i ≡ some ch
    → ch.id ≡ c
    → ReleasedAt c d (release_at d i (some ch))
release_at-ReleasedAt c d i ch ok one h found same =
    let n = unique_refs c d.channels i ch one found same in
    let put = dma_chan_put d ch in
    let private : d.is_private ≡ true = ground (arith, h) in
    let held_here : 0 < ch.client_count = ground (arith, h, n, private) in
    subst (λ k. ReleasedAt k d (release_at d i (some ch))) same
      (put_at-ReleasedAt d i ch put.1 put.0 ok found private held_here (put-id d ch)
        (put-count d ch))

release-next :
    (c : ℕ) (d : Device) (ds : List Device)
    → index_of c d.channels ≡ none
    → dma_release_channel c (d ∷ ds) ≡ d ∷ dma_release_channel c ds
unfolding dma_release_channel
release-next c d ds e = ground (arith, e)

release-here :
    (c : ℕ) (d : Device) (ds : List Device) (i : ℕ) (ch : Chan)
    → index_of c d.channels ≡ some i
    → get_elem? d.channels i ≡ some ch
    → dma_release_channel c (d ∷ ds) ≡ release_at d i (some ch) ∷ ds
unfolding dma_release_channel
release-here c d ds i ch e found = ground (arith, e, found)

positive-number :
    (c : ℕ) (d : Device) (i : ℕ) (ch : Chan)
    → get_elem? d.channels i ≡ some ch
    → ch.id ≡ c
    → 0 < numbered_in c d
positive-number c d i ch found same =
    subst (λ k. 0 < numbered_in k d) same (number-positive d i ch found)

release-cons :
    (c : ℕ) (d : Device) (ds : List Device)
    → DeviceOk d
    → All DeviceOk ds
    → numbered c (d ∷ ds) ≤ 1
    → 0 < held c (d ∷ ds)
    → (numbered c ds ≤ 1 → 0 < held c ds → Released c ds (dma_release_channel c ds))
    → (o : Option ℕ) → index_of c d.channels ≡ o
    → NumberAt c d.channels o
    → Released c (d ∷ ds) (dma_release_channel c (d ∷ ds))
release-cons c d ds ok oks one h rest none e (no_number n r) =
    let done = rest (omega (arith, one)) (ground (arith, h, r)) in
    rw (release-next c d ds e) (record {
      others = λ x. omega (arith, done.others x);
      numbers = λ x. omega (arith, done.numbers x);
      in_order = (ok, done.in_order);
    })
release-cons c d ds ok oks one h rest (some _) e (number_at i ch found same) =
    let here = positive-number c d i ch found same in
    let there : numbered c ds ≡ 0 = omega (arith, one, here) in
    let done =
      release_at-ReleasedAt c d i ch ok (omega (arith, one))
        (omega (arith, h, not_numbered-not_held c ds there)) found same in
    rw (release-here c d ds i ch e found) (record {
      others = λ x. omega (arith, done.others x);
      numbers = λ x. omega (arith, done.numbers x);
      in_order = (done.in_order, oks);
    })

-- Releasing a channel that is held, on devices that are in order and give each number once, takes away
-- one reference to it and no other reference, and leaves the devices in order.
pub dma_release_channel-Released :
    (c : ℕ) (ds : List Device)
    → All DeviceOk ds
    → numbered c ds ≤ 1
    → 0 < held c ds
    → Released c ds (dma_release_channel c ds)
dma_release_channel-Released c [] oks one h = absurd (omega (arith, h))
dma_release_channel-Released c (d ∷ ds) (ok, oks) one h =
    release-cons c d ds ok oks one h (λ one' h'. dma_release_channel-Released c ds oks one' h')
      (index_of c d.channels) refl (index_of-NumberAt c d.channels)
