-- ===== src/Alloc/Holds.antt =====
-- Which channels of a device are held exclusively (source/drivers/dma/dmaengine.c), and what one round
-- of __dma_request_channel does to that.
use dmacftu.Prelude.{
  ℕ, zero, suc, ◌+◌, ◌≡◌, refl, Bool, true, false, not, ◌&&◌, List, [], ◌∷◌, Option, none, some,
  ltb, ◌==◌, if◌then◌else◌, arith, get_elem?, set, Bool-cases, inl, inr, length, ◌≤◌, ◌<◌,
  Option-cases, ℤ, pos, negsuc, is_neg,
}
use dmacftu.Alloc.{
  Chan, Device, Drivers, dma_chan_get, any_in_use, private_candidate, first_free, make_private,
  keep_or_drop, grab_at, try_device,
}
use dmacftu.Alloc.Sums.{
  sum, sum-set, refs_to, is_number, count_of, refs_to-le-total, FreeAt, free_at, first_free-FreeAt,
  any_in_use-total, unique_refs,
}

-- The exclusive references to channel c, and the channels with its number.
abbrev pub held_in : ℕ → Device → ℕ
held_in c d = if d.is_private then sum (refs_to c) d.channels else 0

abbrev pub numbered_in : ℕ → Device → ℕ
numbered_in c d = sum (is_number c) d.channels

abbrev pub one_if : Bool → ℕ
one_if b = if b then 1 else 0

-- The bit DMA_PRIVATE is set when privatecnt is positive, which counts at least the references to the
-- channels of a private device.
pub record DeviceOk (d : Device) : Type 0 where
  pub bit : d.is_private ≡ ltb 0 d.privatecnt
  pub enough : (if d.is_private then sum count_of d.channels else 0) ≤ d.privatecnt

single-free :
    (chs : List Chan) (i : ℕ) (ch : Chan)
    → length chs ≤ 1
    → get_elem? chs i ≡ some ch
    → ch.client_count ≡ 0
    → sum count_of chs ≡ 0
single-free [] i ch l e z = refl
single-free (c ∷ []) zero ch l e z = ground (arith, e, z)
single-free (c ∷ []) (suc i) ch l e z = ground (arith, e)
single-free (c ∷ c' ∷ chs) i ch l e z = absurd (omega (arith, l))

-- A candidate is a free channel, and a device that is not private yet has no client at all.
data Candidate (d : Device) (i : ℕ) : Type 0 where
  candidate :
      (ch : Chan)
      → get_elem? d.channels i ≡ some ch
      → ch.client_count ≡ 0
      → (d.is_private ≡ false → sum count_of d.channels ≡ 0)
      → Candidate d i

Candidate-of :
    (d : Device) (i : ℕ)
    → (ltb 1 (length d.channels) && not d.is_private && any_in_use d.channels) ≡ false
    → FreeAt d.channels i
    → Candidate d i
Candidate-of d i guard (free_at ch e z) = candidate ch e z (λ public.
    elim (Bool-cases (ltb 1 (length d.channels))) [
      | inl many ↦ any_in_use-total d.channels (ground (arith, many, public, guard))
      | inr one ↦ single-free d.channels i ch (ground (arith, one)) e z
    ])

private_candidate-Candidate :
    (want : List ℕ) (fn : ℕ → Bool) (d : Device) (i : ℕ)
    → private_candidate want fn d ≡ some i
    → Candidate d i
unfolding private_candidate
private_candidate-Candidate want fn d i e =
    elim (Bool-cases (ltb 1 (length d.channels) && not d.is_private && any_in_use d.channels)) [
      | inl busy ↦ ground (arith, busy, e)
      | inr guard ↦
          let found : first_free fn d.channels ≡ some i = ground (arith, guard, e) in
          Candidate-of d i guard (first_free-FreeAt fn d.channels i found)
    ]

-- What became of a device that was asked for a channel.
pub data Tried (d : Device) (out : Option ℕ × Device) : Type 0 where
  kept :
      out.0 ≡ none
      → ((c : ℕ) → held_in c out.1 ≡ held_in c d)
      → ((c : ℕ) → numbered_in c out.1 ≡ numbered_in c d)
      → DeviceOk out.1
      → Tried d out
  grabbed :
      (c : ℕ)
      → out.0 ≡ some c
      → ((x : ℕ) → held_in x out.1 ≡ held_in x d + one_if (x == c))
      → ((x : ℕ) → numbered_in x out.1 ≡ numbered_in x d)
      → 0 < numbered_in c d
      → (numbered_in c d ≤ 1 → held_in c d ≡ 0)
      → DeviceOk out.1
      → Tried d out

pub number-positive :
    (d : Device) (i : ℕ) (ch : Chan) → get_elem? d.channels i ≡ some ch → 0 < numbered_in ch.id d
number-positive d i ch found =
    let none_left : sum (is_number ch.id) (set d.channels i (record ch { id = suc ch.id })) + 1
        ≡ sum (is_number ch.id) d.channels =
      ground
        (arith, sum-set (is_number ch.id) d.channels i ch (record ch { id = suc ch.id }) found) in
    omega (arith, none_left)

get-id :
    (drv : Drivers) (refs : ℕ) (d : Device) (ch : Chan) → (dma_chan_get drv refs d ch).2.id ≡ ch.id
unfolding dma_chan_get
get-id drv refs d ch = ground arith

get-count :
    (drv : Drivers) (refs : ℕ) (d : Device) (ch : Chan)
    → ch.client_count ≡ 0
    → d.is_private ≡ true
    → (dma_chan_get drv refs d ch).2.client_count
      ≡ (if is_neg (dma_chan_get drv refs d ch).0 then 0 else 1)
unfolding dma_chan_get
get-count drv refs d ch z private = ground (arith, z, private)

keep_or_drop-Tried :
    (d : Device) (i : ℕ) (ch ch' : Chan) (e : ℤ) (owner_refs : ℕ)
    → DeviceOk d
    → get_elem? d.channels i ≡ some ch
    → ch.client_count ≡ 0
    → (d.is_private ≡ false → sum count_of d.channels ≡ 0)
    → ch'.id ≡ ch.id
    → ch'.client_count ≡ (if is_neg e then 0 else 1)
    → Tried d (keep_or_drop ch.id (make_private d) i (e, owner_refs, ch'))
keep_or_drop-Tried d i ch ch' (pos e) owner_refs ok found z public same n =
    grabbed ch.id refl
      (λ x. elim (Bool-cases d.is_private) [
        | inl private ↦
            ground (arith, private, same, n, z, sum-set (refs_to x) d.channels i ch ch' found)
        | inr shut ↦ ground (
          arith,
          shut,
          same,
          n,
          z,
          public shut,
          refs_to-le-total x d.channels,
          sum-set (refs_to x) d.channels i ch ch' found,
        )
      ])
      (λ x. ground (arith, same, sum-set (is_number x) d.channels i ch ch' found))
      (number-positive d i ch found)
      (λ one. ground (arith, z, unique_refs ch.id d.channels i ch one found refl))
      (record {
        bit = ground arith;
        enough = elim (Bool-cases d.is_private) [
          | inl private ↦
              ground (arith, private, n, z, ok.enough, sum-set count_of d.channels i ch ch' found)
          | inr shut ↦
              ground (arith, shut, n, z, public shut, sum-set count_of d.channels i ch ch' found)
        ];
      })
keep_or_drop-Tried d i ch ch' (negsuc e) owner_refs ok found z public same n =
    kept refl
      (λ x. elim (Bool-cases d.is_private) [
        | inl private ↦
            ground
              (arith, private, ok.bit, same, n, z, sum-set (refs_to x) d.channels i ch ch' found)
        | inr shut ↦ ground (arith, shut, ok.bit)
      ])
      (λ x. ground (arith, same, sum-set (is_number x) d.channels i ch ch' found))
      (record {
        bit = ground arith;
        enough = elim (Bool-cases d.is_private) [
          | inl private ↦
              ground (
                arith,
                private,
                ok.bit,
                n,
                z,
                ok.enough,
                sum-set count_of d.channels i ch ch' found,
              )
          | inr shut ↦ ground (arith, shut, ok.bit)
        ];
      })

grab_at-Tried :
    (drv : Drivers) (refs : ℕ) (d : Device) (i : ℕ) (ch : Chan)
    → DeviceOk d
    → get_elem? d.channels i ≡ some ch
    → ch.client_count ≡ 0
    → (d.is_private ≡ false → sum count_of d.channels ≡ 0)
    → Tried d (grab_at drv refs d i (some ch))
grab_at-Tried drv refs d i ch ok found z public =
    let got = dma_chan_get drv refs (make_private d) ch in
    keep_or_drop-Tried d i ch got.2 got.0 got.1 ok found z public
      (get-id drv refs (make_private d) ch) (get-count drv refs (make_private d) ch z refl)

kept_as_it_is : (d : Device) (out : Option ℕ × Device) → DeviceOk d → out ≡ (none, d) → Tried d out
kept_as_it_is d out ok e = rw e (kept refl (λ c. refl) (λ c. refl) ok)

try_device-grab :
    (drv : Drivers) (refs : ℕ) (want : List ℕ) (fn : ℕ → Bool) (d : Device) (i : ℕ) (ch : Chan)
    → d.is_listed ≡ true
    → private_candidate want fn d ≡ some i
    → get_elem? d.channels i ≡ some ch
    → try_device drv refs want fn d ≡ grab_at drv refs d i (some ch)
unfolding try_device
try_device-grab drv refs want fn d i ch listed e found = ground (arith, listed, e, found)

pub try_device-Tried :
    (drv : Drivers) (refs : ℕ) (want : List ℕ) (fn : ℕ → Bool) (d : Device)
    → DeviceOk d
    → Tried d (try_device drv refs want fn d)
unfolding try_device
try_device-Tried drv refs want fn d ok = elim (Bool-cases d.is_listed) [
  | inr gone ↦ kept_as_it_is d (try_device drv refs want fn d) ok (ground (arith, gone))
  | inl listed ↦ elim (Option-cases (private_candidate want fn d)) [
    | inl no_candidate ↦
        kept_as_it_is d (try_device drv refs want fn d) ok (ground (arith, listed, no_candidate))
    | inr (i, e) ↦ elim (private_candidate-Candidate want fn d i e) [
      | candidate ch found z public ↦
          rw (try_device-grab drv refs want fn d i ch listed e found)
            (grab_at-Tried drv refs d i ch ok found z public)
    ]
  ]
]
