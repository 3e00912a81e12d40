-- ===== src/Alloc/AsPool.antt =====
-- The allocator (source/drivers/dma/dmaengine.c) as the pool that the channel policies use: requests for
-- DMA_MEMCPY with no filter, and releases.
use dmacftu.Prelude.{
  ℕ, ◌+◌, ◌≡◌, ◌≢◌, Bool, true, List, [], ◌∷◌, ◌++◌, Option, none, some, ◌==◌, arith, ◌≤◌, ◌<◌, All,
  Option-cases, inl, inr,
}
use dmacftu.Pool.{Pool}
use dmacftu.Alloc.{Device, Drivers, dma_request_channel, dma_release_channel, dma_memcpy}
use dmacftu.Alloc.Holds.{one_if, DeviceOk}
use dmacftu.Alloc.Requests.{
  held, numbered, Requested, nothing_free, given, dma_request_channel-Requested,
}
use dmacftu.Alloc.Releases.{dma_release_channel-Released}

abbrev pub occurrences : ℕ → List ℕ → ℕ
occurrences c [] = 0
occurrences c (d ∷ ds) = one_if (c == d) + occurrences c ds

-- The devices are in order, no two channels have the same number, and the exclusive references are one
-- for each channel of the list.
pub record HeldBy (ds : List Device) (hs : List ℕ) : Type 0 where
  pub in_order : All DeviceOk ds
  pub own_numbers : (c : ℕ) → numbered c ds ≤ 1
  pub references : (c : ℕ) → held c ds ≡ occurrences c hs

occurrences-append :
    (c : ℕ) (xs ys : List ℕ) → occurrences c (xs ++ ys) ≡ occurrences c xs + occurrences c ys
occurrences-append c [] ys = omega arith
occurrences-append c (x ∷ xs) ys = omega (arith, occurrences-append c xs ys)

occurrences-fresh : (c : ℕ) (hs : List ℕ) → occurrences c hs ≡ 0 → All (λ h. h ≢ c) hs
occurrences-fresh c [] e = tt
occurrences-fresh c (h ∷ hs) e =
    (λ same. ground (arith, e, same), occurrences-fresh c hs (omega (arith, e)))

abbrev pub any_channel : ℕ → Bool
any_channel c = true

abbrev pub request_memcpy : Drivers → ℕ → List Device → Option ℕ × List Device
request_memcpy drv refs ds = dma_request_channel drv refs (dma_memcpy ∷ []) any_channel ds

pub HeldBy-given :
    (ds : List Device) (hs : List ℕ) (out : Option ℕ × List Device) (c : ℕ)
    → HeldBy ds hs
    → out.0 ≡ some c
    → Requested ds out
    → HeldBy out.1 (hs ++ c ∷ []) × All (λ h. h ≢ c) hs
HeldBy-given ds hs out c ok e (nothing_free e' hx nx oks) = ground (arith, e, e')
HeldBy-given ds hs out c ok e (given c' e' some_c free hx nx oks) =
    let same : c' ≡ c = ground (arith, e, e') in
    (
      record {
        in_order = oks;
        own_numbers = λ x. omega (arith, nx x, ok.own_numbers x);
        references =
            λ x. ground (arith, same, hx x, ok.references x, occurrences-append x hs (c ∷ []));
      },
      occurrences-fresh c hs (ground (arith, same, free (ok.own_numbers c'), ok.references c')),
    )

pub HeldBy-refused :
    (ds : List Device) (hs : List ℕ) (out : Option ℕ × List Device)
    → HeldBy ds hs
    → out.0 ≡ none
    → Requested ds out
    → HeldBy out.1 hs
HeldBy-refused ds hs out ok e (nothing_free e' hx nx oks) = record {
  in_order = oks;
  own_numbers = λ x. omega (arith, nx x, ok.own_numbers x);
  references = λ x. omega (arith, hx x, ok.references x);
}
HeldBy-refused ds hs out ok e (given c e' some_c free hx nx oks) = ground (arith, e, e')

-- Releasing a channel that is held, on devices in order where exactly the channels xs, c and ys are held,
-- leaves them in order with exactly xs and ys held.
pub dma_release_channel-HeldBy :
    (ds : List Device) (xs ys : List ℕ) (c : ℕ)
    → HeldBy ds (xs ++ c ∷ ys)
    → HeldBy (dma_release_channel c ds) (xs ++ ys)
dma_release_channel-HeldBy ds xs ys c ok =
    let refs = ok.references c in
    let positive : 0 < held c ds = ground (arith, refs, occurrences-append c xs (c ∷ ys)) in
    let done = dma_release_channel-Released c ds ok.in_order (ok.own_numbers c) positive in
    record {
      in_order = done.in_order;
      own_numbers = λ x. omega (arith, done.numbers x, ok.own_numbers x);
      references = λ x. omega (
        arith,
        done.others x,
        ok.references x,
        occurrences-append x xs (c ∷ ys),
        occurrences-append x xs ys,
      );
    }

-- The allocator, with drivers that always answer the same, and this dmaengine_ref_count.
abbrev pub allocator : Drivers → ℕ → Pool
allocator drv refs = record {
  State = List Device;
  request = request_memcpy drv refs;
  release = dma_release_channel;
  Held = HeldBy;
  request_some = λ s hs c ok e.
      HeldBy-given s hs (request_memcpy drv refs s) c ok e
        (dma_request_channel-Requested drv refs (dma_memcpy ∷ []) any_channel s ok.in_order);
  request_none = λ s hs ok e.
      HeldBy-refused s hs (request_memcpy drv refs s) ok e
        (dma_request_channel-Requested drv refs (dma_memcpy ∷ []) any_channel s ok.in_order);
  release_held = dma_release_channel-HeldBy;
}

-- How a request of a policy ends: with a channel that was not held, or with none, and with the other
-- channels held as before.
pub data PoolRequest (hs : List ℕ) (out : Option ℕ × List Device) : Type 0 where
  got :
      (c : ℕ)
      → out.0 ≡ some c
      → All (λ h. h ≢ c) hs
      → HeldBy out.1 (hs ++ c ∷ [])
      → PoolRequest hs out
  got_none : out.0 ≡ none → HeldBy out.1 hs → PoolRequest hs out

-- A request for a memcpy channel, on devices in order where exactly the channels hs are held, gives a
-- channel that is not one of hs and then exactly hs and it are held, or gives none and exactly hs are
-- held; the devices are in order after it.
pub request_memcpy-PoolRequest :
    (drv : Drivers) (refs : ℕ) (ds : List Device) (hs : List ℕ)
    → HeldBy ds hs
    → PoolRequest hs (request_memcpy drv refs ds)
request_memcpy-PoolRequest drv refs ds hs ok =
    let done =
      dma_request_channel-Requested drv refs (dma_memcpy ∷ []) any_channel ds ok.in_order in
    elim (Option-cases (request_memcpy drv refs ds).0) [
      | inl e ↦ got_none e (HeldBy-refused ds hs (request_memcpy drv refs ds) ok e done)
      | inr (c, e) ↦
          let (held_now, fresh) = HeldBy-given ds hs (request_memcpy drv refs ds) c ok e done in
          got c e fresh held_now
    ]
