-- ===== src/Alloc/Requests.antt =====
-- Requests over the whole list of devices (source/drivers/dma/dmaengine.c, __dma_request_channel) and
-- the exclusive references that they give.
use dmacftu.Prelude.{
  ℕ, ◌+◌, ◌≡◌, refl, Bool, List, [], ◌∷◌, Option, none, some, ◌==◌, arith, ◌≤◌, ◌<◌, All,
}
use dmacftu.Alloc.{Device, Drivers, try_device, dma_request_channel}
use dmacftu.Alloc.Sums.{no_number-no_refs}
use dmacftu.Alloc.Holds.{held_in, numbered_in, one_if, DeviceOk, kept, grabbed, try_device-Tried}

-- The exclusive references to channel c, and the channels with its number, over all devices.
abbrev pub held : ℕ → List Device → ℕ
held c [] = 0
held c (d ∷ ds) = held_in c d + held c ds

abbrev pub numbered : ℕ → List Device → ℕ
numbered c [] = 0
numbered c (d ∷ ds) = numbered_in c d + numbered c ds

pub not_numbered-not_held : (c : ℕ) (ds : List Device) → numbered c ds ≡ 0 → held c ds ≡ 0
not_numbered-not_held c [] e = refl
not_numbered-not_held c (d ∷ ds) e =
    ground (arith, e, no_number-no_refs c d.channels, not_numbered-not_held c ds)

-- How a request ends: refused with nothing taken, or with a channel that nobody held.
pub data Requested (ds : List Device) (out : Option ℕ × List Device) : Type 0 where
  nothing_free :
      out.0 ≡ none
      → ((c : ℕ) → held c out.1 ≡ held c ds)
      → ((c : ℕ) → numbered c out.1 ≡ numbered c ds)
      → All DeviceOk out.1
      → Requested ds out
  given :
      (c : ℕ)
      → out.0 ≡ some c
      → 0 < numbered c ds
      → (numbered c ds ≤ 1 → held c ds ≡ 0)
      → ((x : ℕ) → held x out.1 ≡ held x ds + one_if (x == c))
      → ((x : ℕ) → numbered x out.1 ≡ numbered x ds)
      → All DeviceOk out.1
      → Requested ds out

request-first :
    (drv : Drivers) (refs : ℕ) (want : List ℕ) (fn : ℕ → Bool) (d : Device) (ds : List Device)
    (c : ℕ)
    → (try_device drv refs want fn d).0 ≡ some c
    → dma_request_channel drv refs want fn (d ∷ ds)
      ≡ (some c, (try_device drv refs want fn d).1 ∷ ds)
unfolding dma_request_channel
request-first drv refs want fn d ds c e = ground (arith, e)

request-next :
    (drv : Drivers) (refs : ℕ) (want : List ℕ) (fn : ℕ → Bool) (d : Device) (ds : List Device)
    → (try_device drv refs want fn d).0 ≡ none
    → dma_request_channel drv refs want fn (d ∷ ds) ≡ (
      (dma_request_channel drv refs want fn ds).0,
      (try_device drv refs want fn d).1 ∷ (dma_request_channel drv refs want fn ds).1,
    )
unfolding dma_request_channel
request-next drv refs want fn d ds e = ground (arith, e)

Requested-next :
    (d d' : Device) (ds : List Device) (o : Option ℕ) (ds' : List Device)
    → ((c : ℕ) → held_in c d' ≡ held_in c d)
    → ((c : ℕ) → numbered_in c d' ≡ numbered_in c d)
    → DeviceOk d'
    → Requested ds (o, ds')
    → Requested (d ∷ ds) (o, d' ∷ ds')
Requested-next d d' ds o ds' h n ok (nothing_free e hs ns oks) =
    nothing_free e (λ c. omega (arith, h c, hs c)) (λ c. omega (arith, n c, ns c)) (ok, oks)
Requested-next d d' ds o ds' h n ok (given c e some_c free hs ns oks) =
    given c e (omega (arith, some_c))
      (λ one.
        let here : numbered_in c d ≡ 0 = omega (arith, one, some_c) in
        ground (arith, no_number-no_refs c d.channels here, free (omega (arith, one))))
      (λ x. omega (arith, h x, hs x)) (λ x. omega (arith, n x, ns x)) (ok, oks)

-- A request on devices that are in order either is refused and changes no exclusive reference, or gives
-- a channel of one of the devices, free before if its number is its own, with one reference to it and
-- the references to the others as they were; the devices are in order after it.
pub dma_request_channel-Requested :
    (drv : Drivers) (refs : ℕ) (want : List ℕ) (fn : ℕ → Bool) (ds : List Device)
    → All DeviceOk ds
    → Requested ds (dma_request_channel drv refs want fn ds)
unfolding dma_request_channel
dma_request_channel-Requested drv refs want fn [] oks = nothing_free refl (λ c. refl) (λ c. refl) tt
dma_request_channel-Requested drv refs want fn (d ∷ ds) (ok, oks) =
    elim (try_device-Tried drv refs want fn d ok) [
      | kept e h n ok' ↦ rw (request-next drv refs want fn d ds e) (
          Requested-next d (try_device drv refs want fn d).1 ds
            (dma_request_channel drv refs want fn ds).0 (dma_request_channel drv refs want fn ds).1
            h n ok' (dma_request_channel-Requested drv refs want fn ds oks))
      | grabbed c e h n some_c free ok' ↦ rw (request-first drv refs want fn d ds c e) (
          given c refl (omega (arith, some_c))
            (λ one.
              let there : numbered c ds ≡ 0 = omega (arith, one, some_c) in
              omega (arith, not_numbered-not_held c ds there, free (omega (arith, one))))
            (λ x. omega (arith, h x)) (λ x. omega (arith, n x)) (ok', oks))
    ]
