-- ===== src/Alloc/Balance.antt =====
-- One channel's client count and resources, in dma_chan_get and dma_chan_put
-- (source/drivers/dma/dmaengine.c).
use dmacftu.Prelude.{
  ℕ, suc, ◌≡◌, Bool, true, false, ◌||◌, List, [], ◌∷◌, ltb, pos, arith, Bool-cases, ◌⊎◌, inl, inr,
  All,
}
use dmacftu.Alloc.{Chan, Device, Drivers, dma_chan_get, dma_chan_put}
use dmacftu.Alloc.Clients.{is_enodev, get_channels, is_public}

-- A channel whose resources are there exactly while it has clients.
abbrev pub IsAllocated : Chan → Type 0
IsAllocated ch = ch.has_resources ≡ ltb 0 ch.client_count

pub get-IsAllocated :
    (drv : Drivers) (refs : ℕ) (d : Device) (ch : Chan)
    → IsAllocated ch
    → IsAllocated (dma_chan_get drv refs d ch).2
unfolding dma_chan_get
get-IsAllocated drv refs d ch h = ground (arith, h)

-- Dropping the reference to a channel right after it was taken, where the channel's resources follow its
-- clients and it is in a private device or had clients before, restores the references to the driver's
-- module, the client count and the resources.
pub put_after_get :
    (drv : Drivers) (refs : ℕ) (d : Device) (ch : Chan)
    → IsAllocated ch
    → (ltb 0 ch.client_count || d.is_private) ≡ true
    → (dma_chan_get drv refs d ch).0 ≡ pos 0
    → ((dma_chan_put
          (record d { owner_refs = (dma_chan_get drv refs d ch).1 })
          (dma_chan_get drv refs d ch).2).0
        ≡ d.owner_refs)
      × ((dma_chan_put
            (record d { owner_refs = (dma_chan_get drv refs d ch).1 })
            (dma_chan_get drv refs d ch).2).1.client_count
          ≡ ch.client_count)
      × ((dma_chan_put
            (record d { owner_refs = (dma_chan_get drv refs d ch).1 })
            (dma_chan_get drv refs d ch).2).1.has_resources
          ≡ ch.has_resources)
unfolding dma_chan_get dma_chan_put
put_after_get drv refs d ch h private e =
    (ground (arith, h, private, e), ground (arith, h, private, e), ground (arith, h, private, e))

-- The client count of a channel is dmaengine_ref_count, or 0 if its resources could not be allocated.
abbrev pub Follows : ℕ → Chan → Type 0
Follows refs ch = (ch.client_count ≡ 0) ⊎ (ch.client_count ≡ refs)

abbrev pub Guarded : Bool → Type 0 → Type 0
Guarded false P = Unit
Guarded true P = P

-- So it is for each channel of a public device.
abbrev pub IsBalanced : ℕ → Device → Type 0
IsBalanced refs d = Guarded (is_public d) (All (Follows refs) d.channels)

get-Follows :
    (drv : Drivers) (refs : ℕ) (d : Device) (ch : Chan)
    → d.is_private ≡ false
    → Follows refs ch
    → Follows (suc refs) (dma_chan_get drv (suc refs) d ch).2
unfolding dma_chan_get
get-Follows drv refs d ch public h =
    elim (Bool-cases (ltb 0 (dma_chan_get drv (suc refs) d ch).2.client_count)) [
      | inr idle ↦ inl (ground (arith, idle))
      | inl busy ↦ inr (elim h [
        | inl z ↦ ground (arith, z, public, busy)
        | inr e ↦ ground (arith, e, public, busy)
      ])
    ]

pub put-Follows :
    (refs : ℕ) (d : Device) (ch : Chan) → Follows (suc refs) ch → Follows refs (dma_chan_put d ch).1
unfolding dma_chan_put
put-Follows refs d ch (inl z) = inl (ground (arith, z))
put-Follows refs d ch (inr e) = inr (ground (arith, e))

pub get_channels-Follows :
    (drv : Drivers) (refs : ℕ) (d : Device) (chs : List Chan)
    → d.is_private ≡ false
    → All (Follows refs) chs
    → (get_channels drv (suc refs) d chs).0 ≡ false
    → All (Follows (suc refs)) (get_channels drv (suc refs) d chs).2
unfolding get_channels
get_channels-Follows drv refs d [] public a e = tt
get_channels-Follows drv refs d (ch ∷ chs) public (h, a) e =
    let got = dma_chan_get drv (suc refs) d ch in
    elim (Bool-cases (is_enodev got.0)) [
      | inl removed ↦ ground (arith, removed, e)
      | inr there ↦
          let e' : (get_channels drv (suc refs) (record d { owner_refs = got.1 }) chs).0 ≡ false =
            ground (arith, there, e) in
          rw there (
            get-Follows drv refs d ch public h,
            get_channels-Follows drv refs (record d { owner_refs = got.1 }) chs public a e',
          )
    ]
