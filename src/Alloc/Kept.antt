-- ===== src/Alloc/Kept.antt =====
-- The references of a public device whose channels are idle, in the inner loop that takes one on each of
-- them (get_channels; source/drivers/dma/dmaengine.c, dma_async_device_register).
use dmacftu.Prelude.{
  ℕ, ◌≡◌, ◌≢◌, refl, ap, ap₂, true, false, List, [], ◌∷◌, ℤ, pos, negsuc, arith, Bool-cases, inl,
  inr, All,
}
use dmacftu.Alloc.{Chan, Device, Drivers, enodev, dma_chan_get}
use dmacftu.Alloc.Clients.{is_enodev, get_channels}
use dmacftu.Alloc.Listing.{chan_ids}

-- No channel has a client.
abbrev pub AreIdle : List Chan → Type 0
AreIdle chs = All (λ ch. ch.client_count ≡ 0) chs

dma_chan_get-id :
    (drv : Drivers) (refs : ℕ) (d : Device) (ch : Chan) → (dma_chan_get drv refs d ch).2.id ≡ ch.id
unfolding dma_chan_get
dma_chan_get-id drv refs d ch = ground arith

pub get_channels-chan_ids :
    (drv : Drivers) (refs : ℕ) (d : Device) (chs : List Chan)
    → chan_ids (get_channels drv refs d chs).2 ≡ chan_ids chs
unfolding get_channels
get_channels-chan_ids drv refs d [] = refl
get_channels-chan_ids drv refs d (ch ∷ chs) =
    let got = dma_chan_get drv refs d ch in
    let first = dma_chan_get-id drv refs d ch in
    elim (Bool-cases (is_enodev got.0)) [
      | inl removed ↦ rw removed (ap (λ c. c ∷ chan_ids chs) first)
      | inr there ↦ rw there (
          ap₂ (λ c cs. c ∷ cs) first
            (get_channels-chan_ids drv refs (record d { owner_refs = got.1 }) chs))
    ]

is_enodev-eq : (e : ℤ) → is_enodev e ≡ true → e ≡ enodev
is_enodev-eq (pos n) e = ground (arith, e)
is_enodev-eq (negsuc n) e = let k : n ≡ 18 = ground (arith, e) in ap negsuc k

dma_chan_get-there :
    (drv : Drivers) (refs : ℕ) (d : Device) (ch : Chan)
    → drv.try_module_get d.dev_id ≡ true
    → is_enodev (drv.alloc_chan_resources ch.id) ≡ false
    → is_enodev (dma_chan_get drv refs d ch).0 ≡ false
unfolding dma_chan_get
dma_chan_get-there drv refs d ch there answer = ground (arith, there, answer)

dma_chan_get-absent :
    (drv : Drivers) (refs : ℕ) (d : Device) (ch : Chan)
    → drv.try_module_get d.dev_id ≡ false
    → ch.client_count ≡ 0
    → (is_enodev (dma_chan_get drv refs d ch).0 ≡ true)
      × ((dma_chan_get drv refs d ch).1 ≡ d.owner_refs)
unfolding dma_chan_get
dma_chan_get-absent drv refs d ch absent idle =
    (ground (arith, absent, idle), ground (arith, absent, idle))

module _ (drv : Drivers) (refs : ℕ) (answers : (c : ℕ) → drv.alloc_chan_resources c ≢ enodev) where
  not_enodev : (c : ℕ) → is_enodev (drv.alloc_chan_resources c) ≡ false
  not_enodev c = elim (Bool-cases (is_enodev (drv.alloc_chan_resources c))) [
    | inl e ↦ absurd (answers c (is_enodev-eq (drv.alloc_chan_resources c) e))
    | inr e ↦ e
  ]

  get_channels-there :
      (d : Device) (chs : List Chan)
      → drv.try_module_get d.dev_id ≡ true
      → (get_channels drv refs d chs).0 ≡ false
  unfolding get_channels
  get_channels-there d [] there = refl
  get_channels-there d (ch ∷ chs) there =
      let got = dma_chan_get drv refs d ch in
      rw (dma_chan_get-there drv refs d ch there (not_enodev ch.id))
        (get_channels-there (record d { owner_refs = got.1 }) chs there)

  get_channels-absent :
      (d : Device) (chs : List Chan)
      → AreIdle chs
      → drv.try_module_get d.dev_id ≡ false
      → (get_channels drv refs d chs).1 ≡ d.owner_refs
  unfolding get_channels
  get_channels-absent d [] idle absent = refl
  get_channels-absent d (ch ∷ chs) idle absent =
      let (removed, same) = dma_chan_get-absent drv refs d ch absent idle.0 in rw removed same

  -- Where no driver answers -ENODEV, a loop that finds the module removed has taken no reference.
  pub get_channels-kept :
      (d : Device) (chs : List Chan)
      → AreIdle chs
      → (get_channels drv refs d chs).0 ≡ true
      → (get_channels drv refs d chs).1 ≡ d.owner_refs
  get_channels-kept d chs idle removed = elim (Bool-cases (drv.try_module_get d.dev_id)) [
    | inr absent ↦ get_channels-absent d chs idle absent
    | inl there ↦ let e = get_channels-there d chs there in ground (arith, e, removed)
  ]
