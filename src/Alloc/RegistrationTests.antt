-- ===== src/Alloc/RegistrationTests.antt =====
-- The registration of a device of two channels at concrete answers of the kernel
-- (source/drivers/dma/dmaengine.c).
use dmacftu.Prelude.{
  ℕ, ◌≡◌, refl, true, false, List, [], ◌∷◌, Option, none, some, ℤ, pos, negsuc, arith, inl, inr,
  ◌==◌, ltb, if◌then◌else◌, All,
}
use dmacftu.Alloc.{Chan, Device, Drivers, enodev, dma_memcpy, dma_chan_get}
use dmacftu.Alloc.Table.{Machine}
use dmacftu.Alloc.Table.Rebalance.{IsSound}
use dmacftu.Alloc.Clients.{Dmaengine, get_channels}
use dmacftu.Alloc.Balance.{IsBalanced}
use dmacftu.Alloc.Registration.{
  Kernel, Routines, Call, returned, bug, dma_async_device_register, dma_async_device_unregister,
  list_del, register_channels, unregister_some,
}
use dmacftu.Alloc.Unwinding.{nothing_held, all_held}
use dmacftu.Alloc.Registered.{
  Registered, dma_async_device_register-Registered, dma_async_device_unregister-gives_back,
}

abbrev chan : ℕ → ℕ → Chan
chan id count = record {
  id = id;
  client_count = count;
  table_count = 0;
  has_resources = ltb 0 count;
}

abbrev device : ℕ → List Chan → Device
device id chs = record {
  dev_id = id;
  caps = dma_memcpy ∷ [];
  is_private = false;
  privatecnt = 0;
  is_listed = true;
  owner_refs = 0;
  channels = chs;
}

abbrev new_device : Device
new_device = record (device 0 (chan 8 5 ∷ chan 9 5 ∷ [])) { is_listed = false }

abbrev drivers : Drivers
drivers = record { alloc_chan_resources = λ c. pos 64; try_module_get = λ d. true }

abbrev machine : Machine
machine = record { online = 0 ∷ 1 ∷ []; is_multi = true; capabilities = dma_memcpy ∷ [] }

-- Two clients wait, and one device is there.
abbrev dmaengine : Dmaengine
dmaengine = record {
  ref_count = 2;
  copy_ref_count = 1;
  devices = device 3 (chan 7 2 ∷ []) ∷ [];
  table = λ cap cpu. none;
}

-- The second channel is answered `second`.
abbrev kernel : ℤ → Kernel
kernel second = record {
  kmalloc = true;
  idr_alloc = pos 4;
  alloc_percpu = λ i. true;
  kzalloc = λ i. true;
  device_register = λ i. if i == 1 then second else pos 0;
}

abbrev routines : Routines
routines = record { prep = λ cap. cap == dma_memcpy; basic = true }

second-fails :
    dma_async_device_register machine drivers
      (kernel (negsuc 11))
      []
      routines
      (some new_device)
      dmaengine
      (nothing_held (3 ∷ []) 2)
    ≡ returned (negsuc 11) dmaengine (nothing_held (3 ∷ []) 2) (
        some (record new_device {
          dev_id = 4;
          caps = 9 ∷ dma_memcpy ∷ [];
          channels = record (chan 8 5) { client_count = 0 } ∷ chan 9 5 ∷ [];
        }))
unfolding dma_async_device_register register_channels unregister_some
second-fails = refl

-- The driver answers -ENODEV for the second channel: the references on the first one are kept.
abbrev late_enodev : Drivers
late_enodev = record drivers { alloc_chan_resources = λ c. if c == 9 then enodev else pos 64 }

abbrev device_after : Call → Option Device
device_after (returned rc s h d) = d
device_after bug = none

references-kept :
    device_after (
      dma_async_device_register machine late_enodev
        (kernel (pos 0))
        []
        routines
        (some new_device)
        dmaengine
        (nothing_held (3 ∷ []) 2))
    ≡ some (record new_device {
      dev_id = 4;
      caps = 9 ∷ dma_memcpy ∷ [];
      owner_refs = 2;
      channels = chan 8 2 ∷ chan 9 0 ∷ [];
    })
unfolding dma_async_device_register register_channels unregister_some get_channels dma_chan_get
references-kept = refl

dma_async_device_register-Registered_example : Registered drivers new_device dmaengine (3 ∷ []) (
    dma_async_device_register machine drivers
      (kernel (pos 0))
      []
      routines
      (some new_device)
      dmaengine
      (nothing_held (3 ∷ []) 2))
dma_async_device_register-Registered_example =
    dma_async_device_register-Registered machine drivers (kernel (pos 0)) [] routines new_device
      dmaengine (3 ∷ []) refl ((inr refl, tt), tt)

-- Both devices are there, and the second one goes.
abbrev with_both : Dmaengine
with_both = record dmaengine {
  devices = device 3 (chan 7 2 ∷ []) ∷ device 4 (chan 8 0 ∷ chan 9 0 ∷ []) ∷ [];
}

dma_async_device_unregister-gives_back_example :
    ((dma_async_device_unregister machine 4 with_both (all_held 4 (3 ∷ []) 2)).1
      ≡ nothing_held (3 ∷ []) 2)
    × All
        (IsBalanced 2)
        (dma_async_device_unregister machine 4 with_both (all_held 4 (3 ∷ []) 2)).0.devices
    × IsSound (list_del 4 with_both.devices) (
      (dma_async_device_unregister machine 4 with_both (all_held 4 (3 ∷ []) 2)).0.table,
      (dma_async_device_unregister machine 4 with_both (all_held 4 (3 ∷ []) 2)).0.devices,
    )
dma_async_device_unregister-gives_back_example =
    dma_async_device_unregister-gives_back machine 4 2 with_both (3 ∷ []) (omega arith)
      ((inr refl, tt), ((inl refl, (inl refl, tt)), tt))
