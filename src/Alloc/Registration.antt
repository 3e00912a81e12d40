-- ===== src/Alloc/Registration.antt =====
-- The registration of DMA devices: get_dma_id, dma_async_device_register, chan_dev_release and
-- dma_async_device_unregister of source/drivers/dma/dmaengine.c. The names in sysfs are left out.
use dmacftu.Prelude.{
  ℕ, suc, ◌-◌, Bool, true, false, not, ◌&&◌, ◌||◌, List, [], ◌∷◌, ◌++◌, Option, none, some, ltb,
  ◌==◌, if◌then◌else◌, ℤ, pos, negsuc, replicate, length,
}
use dmacftu.Trace.Module.{enomem, remove, is_zero}
use dmacftu.Alloc.{Chan, Device, Drivers, enodev, dma_has_cap, dma_device_satisfies_mask}
use dmacftu.Alloc.Table.{Machine, dma_channel_rebalance}
use dmacftu.Alloc.Clients.{Dmaengine, get_channels}

-- What a channel holds: the memory of chan->local, the memory of chan->dev, and its place in sysfs.
pub record ChanMemory : Type 0 where
  pub has_local : Bool
  pub has_dev : Bool
  pub is_registered : Bool

abbrev pub no_memory : ChanMemory
no_memory = record { has_local = false; has_dev = false; is_registered = false }

abbrev pub all_memory : ChanMemory
all_memory = record { has_local = true; has_dev = true; is_registered = true }

-- The numbers in use (dma_idr); and of the device that is registered its counter idr_ref, while its
-- memory is there, and what its channels hold.
pub record Holding : Type 0 where
  pub ids : List ℕ
  pub idr_ref : Option ℕ
  pub chans : List ChanMemory

-- The kernel's answers: the memory of idr_ref, the number (or an error), and for each channel of the
-- device the memory of its `local`, the memory of its `dev`, and device_register.
pub record Kernel : Type 0 where
  pub kmalloc : Bool
  pub idr_alloc : ℤ
  pub alloc_percpu : ℕ → Bool
  pub kzalloc : ℕ → Bool
  pub device_register : ℕ → ℤ

-- The routines of a device: for each capability the one that it needs, and the five that every device
-- needs.
pub record Routines : Type 0 where
  pub prep : ℕ → Bool
  pub basic : Bool

-- The capabilities for which the source asks for a routine, in its order: MEMCPY, XOR, XOR_VAL, PQ,
-- PQ_VAL, MEMSET, INTERRUPT, SG, CYCLIC, SLAVE and INTERLEAVE.
abbrev pub asked_for : List ℕ
asked_for = 0 ∷ 1 ∷ 3 ∷ 2 ∷ 4 ∷ 5 ∷ 6 ∷ 7 ∷ 11 ∷ 10 ∷ 12 ∷ []

abbrev pub lacks : Routines → Device → List ℕ → Bool
lacks r d [] = false
lacks r d (cap ∷ caps) = (dma_has_cap cap d && not (r.prep cap)) || lacks r d caps

-- DMA_ASYNC_TX.
abbrev pub dma_async_tx : ℕ
dma_async_tx = 9

-- device_has_all_tx_types, for the capabilities that the configuration asks for.
abbrev pub device_has_all_tx_types : Device → List ℕ → Bool
device_has_all_tx_types d wanted = dma_device_satisfies_mask d wanted

abbrev pub with_async_tx : List ℕ → Device → Device
with_async_tx wanted d =
    if device_has_all_tx_types d wanted then record d { caps = dma_async_tx ∷ d.caps } else d

-- The loop that represents the channels in sysfs, from channel i on with idr_ref at n: the error, idr_ref,
-- what the channels hold, and the channels.
unfoldable pub register_channels :
    Kernel → ℕ → ℕ → List Chan → Option ℤ × ℕ × List ChanMemory × List Chan
register_channels k i n [] = (none, n, [], [])
register_channels k i n (ch ∷ chs) =
    let (err, n', ms, chs') = register_channels k (suc i) (suc n) chs in
    let rest = no_memory ∷ replicate (length chs) no_memory in
    if not (k.alloc_percpu i)
    then (some enomem, n, rest, ch ∷ chs)
    else if not (k.kzalloc i)
    then (some enomem, n, rest, ch ∷ chs)
    else if not (is_zero (k.device_register i))
    then (some (k.device_register i), suc n - 1, rest, ch ∷ chs)
    else (err, n', all_memory ∷ ms, record ch { client_count = 0 } ∷ chs')

-- dma_idr and idr_ref.
pub record Idr : Type 0 where
  pub ids : List ℕ
  pub idr_ref : Option ℕ

-- chan_dev_release of a channel of device number id.
abbrev pub drop_ref : ℕ → List ℕ → Option ℕ → Idr
drop_ref id ids none = record { ids = ids; idr_ref = none }
drop_ref id ids (some n) =
    if n - 1 == 0
    then record { ids = remove id ids; idr_ref = none }
    else record { ids = ids; idr_ref = some (n - 1) }

abbrev pub chan_dev_release : ℕ → Idr → Idr
chan_dev_release id st = drop_ref id st.ids st.idr_ref

-- The loop at the label err_out, which passes by the channels without `local`.
unfoldable pub unregister_some : ℕ → List ChanMemory → Idr → List ChanMemory × Idr
unregister_some id [] st = ([], st)
unregister_some id (c ∷ cs) st =
    let (cs0, st0) = unregister_some id cs st in
    let (cs1, st1) = unregister_some id cs (chan_dev_release id st) in
    if not c.has_local then (c ∷ cs0, st0) else (no_memory ∷ cs1, st1)

-- The loop of dma_async_device_unregister.
unfoldable pub unregister_all : ℕ → List ChanMemory → Idr → List ChanMemory × Idr
unregister_all id [] st = ([], st)
unregister_all id (c ∷ cs) st =
    let (cs1, st1) = unregister_all id cs (chan_dev_release id st) in (no_memory ∷ cs1, st1)

-- A call returns, or stops at a BUG_ON. It returns with the device as it is then, unless there was none or
-- dma_device_list has it.
pub data Call : Type 0 where
  returned : ℤ → Dmaengine → Holding → Option Device → Call
  bug : Call

abbrev pub held_after : List ChanMemory × Idr → Holding
held_after (chans, st) = record { ids = st.ids; idr_ref = st.idr_ref; chans = chans }

-- The label err_out, for an error and the device, with idr_ref at n. References on the channels that were
-- taken are kept.
abbrev pub err_out : ℤ → Device → ℕ → Dmaengine → Holding → Call
err_out rc d n s h =
    if n == 0
    then returned rc s (record h { ids = remove d.dev_id h.ids; idr_ref = none }) (some d)
    else returned rc s
        (held_after (unregister_some d.dev_id h.chans (record { ids = h.ids; idr_ref = some n })))
        (some d)

-- The device enters dma_device_list.
abbrev pub publish : Machine → Device → Dmaengine → Holding → Call
publish m d s h =
    let listed = record d {
      is_listed = true;
      privatecnt = if d.is_private then suc d.privatecnt else d.privatecnt;
    } in
    let (table, ds) = dma_channel_rebalance m s.ref_count (s.devices ++ listed ∷ []) in
    returned (pos 0) (record s { devices = ds; table = table }) h none

-- References on the channels of a public device, for the clients that wait.
abbrev pub after_get : Machine → Device → ℕ → Dmaengine → Holding → Bool × ℕ × List Chan → Call
after_get m d n s h (true, owner_refs, chs) =
    err_out enodev (record d { owner_refs = owner_refs; channels = chs }) n s h
after_get m d n s h (false, owner_refs, chs) =
    publish m (record d { owner_refs = owner_refs; channels = chs }) s h

abbrev pub take_references : Machine → Drivers → Device → ℕ → Dmaengine → Holding → Call
take_references m drv d n s h =
    if ltb 0 s.ref_count && not d.is_private
    then after_get m d n s h (get_channels drv s.ref_count d d.channels)
    else publish m d s h

abbrev pub after_channels :
    Machine
    → Drivers
    → Device
    → Dmaengine
    → Holding
    → Option ℤ × ℕ × List ChanMemory × List Chan
    → Call
after_channels m drv d s h (some rc, n, ms, chs) =
    err_out rc (record d { channels = chs }) n s (record h { idr_ref = some n; chans = ms })
after_channels m drv d s h (none, n, ms, chs) =
    take_references m drv (record d { channels = chs }) n s
      (record h { idr_ref = some n; chans = ms })

-- The number that get_dma_id stores in the device.
abbrev pub after_id : Machine → Drivers → Kernel → Device → Dmaengine → Holding → ℤ → Call
after_id m drv k d s h (negsuc e) = returned (negsuc e) s h (some d)
after_id m drv k d s h (pos id) =
    after_channels m drv (record d { dev_id = id }) s (record h { ids = id ∷ h.ids })
      (register_channels k 0 0 d.channels)

-- dma_async_device_register of a device, for the capabilities that the configuration asks for.
unfoldable pub dma_async_device_register :
    Machine → Drivers → Kernel → List ℕ → Routines → Option Device → Dmaengine → Holding → Call
unfolding register_channels unregister_some get_channels dma_channel_rebalance
    dma_device_satisfies_mask
dma_async_device_register m drv k wanted r none s h = returned enodev s h none
dma_async_device_register m drv k wanted r (some d) s h =
    if lacks r d asked_for || not r.basic
    then bug
    else if not k.kmalloc
    then returned enomem s h (some (with_async_tx wanted d))
    else after_id m drv k (with_async_tx wanted d) s h k.idr_alloc

-- The list without a device, which is known by its number.
abbrev pub list_del : ℕ → List Device → List Device
list_del id [] = []
list_del id (d ∷ ds) = if d.dev_id == id then ds else d ∷ list_del id ds

-- dma_async_device_unregister of the device with number id.
unfoldable pub dma_async_device_unregister : Machine → ℕ → Dmaengine → Holding → Dmaengine × Holding
unfolding unregister_all dma_channel_rebalance
dma_async_device_unregister m id s h =
    let (table, ds) = dma_channel_rebalance m s.ref_count (list_del id s.devices) in
    (
      record s { devices = ds; table = table },
      held_after (unregister_all id h.chans (record { ids = h.ids; idr_ref = h.idr_ref })),
    )
