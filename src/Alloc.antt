-- ===== src/Alloc.antt =====
-- The channel allocator of source/drivers/dma/dmaengine.c: the devices and their channels, taking and
-- dropping a reference to a channel (dma_chan_get, dma_chan_put), and requesting and releasing one for
-- oneself (private_candidate, __dma_request_channel, dma_release_channel). The lock dma_list_mutex makes
-- each of these one step.
pub mod Table
pub mod Clients
pub mod Sums
pub mod Holds
pub mod Requests
pub mod Releases
pub mod AsPool
pub mod Balance
pub mod Following
pub mod Registration
pub mod Listing
pub mod Kept
pub mod Unwinding
pub mod Registered
mod RegistrationTests
mod Tests
use dmacftu.Prelude.{
  elem, ℕ, zero, suc, ◌+◌, ◌-◌, Bool, true, false, not, ◌&&◌, List, [], ◌∷◌, Option, none, some,
  ltb, ◌==◌, if◌then◌else◌, ℤ, pos, negsuc, is_neg, length, set, get_elem?,
}

-- `struct dma_chan`: its number, which stands for its address, client_count and table_count, and whether its device has allocated
-- the channel's resources.
pub record Chan : Type 0 where
  pub id : ℕ
  pub client_count : ℕ
  pub table_count : ℕ
  pub has_resources : Bool

-- `struct dma_device`: its number, the capabilities of its cap_mask with the bit DMA_PRIVATE apart,
-- privatecnt, whether it is in dma_device_list, the references that its channels hold on the module of
-- its driver, and its channels.
pub record Device : Type 0 where
  pub dev_id : ℕ
  pub caps : List ℕ
  pub is_private : Bool
  pub privatecnt : ℕ
  pub is_listed : Bool
  pub owner_refs : ℕ
  pub channels : List Chan

-- What the device drivers and the module loader answer during one call: device_alloc_chan_resources of
-- each channel, and try_module_get of each device's module.
pub record Drivers : Type 0 where
  pub alloc_chan_resources : ℕ → ℤ
  pub try_module_get : ℕ → Bool

abbrev pub dma_memcpy : ℕ
dma_memcpy = 0

abbrev pub dma_private : ℕ
dma_private = 8

abbrev pub enodev : ℤ
enodev = negsuc 18

-- dma_has_cap on the device's cap_mask.
abbrev pub dma_has_cap : ℕ → Device → Bool
dma_has_cap cap d = if cap == dma_private then d.is_private else elem cap d.caps

-- __dma_device_satisfies_mask; the mask is the list of its bits.
unfoldable pub dma_device_satisfies_mask : Device → List ℕ → Bool
dma_device_satisfies_mask d [] = true
dma_device_satisfies_mask d (cap ∷ want) = dma_has_cap cap d && dma_device_satisfies_mask d want

-- balance_ref_count: the client count is brought up to dmaengine_ref_count.
abbrev pub balance_ref_count : ℕ → ℕ → ℕ
balance_ref_count refs count = if ltb count refs then refs else count

-- A channel that has lost its last reference, or that was never given its resources.
abbrev pub closed : Chan → Chan
closed ch = record ch { client_count = 0; has_resources = false }

-- dma_chan_get: the error, the module's references and the channel.
unfoldable pub dma_chan_get : Drivers → ℕ → Device → Chan → ℤ × ℕ × Chan
dma_chan_get drv refs d ch =
    let count = suc ch.client_count in
    let balanced = if not d.is_private then balance_ref_count refs count else count in
    let desc = drv.alloc_chan_resources ch.id in
    if ltb 0 ch.client_count
    then (pos 0, suc d.owner_refs, record ch { client_count = count })
    else if not (drv.try_module_get d.dev_id)
    then (enodev, d.owner_refs, ch)
    else if is_neg desc
    then (desc, d.owner_refs, closed ch)
    else (
      pos 0,
      d.owner_refs + balanced,
      record ch { client_count = balanced; has_resources = true },
    )

-- dma_chan_put: the module's references and the channel.
unfoldable pub dma_chan_put : Device → Chan → ℕ × Chan
dma_chan_put d ch =
    let count = ch.client_count - 1 in
    if ch.client_count == 0
    then (d.owner_refs, ch)
    else (d.owner_refs - 1, if count == 0 then closed ch else record ch { client_count = count })

-- Whether a channel of the device is in use.
abbrev pub any_in_use : List Chan → Bool
any_in_use [] = false
any_in_use (ch ∷ chs) = if ltb 0 ch.client_count then true else any_in_use chs

abbrev pub next_index : Option ℕ → Option ℕ
next_index none = none
next_index (some i) = some (suc i)

-- The last loop of private_candidate: the index of the first channel that is free and that the filter
-- accepts.
unfoldable pub first_free : (ℕ → Bool) → List Chan → Option ℕ
first_free fn [] = none
first_free fn (ch ∷ chs) =
    let rest = next_index (first_free fn chs) in
    if ltb 0 ch.client_count then rest else if not (fn ch.id) then rest else some 0

unfoldable pub private_candidate : List ℕ → (ℕ → Bool) → Device → Option ℕ
unfolding dma_device_satisfies_mask first_free
private_candidate want fn d =
    if not (dma_device_satisfies_mask d want)
    then none
    else if ltb 1 (length d.channels) && not d.is_private && any_in_use d.channels
    then none
    else first_free fn d.channels

-- `if (--device->privatecnt == 0) dma_cap_clear(DMA_PRIVATE, ...)`. The count stops at 0 here; the
-- allocator never drops it below.
abbrev pub drop_private : Device → Device
drop_private d = record d {
  privatecnt = d.privatecnt - 1;
  is_private = if d.privatecnt == 1 then false else d.is_private;
}

abbrev pub make_private : Device → Device
make_private d = record d { is_private = true; privatecnt = suc d.privatecnt }

-- What __dma_request_channel does with a candidate: the channel's number if it was taken, and the
-- device.
abbrev pub keep_or_drop : ℕ → Device → ℕ → ℤ × ℕ × Chan → Option ℕ × Device
keep_or_drop c d i (pos e, owner_refs, ch) =
    (some c, record d { owner_refs = owner_refs; channels = set d.channels i ch })
keep_or_drop c d i (negsuc e, owner_refs, ch) = (
  none,
  drop_private (record d {
    owner_refs = owner_refs;
    channels = set d.channels i ch;
    is_listed = if e == 18 then false else d.is_listed;
  }),
)

abbrev pub grab_at : Drivers → ℕ → Device → ℕ → Option Chan → Option ℕ × Device
grab_at drv refs d i none = (none, d)
grab_at drv refs d i (some ch) =
    keep_or_drop ch.id (make_private d) i (dma_chan_get drv refs (make_private d) ch)

-- One round of the loop of __dma_request_channel.
unfoldable pub try_device : Drivers → ℕ → List ℕ → (ℕ → Bool) → Device → Option ℕ × Device
unfolding private_candidate
try_device drv refs want fn d =
    if not d.is_listed then (none, d) else elim (private_candidate want fn d) [
      | none ↦ (none, d)
      | some i ↦ grab_at drv refs d i (get_elem? d.channels i)
    ]

-- __dma_request_channel, over the devices in the order of dma_device_list.
unfoldable pub dma_request_channel :
    Drivers → ℕ → List ℕ → (ℕ → Bool) → List Device → Option ℕ × List Device
unfolding try_device
dma_request_channel drv refs want fn [] = (none, [])
dma_request_channel drv refs want fn (d ∷ ds) =
    let (taken, d') = try_device drv refs want fn d in
    let (later, ds') = dma_request_channel drv refs want fn ds in
    elim taken [ none ↦ (later, d' ∷ ds') | some c ↦ (some c, d' ∷ ds) ]

abbrev pub put_at : Device → ℕ → ℕ × Chan → Device
put_at d i (owner_refs, ch) =
    drop_private (record d { owner_refs = owner_refs; channels = set d.channels i ch })

-- The index of a channel in its device.
abbrev pub index_of : ℕ → List Chan → Option ℕ
index_of c [] = none
index_of c (ch ∷ chs) = if ch.id == c then some 0 else next_index (index_of c chs)

abbrev pub release_at : Device → ℕ → Option Chan → Device
release_at d i none = d
release_at d i (some ch) = put_at d i (dma_chan_put d ch)

-- dma_release_channel; the device is the one the channel belongs to.
unfoldable pub dma_release_channel : ℕ → List Device → List Device
dma_release_channel c [] = []
dma_release_channel c (d ∷ ds) =
    let rest = dma_release_channel c ds in
    elim (index_of c d.channels) [
      | none ↦ d ∷ rest
      | some i ↦ release_at d i (get_elem? d.channels i) ∷ ds
    ]
