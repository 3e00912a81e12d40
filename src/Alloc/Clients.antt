-- ===== src/Alloc/Clients.antt =====
-- The clients of the public channels: dmaengine_get and dmaengine_put, and the two calls of the copy
-- policies that count their users too (source/drivers/dma/dmaengine.c).
use dmacftu.Prelude.{
  ℕ, suc, ◌-◌, Bool, true, false, not, ◌&&◌, List, [], ◌∷◌, Option, none, some, ◌==◌, if◌then◌else◌,
  ℤ, pos, negsuc,
}
use dmacftu.Alloc.{Chan, Device, Drivers, dma_chan_get, dma_chan_put}
use dmacftu.Alloc.Table.{ChannelTable, Machine, dma_channel_rebalance}

-- The variables of the file: dmaengine_ref_count, copy_dmaengine_ref_count, dma_device_list and
-- channel_table.
pub record Dmaengine : Type 0 where
  pub ref_count : ℕ
  pub copy_ref_count : ℕ
  pub devices : List Device
  pub table : ChannelTable

abbrev pub is_enodev : ℤ → Bool
is_enodev (pos e) = false
is_enodev (negsuc e) = e == 18

-- The inner loop of dmaengine_get: whether the module was removed, the module's references and the
-- channels.
unfoldable pub get_channels : Drivers → ℕ → Device → List Chan → Bool × ℕ × List Chan
unfolding dma_chan_get
get_channels drv refs d [] = (false, d.owner_refs, [])
get_channels drv refs d (ch ∷ chs) =
    let (err, owner_refs, ch') = dma_chan_get drv refs d ch in
    let (removed, owner_refs', chs') =
      get_channels drv refs (record d { owner_refs = owner_refs }) chs in
    if is_enodev err then (true, owner_refs, ch' ∷ chs) else (removed, owner_refs', ch' ∷ chs')

abbrev pub with_channels : Device → Bool × ℕ × List Chan → Device
with_channels d (removed, owner_refs, chs) = record d {
  owner_refs = owner_refs;
  channels = chs;
  is_listed = if removed then false else d.is_listed;
}

abbrev pub is_public : Device → Bool
is_public d = d.is_listed && not d.is_private

unfoldable pub get_devices : Drivers → ℕ → List Device → List Device
unfolding get_channels
get_devices drv refs [] = []
get_devices drv refs (d ∷ ds) =
    (if is_public d then with_channels d (get_channels drv refs d d.channels) else d)
    ∷ get_devices drv refs ds

unfoldable pub dmaengine_get : Machine → Drivers → Dmaengine → Dmaengine
unfolding get_devices dma_channel_rebalance
dmaengine_get m drv s =
    let refs = suc s.ref_count in
    let ds = get_devices drv refs s.devices in
    let (table, ds') = dma_channel_rebalance m refs ds in
    if refs == 1
    then record s { ref_count = refs; devices = ds'; table = table }
    else record s { ref_count = refs; devices = ds }

-- The inner loop of dmaengine_put.
unfoldable pub put_channels : Device → List Chan → ℕ × List Chan
unfolding dma_chan_put
put_channels d [] = (d.owner_refs, [])
put_channels d (ch ∷ chs) =
    let (owner_refs, ch') = dma_chan_put d ch in
    let (owner_refs', chs') = put_channels (record d { owner_refs = owner_refs }) chs in
    (owner_refs', ch' ∷ chs')

unfoldable pub put_devices : List Device → List Device
unfolding put_channels
put_devices [] = []
put_devices (d ∷ ds) =
    (let (owner_refs, chs) = put_channels d d.channels in
      if is_public d then record d { owner_refs = owner_refs; channels = chs } else d)
    ∷ put_devices ds

-- dmaengine_put; none is its BUG_ON(dmaengine_ref_count < 0).
unfoldable pub dmaengine_put : Dmaengine → Option Dmaengine
unfolding put_devices
dmaengine_put s =
    if s.ref_count == 0
    then none
    else some (record s { ref_count = s.ref_count - 1; devices = put_devices s.devices })

unfoldable pub copy_dmaengine_get : Machine → Drivers → Dmaengine → Dmaengine
unfolding dmaengine_get
copy_dmaengine_get m drv s =
    let s' = dmaengine_get m drv s in record s' { copy_ref_count = suc s'.copy_ref_count }

-- copy_dmaengine_put; the count of its users stops at 0 here.
unfoldable pub copy_dmaengine_put : Dmaengine → Option Dmaengine
unfolding dmaengine_put
copy_dmaengine_put s = elim (dmaengine_put s) [
  | none ↦ none
  | some s' ↦ some (record s' { copy_ref_count = s'.copy_ref_count - 1 })
]
