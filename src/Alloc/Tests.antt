-- ===== src/Alloc/Tests.antt =====
-- The channel allocator of source/drivers/dma/dmaengine.c on one device of two channels.
use dmacftu.Prelude.{
  ℕ, ◌≡◌, refl, Bool, true, false, List, [], ◌∷◌, ◌++◌, none, some, arith, pos, All, inl, inr, ◌==◌,
  if◌then◌else◌,
}
use dmacftu.Alloc.{
  Chan, Device, Drivers, dma_memcpy, dma_chan_get, dma_chan_put, dma_request_channel,
  dma_release_channel,
}
use dmacftu.Alloc.AsPool.{
  HeldBy, request_memcpy, PoolRequest, request_memcpy-PoolRequest, dma_release_channel-HeldBy,
}
use dmacftu.Alloc.Table.{Machine, nth_chan, dma_channel_rebalance}
use dmacftu.Alloc.Table.Nth.{nth_chan_lem}
use dmacftu.Alloc.Table.Rebalance.{IsSound, dma_channel_rebalance-IsSound}
use dmacftu.Alloc.Clients.{Dmaengine, dmaengine_get, dmaengine_put}
use dmacftu.Alloc.Balance.{IsBalanced, put_after_get}
use dmacftu.Alloc.Following.{dmaengine_get-IsBalanced, dmaengine_put-IsBalanced}

abbrev chan : ℕ → ℕ → Chan
chan id count = record {
  id = id;
  client_count = count;
  table_count = 0;
  has_resources = if count == 0 then false else true;
}

abbrev device : Bool → ℕ → List Chan → Device
device private count chs = record {
  dev_id = 0;
  caps = dma_memcpy ∷ [];
  is_private = private;
  privatecnt = count;
  is_listed = true;
  owner_refs = 0;
  channels = chs;
}

abbrev drivers : Drivers
drivers = record { alloc_chan_resources = λ c. pos 64; try_module_get = λ d. true }

-- Two free channels, and the same with the first one held.
abbrev free_devices : List Device
free_devices = device false 0 (chan 7 0 ∷ chan 8 0 ∷ []) ∷ []

abbrev held_devices : List Device
held_devices = device true 1 (chan 7 1 ∷ chan 8 0 ∷ []) ∷ []

request-first_channel : (request_memcpy drivers 0 free_devices).0 ≡ some 7
unfolding dma_request_channel dma_chan_get
request-first_channel = refl

free_devices-HeldBy : HeldBy free_devices []
free_devices-HeldBy = record {
  in_order = (record { bit = refl; enough = omega arith }, tt);
  own_numbers = λ c. ground arith;
  references = λ c. refl;
}

held_devices-HeldBy : HeldBy held_devices (7 ∷ [])
held_devices-HeldBy = record {
  in_order = (record { bit = refl; enough = omega arith }, tt);
  own_numbers = λ c. ground arith;
  references = λ c. ground arith;
}

request_memcpy-PoolRequest_example : PoolRequest (7 ∷ []) (request_memcpy drivers 0 held_devices)
request_memcpy-PoolRequest_example =
    request_memcpy-PoolRequest drivers 0 held_devices (7 ∷ []) held_devices-HeldBy

dma_release_channel-HeldBy_example : HeldBy (dma_release_channel 7 held_devices) ([] ++ [])
dma_release_channel-HeldBy_example =
    dma_release_channel-HeldBy held_devices [] [] 7 held_devices-HeldBy

got_one : (dma_chan_get drivers 0 (device true 1 []) (chan 7 0)).0 ≡ pos 0
unfolding dma_chan_get
got_one = refl

got_then_put :
    ((dma_chan_put
        (record (device true 1 []) {
          owner_refs = (dma_chan_get drivers 0 (device true 1 []) (chan 7 0)).1;
        })
        (dma_chan_get drivers 0 (device true 1 []) (chan 7 0)).2).0
      ≡ 0)
    × ((dma_chan_put
          (record (device true 1 []) {
            owner_refs = (dma_chan_get drivers 0 (device true 1 []) (chan 7 0)).1;
          })
          (dma_chan_get drivers 0 (device true 1 []) (chan 7 0)).2).1.client_count
        ≡ 0)
    × ((dma_chan_put
          (record (device true 1 []) {
            owner_refs = (dma_chan_get drivers 0 (device true 1 []) (chan 7 0)).1;
          })
          (dma_chan_get drivers 0 (device true 1 []) (chan 7 0)).2).1.has_resources
        ≡ false)
got_then_put = put_after_get drivers 0 (device true 1 []) (chan 7 0) refl refl got_one

-- Three public channels, the second of which could not be given its resources.
abbrev public_devices : List Device
public_devices = device false 0 (chan 7 2 ∷ chan 8 0 ∷ chan 9 2 ∷ []) ∷ []

abbrev machine : Machine
machine = record { online = 0 ∷ 1 ∷ []; is_multi = true; capabilities = dma_memcpy ∷ [] }

second_in_use : (nth_chan dma_memcpy (some 1) public_devices).0 ≡ some 9
second_in_use = nth_chan_lem dma_memcpy 1 public_devices (chan 9 2) refl

dma_channel_rebalance-IsSound_example :
    IsSound public_devices (dma_channel_rebalance machine 2 public_devices)
dma_channel_rebalance-IsSound_example = dma_channel_rebalance-IsSound machine 2 public_devices

abbrev dmaengine : Dmaengine
dmaengine = record {
  ref_count = 2;
  copy_ref_count = 1;
  devices = public_devices;
  table = λ cap cpu. none;
}

dmaengine-IsBalanced : All (IsBalanced 2) public_devices
dmaengine-IsBalanced = ((inr refl, (inl refl, (inr refl, tt))), tt)

dmaengine_get-IsBalanced_example :
    All
      (IsBalanced (dmaengine_get machine drivers dmaengine).ref_count)
      (dmaengine_get machine drivers dmaengine).devices
dmaengine_get-IsBalanced_example =
    dmaengine_get-IsBalanced machine drivers dmaengine dmaengine-IsBalanced

dmaengine_put-IsBalanced_example :
    (s' : Dmaengine) × (dmaengine_put dmaengine ≡ some s')
    × All (IsBalanced s'.ref_count) s'.devices
dmaengine_put-IsBalanced_example =
    dmaengine_put-IsBalanced dmaengine dmaengine-IsBalanced (omega arith)
