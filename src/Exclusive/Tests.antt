-- ===== src/Exclusive/Tests.antt =====
-- The exclusive policy (source/drivers/dma/dma_policy_ex_sh.c) for two CPUs, on an allocator of three
-- channels the first of which is held by another client.
use dmacftu.Prelude.{ℕ, ◌≡◌, refl, true, false, List, [], ◌∷◌, pos, replicate}
use dmacftu.Alloc.{
  Chan, Device, Drivers, dma_chan_get, dma_request_channel, dma_release_channel, dma_chan_put,
}
use dmacftu.Alloc.AsPool.{HeldBy, allocator}
use dmacftu.Exclusive.{Slot, free_slot, taken_slot, start_policy_excl, stop_policy_excl}
use dmacftu.Exclusive.Atomic.{Started, start_policy_excl-Started, stop_policy_excl-after_start}
use dmacftu.Prelude.{arith}

abbrev free_chan : ℕ → Chan
free_chan id = record { id = id; client_count = 0; table_count = 0; has_resources = false }

abbrev devices : List Device
devices =
    record {
      dev_id = 0;
      caps = 0 ∷ [];
      is_private = true;
      privatecnt = 1;
      is_listed = true;
      owner_refs = 1;
      channels =
          record { id = 5; client_count = 1; table_count = 0; has_resources = true }
          ∷ free_chan 6
          ∷ free_chan 7
          ∷ [];
    }
    ∷ []

abbrev drivers : Drivers
drivers = record { alloc_chan_resources = λ c. pos 64; try_module_get = λ d. true }

abbrev slots : List Slot
slots = free_slot ∷ free_slot ∷ []

devices-HeldBy : HeldBy devices (5 ∷ [])
devices-HeldBy = record {
  in_order = (record { bit = refl; enough = omega arith }, tt);
  own_numbers = λ c. ground arith;
  references = λ c. ground arith;
}

start-both :
    (start_policy_excl (allocator drivers 0) slots devices).1 ≡ taken_slot 6 ∷ taken_slot 7 ∷ []
unfolding start_policy_excl dma_request_channel dma_chan_get
start-both = refl

-- With a third CPU there are not enough channels.
start-refused :
    (start_policy_excl (allocator drivers 0) (free_slot ∷ slots) devices).1
    ≡ free_slot ∷ free_slot ∷ free_slot ∷ []
unfolding start_policy_excl dma_request_channel dma_chan_get dma_release_channel dma_chan_put
start-refused = refl

start_policy_excl-Started_example :
    Started (allocator drivers 0) (5 ∷ []) 2 (start_policy_excl (allocator drivers 0) slots devices)
start_policy_excl-Started_example =
    start_policy_excl-Started (allocator drivers 0) (5 ∷ []) slots devices devices-HeldBy (tt, tt)

stop_policy_excl-after_start_example :
    ((stop_policy_excl
        (allocator drivers 0)
        (start_policy_excl (allocator drivers 0) slots devices).1
        (start_policy_excl (allocator drivers 0) slots devices).2).0
      ≡ replicate 2 free_slot)
    × HeldBy
        (stop_policy_excl
          (allocator drivers 0)
          (start_policy_excl (allocator drivers 0) slots devices).1
          (start_policy_excl (allocator drivers 0) slots devices).2).1
        (5 ∷ [])
stop_policy_excl-after_start_example =
    stop_policy_excl-after_start (allocator drivers 0) (5 ∷ []) slots devices devices-HeldBy
      (tt, tt)
