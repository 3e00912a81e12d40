-- ===== src/Bench/Cases.antt =====
-- The policies of source/drivers/dma/dma_policy_ex_sh.c and source/drivers/dma/dma_policy_prio.c on an
-- allocator of four channels, the first of which is held by another client, for two CPUs.
use dmacftu.Prelude.{ℕ, refl, true, false, List, [], ◌∷◌, ◌==◌, if◌then◌else◌, ℤ, pos, arith}
use dmacftu.Alloc.{Chan, Drivers, Device}
use dmacftu.Alloc.AsPool.{HeldBy, allocator}
use dmacftu.Exclusive.{free_slot}
use dmacftu.Priority.Start.{prio_list}
use dmacftu.Trace.Module.{Answers}
use dmacftu.Bench.Policies.{Policies, idle}
use dmacftu.Bench.Running.{PolicyState, RunsPolicy, nothing, policies}

abbrev free_chan : ℕ → Chan
free_chan id = record { id = id; client_count = 0; table_count = 0; has_resources = false }

abbrev devices : List Device
devices =
    record {
      dev_id = 0;
      caps = 0 ∷ [];
      is_private = true;
      privatecnt = 1;
      is_listed = true;
      owner_refs = 1;
      channels =
          record { id = 5; client_count = 1; table_count = 0; has_resources = true }
          ∷ free_chan 6
          ∷ free_chan 7
          ∷ free_chan 8
          ∷ [];
    }
    ∷ []

abbrev pub drivers : Drivers
drivers = record { alloc_chan_resources = λ c. pos 64; try_module_get = λ d. true }

devices-HeldBy : HeldBy devices (5 ∷ [])
devices-HeldBy = record {
  in_order = (record { bit = refl; enough = omega arith }, tt);
  own_numbers = λ c. ground arith;
  references = λ c. ground arith;
}

abbrev pub state : PolicyState (List Device)
state = record {
  slots = free_slot ∷ free_slot ∷ [];
  list_chan_prio = prio_list [] 0 (0 ∷ 0 ∷ 0 ∷ 0 ∷ []);
  timer = record { is_armed = false; interval = 0; tick = 0; overruns_2 = 0; quantum = 0 ∷ 0 ∷ [] };
  suspended = λ d. false;
  users = 0;
  channels = devices;
}

abbrev pub on_allocator : Policies
on_allocator = policies (allocator drivers 0) (5 ∷ []) (tt, tt)

pub state-RunsPolicy : RunsPolicy (allocator drivers 0) (5 ∷ []) (tt, tt) idle state
state-RunsPolicy = nothing refl devices-HeldBy

-- The kernel's answers, of which the third device may fail.
abbrev pub answers : ℤ → Answers
answers third = record {
  kzalloc = λ i. true;
  alloc_chrdev_region = pos 0;
  class_create = pos 0;
  cdev_add = λ i. pos 0;
  device_create = λ i. if i == 2 then third else pos 0;
}
