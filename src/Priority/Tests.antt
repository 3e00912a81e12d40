-- ===== src/Priority/Tests.antt =====
-- The priority policy (source/drivers/dma/dma_policy_prio.c) on an allocator of four channels.
use dmacftu.Prelude.{ℕ, ◌≡◌, refl, true, false, ◌&&◌, List, [], ◌∷◌, pos, arith}
use dmacftu.Alloc.{Chan, Device, Drivers, dma_chan_get, dma_request_channel}
use dmacftu.Alloc.AsPool.{HeldBy, allocator}
use dmacftu.Prelude.{none, some, get_elem?}
use dmacftu.Channels.{ListChanPrio, ChannelState, boot_none, copy_dma_get_channel_prio}
use dmacftu.Priority.Lookup.{copy_dma_get_channel_prio-after_start}
use dmacftu.Priority.{PriorityTimer, Suspended, start_timer, start_policy_prio2}
use dmacftu.Priority.Quanta.{
  run_callbacks, is_odd, is_lowered, run_callbacks-alternate, run_callbacks-interval,
}
use dmacftu.Priority.Session.{session, session-restores}
use dmacftu.Priority.Start.{PrioStarted, start_policy_prio2-PrioStarted, prio_list}

abbrev free_chan : ℕ → Chan
free_chan id = record { id = id; client_count = 0; table_count = 0; has_resources = false }

abbrev devices : List Device
devices =
    record {
      dev_id = 0;
      caps = 0 ∷ [];
      is_private = false;
      privatecnt = 0;
      is_listed = true;
      owner_refs = 0;
      channels = free_chan 5 ∷ free_chan 6 ∷ free_chan 7 ∷ free_chan 8 ∷ [];
    }
    ∷ []

abbrev drivers : Drivers
drivers = record { alloc_chan_resources = λ c. pos 64; try_module_get = λ d. true }

devices-HeldBy : HeldBy devices []
devices-HeldBy = record {
  in_order = (record { bit = refl; enough = omega arith }, tt);
  own_numbers = λ c. ground arith;
  references = λ c. refl;
}

abbrev idle_timer : PriorityTimer
idle_timer = record {
  is_armed = false;
  interval = 0;
  tick = 0;
  overruns_2 = 0;
  quantum = 0 ∷ 0 ∷ [];
}

abbrev none_suspended : Suspended
none_suspended d = false

four : (start_policy_prio2 (allocator drivers 0) 1000 500 idle_timer devices).0 ≡ pos 4
unfolding start_policy_prio2 dma_request_channel dma_chan_get
four = refl

start_policy_prio2-PrioStarted_example :
    PrioStarted
      (allocator drivers 0)
      []
      idle_timer
      1000
      500
      (start_policy_prio2 (allocator drivers 0) 1000 500 idle_timer devices)
start_policy_prio2-PrioStarted_example =
    start_policy_prio2-PrioStarted (allocator drivers 0) [] idle_timer 1000 500 devices
      devices-HeldBy tt

session-restores_example :
    ((session (allocator drivers 0) 1000 500 (1 ∷ 3 ∷ 1 ∷ []) idle_timer none_suspended devices).0
      ≡ prio_list [] 4 (0 ∷ 1 ∷ 2 ∷ 3 ∷ []))
    × ((session (allocator drivers 0) 1000 500 (1 ∷ 3 ∷ 1 ∷ []) idle_timer none_suspended devices).2
          6
        ≡ false)
    × HeldBy
        (session
          (allocator drivers 0)
          1000
          500
          (1 ∷ 3 ∷ 1 ∷ [])
          idle_timer
          none_suspended
          devices).3
        []
session-restores_example =
    session-restores (allocator drivers 0) [] (1 ∷ 3 ∷ 1 ∷ []) idle_timer 1000 500 6 none_suspended
      devices devices-HeldBy tt four refl

abbrev two_channels : ListChanPrio
two_channels = prio_list (5 ∷ 6 ∷ []) 2 (0 ∷ 1 ∷ 128 ∷ 128 ∷ [])

run_callbacks-alternate_example :
    (run_callbacks two_channels (1 ∷ 1 ∷ 2 ∷ []) (start_timer 1000 500, none_suspended)).1 6
    ≡ (is_odd 3 && is_lowered two_channels 6)
run_callbacks-alternate_example =
    run_callbacks-alternate two_channels 1000 500 (1 ∷ 1 ∷ 2 ∷ []) none_suspended 6 refl

two_callbacks :
    (run_callbacks two_channels (1 ∷ 1 ∷ []) (start_timer 1000 500, none_suspended)).0.interval
    ≡ 500
two_callbacks = run_callbacks-interval two_channels 1000 500 1 (1 ∷ []) none_suspended

-- The lookup's state after the start.
abbrev after_start : ChannelState
after_start = record {
  copy_dmaengine_ref_count = pos 0;
  memcpy_entry = none;
  percpu_chan_copy = none;
  list_chan_prio = (start_policy_prio2 (allocator drivers 0) 1000 500 idle_timer devices).1;
  copy_align = λ d. 0;
  boot_policy = boot_none;
}

copy_dma_get_channel_prio-after_start_example :
    (c : ℕ) × (copy_dma_get_channel_prio after_start 2 ≡ some c)
    × (get_elem? after_start.list_chan_prio.chan_prio 2 ≡ some (some c))
copy_dma_get_channel_prio-after_start_example =
    copy_dma_get_channel_prio-after_start (allocator drivers 0) [] idle_timer 1000 500 2 devices
      after_start devices-HeldBy tt four refl (λ d. refl) (omega arith)
