-- ===== src/Bench/Band/Tests.antt =====
-- The driver of the bandwidth benchmark at concrete requests (micro-benchmark_Band/driver).
use dmacftu.Prelude.{◌≡◌, refl, true, [], ◌∷◌, none, some, ℤ, pos, negsuc, inr}
use dmacftu.Engine.{to_user}
use dmacftu.Pin.{dma_pin_user_pages}
use dmacftu.Pin.Balance.{log_after}
use dmacftu.Channels.{ChannelState, copy_dma_get_channel_sh}
use dmacftu.Copy.{dma_copy_pages}
use dmacftu.UserCopy.{dma_copy_policy, policy_channel}
use dmacftu.UserCopy.Cases.{engine, channels, env, empty_log, env-IsDocumented}
use dmacftu.Alloc.{dma_request_channel, dma_chan_get}
use dmacftu.Exclusive.{start_policy_excl}
use dmacftu.Bench.Cache.{efault}
use dmacftu.Bench.Cases.{on_allocator, state, state-RunsPolicy, answers}
use dmacftu.Bench.Installing.{bare}
use dmacftu.Bench.Band.{
  DeviceState, QueryArg, mb_load, mb_unload, benchmark_driver_ioctl, benchmark_driver_copy,
  shared_measure, Call, returned, still_polls,
}
use dmacftu.Bench.Band.Session.{Step, here, next, transfer, mb_load-mb_unload}
use dmacftu.Bench.Band.Module.{zero_request, micro_benchmark_init, micro_benchmark_exit}
use dmacftu.Bench.Band.Loading.{
  Loaded, micro_benchmark_init-Loaded, Unloaded, micro_benchmark_exit-after_init,
}

abbrev device : DeviceState
device = record {
  b_data = record {
    user_size = 0;
    user_buf = 0;
    kernel_size = 40;
    kernel_buf = 1000;
    id_chan = 0;
    req_cpy_local = zero_request;
    req_cpy_local_prio = zero_request;
    type = shared_measure;
  };
  engine = engine;
  log = empty_log;
  filled = [];
}

abbrev query : QueryArg
query = record { write = 1; buf_user = 4090; len = 10 }

abbrev loaded_device : DeviceState
loaded_device = (benchmark_driver_ioctl shared_measure env 0 mb_load query device).1

loads : (benchmark_driver_ioctl shared_measure env 0 mb_load query device).0 ≡ pos 0
unfolding benchmark_driver_ioctl dma_pin_user_pages
loads = refl

-- Ten bytes by DMA, then a transfer that the size turns down.
abbrev state_after : Call → DeviceState
state_after (returned r s) = s
state_after still_polls = device

abbrev channels_sh : ChannelState
channels_sh = record channels { copy_dmaengine_ref_count = pos 1; memcpy_entry = some 3 }

abbrev copied_device : DeviceState
copied_device = state_after (benchmark_driver_copy to_user channels_sh 0 4090 10 loaded_device)

copies : Step loaded_device copied_device
unfolding benchmark_driver_copy benchmark_driver_ioctl dma_pin_user_pages dma_copy_policy
    copy_dma_get_channel_sh dma_copy_pages policy_channel
copies = transfer to_user channels_sh 0 4090 10 (pos 10) refl

refused : Step copied_device copied_device
unfolding benchmark_driver_copy benchmark_driver_ioctl dma_pin_user_pages dma_copy_policy
    copy_dma_get_channel_sh dma_copy_pages policy_channel
refused = transfer to_user channels_sh 0 4090 41 efault refl

mb_load-mb_unload_example :
    (copied_device.log ≡ empty_log)
    × (benchmark_driver_ioctl shared_measure env 0 mb_unload query copied_device
        ≡ (pos 0, record copied_device { log = log_after true (40 ∷ 41 ∷ []) empty_log }))
mb_load-mb_unload_example =
    mb_load-mb_unload shared_measure env query query device copied_device (inr refl) refl
      (env-IsDocumented none) loads (next (next here copies) refused)

-- With the exclusive policy.
abbrev measure : ℤ
measure = pos 2

micro_benchmark_init-Loaded_example :
    Loaded on_allocator measure 4096 1024 state
      (micro_benchmark_init on_allocator (answers (negsuc 11)) measure 4096 1024 (bare state))
micro_benchmark_init-Loaded_example =
    micro_benchmark_init-Loaded on_allocator (answers (negsuc 11)) measure 4096 1024 state
      state-RunsPolicy

init-returns :
    (micro_benchmark_init on_allocator (answers (pos 0)) measure 4096 1024 (bare state)).0 ≡ pos 0
unfolding micro_benchmark_init start_policy_excl dma_request_channel dma_chan_get
init-returns = refl

micro_benchmark_exit-after_init_example : Unloaded on_allocator (
    micro_benchmark_exit on_allocator measure
      (micro_benchmark_init on_allocator (answers (pos 0)) measure 4096 1024 (bare state)).1)
micro_benchmark_exit-after_init_example =
    micro_benchmark_exit-after_init on_allocator (answers (pos 0)) measure 4096 1024 state
      state-RunsPolicy init-returns
