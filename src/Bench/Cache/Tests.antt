-- ===== src/Bench/Cache/Tests.antt =====
-- The driver of the cache benchmark at concrete requests (micro-benchmark_Cache_2CPU/driver).
use dmacftu.Prelude.{◌+◌, ◌^◌, ◌<◌, ◌≡◌, refl, true, false, [], ◌∷◌, none, some, pos, is_neg, arith}
use dmacftu.Engine.{from_user, to_user}
use dmacftu.Pin.{dma_pin_user_pages}
use dmacftu.Channels.{copy_dma_get_channel_sh}
use dmacftu.UserCopy.{policy_channel}
use dmacftu.Copy.Whole.{IsReady}
use dmacftu.UserCopy.Cases.{
  last_poll, busy_poll, engine, channels, env, empty_log, env-IsDocumented,
}
use dmacftu.Bench.Cache.{Machine, DeviceState, benchmark_driver_copy, divides_by_zero}
use dmacftu.Bench.Cache.Bounds.{empty_transfer}
use dmacftu.Bench.Cache.Transfers.{
  CanTransfer, Transferred, request_of, benchmark_driver_copy-Transferred,
}
use dmacftu.Bench.Cases.{on_allocator, state, answers}
use dmacftu.Bench.Installing.{bare}
use dmacftu.Bench.Boot.{Config, BootMemory, boot_init_mem_mb, Served, boot_init_mem_mb-Served}
use dmacftu.Bench.Cache.Module.{
  micro_bench_print_info, micro_benchmark_init, micro_benchmark_init-fills,
}
use dmacftu.Pin.Balance.{pinned_request}
use dmacftu.Request.{RequestCopy}

-- The shared policy runs.
abbrev machine : Machine
machine = record {
  channels = record channels { copy_dmaengine_ref_count = pos 1; memcpy_entry = some 3 };
  env = env;
  left = 0;
}

-- Forty bytes of memory, of which the fourth block of ten is next.
abbrev device : DeviceState
device = record {
  b_data = record {
    kernel_size = 40;
    kernel_buf = 970;
    counter_op_read = 0;
    counter_op_write = 7;
    type = 2;
  };
  engine = engine;
  log = empty_log;
}

abbrev pinned : RequestCopy
pinned = record (pinned_request env (request_of from_user 4090 10 device)) { chan = some 3 }

ready : IsReady from_user pinned engine (busy_poll ∷ []) last_poll []
ready = record {
  accepted = omega arith;
  mapped = (tt, (tt, (tt, tt)));
  polled = refl;
  waiting = ((refl, refl), tt);
  ended = λ h. cc;
  bytes_fit = omega arith;
  count_fits = omega arith;
}

can_transfer : CanTransfer from_user machine 4090 10 device 3 (busy_poll ∷ []) last_poll []
unfolding policy_channel copy_dma_get_channel_sh dma_pin_user_pages
can_transfer = record {
  type = refl;
  buffer = omega arith;
  some_bytes = omega arith;
  fits = omega arith;
  small = omega arith;
  top = omega arith;
  documented = env-IsDocumented none;
  pinned_from = λ e. refl;
  pinned_to = λ e. absurd (ground (arith, e));
  channel = refl;
  ready = ready;
}

benchmark_driver_copy-Transferred_example :
    Transferred from_user machine 4090 10 device 3
      (benchmark_driver_copy from_user machine 4090 10 device)
benchmark_driver_copy-Transferred_example =
    benchmark_driver_copy-Transferred from_user machine 4090 10 device 3 (busy_poll ∷ []) last_poll
      [] can_transfer

nothing_to_copy : benchmark_driver_copy to_user machine 4090 0 device ≡ divides_by_zero
nothing_to_copy = empty_transfer to_user machine 4090 device (omega arith)

-- Three blocks.
starts : is_neg (micro_bench_print_info on_allocator (pos 2) state).0 ≡ false
unfolding micro_bench_print_info
starts = refl

three_blocks :
    (micro_benchmark_init on_allocator (answers (pos 0)) (pos 2) 4096 50331648 (bare state)).1
    ≡ 0 ∷ 16777216 ∷ 33554432 ∷ []
three_blocks =
    micro_benchmark_init-fills on_allocator (answers (pos 0)) (pos 2) 4096 3 (bare state) starts
      (omega arith) (omega arith) (omega arith)

-- The option for 32 MB.
abbrev config : Config
config = record {
  mem_32 = true;
  mem_64 = false;
  mem_128 = false;
  mem_256 = false;
  mem_512 = false;
  mem_1024 = false;
}

abbrev boot : BootMemory
boot = record { boot_mem = 4096; size_boot_mem_mb = 33554432 }

boots : boot_init_mem_mb config (λ size. 4096) ≡ boot
unfolding boot_init_mem_mb
boots = refl

there : 0 < (boot_init_mem_mb config (λ size. 4096)).boot_mem
unfolding boot_init_mem_mb
there = omega arith

below :
    (boot_init_mem_mb config (λ size. 4096)).boot_mem
      + (boot_init_mem_mb config (λ size. 4096)).size_boot_mem_mb
    < 2 ^ 64
unfolding boot_init_mem_mb
below = omega arith

boot_init_mem_mb-Served_example : Served on_allocator (boot_init_mem_mb config (λ size. 4096)) 2 (
    micro_benchmark_init on_allocator
      (answers (pos 0))
      (pos 2)
      (boot_init_mem_mb config (λ size. 4096)).boot_mem
      (boot_init_mem_mb config (λ size. 4096)).size_boot_mem_mb
      (bare state))
boot_init_mem_mb-Served_example =
    boot_init_mem_mb-Served on_allocator (answers (pos 0)) (pos 2) config (λ size. 4096) state
      starts refl there below
