-- ===== src/Bench/Band/Module.antt =====
-- Loading and unloading the bandwidth benchmark: micro-benchmark_Band/driver/micro_benchmark.c. The
-- messages that are printed are left out.
use dmacftu.Prelude.{
  ℕ, ◌+◌, ◌-◌, ◌*◌, ◌/◌, ◌%◌, ◌^◌, Bool, true, ◌||◌, none, ltb, ◌==◌, if◌then◌else◌, ℤ, pos, negsuc,
  is_neg,
}
use dmacftu.Request.{RequestCopy, dma_success}
use dmacftu.Trace.Module.{Answers, enomem}
use dmacftu.Bench.Cache.{eperm, einval}
use dmacftu.Bench.Policies.{Policies, Running, idle, by_excl, by_sh, by_prio}
use dmacftu.Bench.Devices.{Module, mb_minor, install, uninstall}
use dmacftu.Bench.Band.{
  BenchmarkData, cpu_measure, exclusive_measure, shared_measure, priority_measure,
}

-- `-EIO`.
abbrev pub eio : ℤ
eio = negsuc 4

-- _NANOSEC_HIGH and _NANOSEC_LOW.
abbrev pub nanosec_high : ℕ
nanosec_high = 30000

abbrev pub nanosec_low : ℕ
nanosec_low = 60000

-- A request as `kzalloc` leaves it.
abbrev pub zero_request : RequestCopy
zero_request = record {
  chan = none;
  priority = 0;
  user_base = 0;
  kernel_base = 0;
  len = 0;
  pages = none;
  nr_pages = pos 0;
  dma_cookie = pos 0;
  status = dma_success;
}

-- What init_all_micro_bench stores in the data of device i, for the boot memory at `base` of `size`
-- bytes; `temp_size` is a quarter of it.
abbrev pub data_of : ℕ → ℕ → ℕ → ℕ → BenchmarkData
data_of base size type_id i =
    let temp_size = size / mb_minor in
    record {
      user_size = 0;
      user_buf = 0;
      kernel_size = temp_size;
      kernel_buf = (base + temp_size * i) % 2 ^ 64;
      id_chan = i;
      req_cpy_local = zero_request;
      req_cpy_local_prio = zero_request;
      type = type_id;
    }

-- The parameter `type_measure` as an `unsigned short`.
abbrev pub type_bits : ℤ → ℕ
type_bits (pos n) = n % 2 ^ 16
type_bits (negsuc n) = 2 ^ 16 - 1 - n % 2 ^ 16

-- The test `< MB_MINOR`.
abbrev pub lt_minor : ℤ → Bool
lt_minor (pos n) = ltb n mb_minor
lt_minor (negsuc n) = true

module _ (P : Policies) where
  -- The cases of the `switch` of micro_bench_print_info.
  abbrev pub start_exclusive : P.State → ℤ × P.State
  start_exclusive s =
      let (r, s') = P.start_policy_excl s in if is_neg r then (eperm, s') else (pos 0, s')

  abbrev pub start_priority : P.State → ℤ × P.State
  start_priority s =
      let (r, s') = P.start_policy_prio2 nanosec_high nanosec_low s in
      if lt_minor r then (eio, s') else (pos 0, s')

  abbrev pub start_by : ℕ → P.State → ℤ × P.State
  start_by n s =
      if n == cpu_measure
      then (pos 0, s)
      else if n == exclusive_measure
      then start_exclusive s
      else if n == shared_measure
      then (pos 0, P.start_policy_sh s)
      else if n == priority_measure
      then start_priority s
      else (eperm, s)

  unfoldable pub micro_bench_print_info : ℤ → P.State → ℤ × P.State
  micro_bench_print_info (pos n) s = start_by n s
  micro_bench_print_info (negsuc n) s = (eperm, s)

  -- micro_benchmark_init, for the boot memory at `base` (0 for NULL) of `size` bytes.
  unfoldable pub micro_benchmark_init :
      Answers → ℤ → ℕ → ℕ → Module BenchmarkData P.State → ℤ × Module BenchmarkData P.State
  unfolding micro_bench_print_info install
  micro_benchmark_init k type_measure base size m0 =
      let (r, p) = micro_bench_print_info type_measure m0.policy in
      let m = record m0 { policy = p } in
      if is_neg r
      then (einval, m)
      else if base == 0 || size == 0
      then (enomem, m)
      else install k (data_of base size (type_bits type_measure)) m

  -- The three tests of micro_benchmark_exit.
  abbrev pub stop_by : ℕ → P.State → P.State
  stop_by n s0 =
      let s1 = if n == exclusive_measure then P.stop_policy_excl s0 else s0 in
      let s2 = if n == shared_measure then P.stop_policy_sh s1 else s1 in
      if n == priority_measure then P.stop_policy_prio s2 else s2

  abbrev pub stop_policy : ℤ → P.State → P.State
  stop_policy (pos n) s = stop_by n s
  stop_policy (negsuc n) s = s

  unfoldable pub micro_benchmark_exit :
      ℤ → Module BenchmarkData P.State → Module BenchmarkData P.State
  unfolding uninstall
  micro_benchmark_exit type_measure m =
      uninstall (record m { policy = stop_policy type_measure m.policy })

-- Which policy a type of measure starts.
abbrev pub policy_of : ℤ → Running
policy_of (pos n) =
    if n == exclusive_measure
    then by_excl
    else if n == shared_measure
    then by_sh
    else if n == priority_measure
    then by_prio
    else idle
policy_of (negsuc n) = idle
