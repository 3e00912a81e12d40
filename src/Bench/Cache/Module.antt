-- ===== src/Bench/Cache/Module.antt =====
-- Loading and unloading the cache benchmark: micro-benchmark_Cache_2CPU/driver/micro_benchmark.c. The
-- messages that are printed are left out.
use dmacftu.Prelude.{
  ℕ, zero, suc, ◌+◌, ◌-◌, ◌*◌, ◌/◌, ◌%◌, ◌^◌, ◌≤◌, ◌<◌, ◌≡◌, false, ◌||◌, List, [], ◌∷◌, leb, ◌==◌,
  if◌then◌else◌, ℤ, pos, negsuc, is_neg, arith,
}
use dmacftu.Trace.Module.{Answers, enomem}
use dmacftu.Bench.Cache.{BenchmarkData, eperm, einval}
use dmacftu.Bench.Policies.{Policies}
use dmacftu.Bench.Band.Module.{type_bits}
use dmacftu.Bench.Devices.{Module, mb_minor, install, uninstall}

-- _16MB_TO_BYTE.
abbrev pub block_16mb : ℕ
block_16mb = 16777216

-- What init_all_micro_bench stores in the data of device i.
abbrev pub data_of : ℕ → ℕ → ℕ → ℕ → BenchmarkData
data_of base size type_id i =
    let temp_size = size / mb_minor in
    record {
      kernel_size = temp_size;
      kernel_buf = (base + temp_size * i) % 2 ^ 64;
      counter_op_read = 0;
      counter_op_write = 0;
      type = type_id;
    }

-- The loop of micro_benchmark_init that fills the boot memory: the offsets from i on of the blocks
-- filled, in at most as many turns as the fuel. The limit is an `unsigned long` difference.
unfoldable pub fill_loop : ℕ → ℕ → ℕ → List ℕ
fill_loop zero size i = []
fill_loop (suc f) size i =
    let rest = fill_loop f size (i + block_16mb) in
    if leb i ((size + 2 ^ 64 - block_16mb) % 2 ^ 64) then i ∷ rest else []

module _ (P : Policies) where
  unfoldable pub micro_bench_print_info : ℤ → P.State → ℤ × P.State
  micro_bench_print_info (negsuc n) s = (eperm, s)
  micro_bench_print_info (pos n) s =
      if n == 1 then (pos 0, s) else if n == 2 then (pos 0, P.start_policy_sh s) else (eperm, s)

  -- micro_benchmark_init, for the boot memory at `base` (0 for NULL) of `size` bytes: the result, the
  -- offsets of the blocks filled, and the module.
  unfoldable pub micro_benchmark_init :
      Answers → ℤ → ℕ → ℕ → Module BenchmarkData P.State → ℤ × List ℕ × Module BenchmarkData P.State
  unfolding micro_bench_print_info install fill_loop
  micro_benchmark_init k type_measure base size m0 =
      let (r, p) = micro_bench_print_info type_measure m0.policy in
      let m = record m0 { policy = p } in
      let (ret, m') = install k (data_of base size (type_bits type_measure)) m in
      if is_neg r
      then (einval, [], m)
      else if base == 0 || size == 0
      then (enomem, [], m)
      else (ret, fill_loop (size / block_16mb + 1) size 0, m')

  unfoldable pub micro_benchmark_exit :
      ℤ → Module BenchmarkData P.State → Module BenchmarkData P.State
  unfolding uninstall
  micro_benchmark_exit (negsuc n) m = uninstall m
  micro_benchmark_exit (pos n) m =
      uninstall (record m { policy = if n == 2 then P.stop_policy_sh m.policy else m.policy })

-- The offsets of n blocks from i on.
abbrev pub blocks_from : ℕ → ℕ → List ℕ
blocks_from zero i = []
blocks_from (suc n) i = i ∷ blocks_from n (i + block_16mb)

fill_loop-blocks :
    (n f i size : ℕ)
    → n < f
    → block_16mb ≤ size
    → size < 2 ^ 64
    → i + n * block_16mb ≡ size
    → fill_loop f size i ≡ blocks_from n i
unfolding fill_loop
fill_loop-blocks n zero i size h b k e = absurd (omega arith)
fill_loop-blocks zero (suc f) i size h b k e = ground arith
fill_loop-blocks (suc n) (suc f) i size h b k e =
    ground (arith, fill_loop-blocks n f (i + block_16mb) size (omega arith) b k (omega arith))

-- Loading the cache benchmark with a type of measure that starts and boot memory of n blocks of 16 MB,
-- for 0 < n and n * 16 MB below 2^64: the loop that fills it ends and fills each of the n blocks once,
-- in order.
pub micro_benchmark_init-fills :
    (P : Policies) (k : Answers) (tm : ℤ) (base n : ℕ) (m : Module BenchmarkData P.State)
    → is_neg (micro_bench_print_info P tm m.policy).0 ≡ false
    → 0 < base
    → 0 < n
    → n * block_16mb < 2 ^ 64
    → (micro_benchmark_init P k tm base (n * block_16mb) m).1 ≡ blocks_from n 0
unfolding micro_benchmark_init
micro_benchmark_init-fills P k tm base n m ok b l small = ground (
  arith,
  ok,
  fill_loop-blocks n (n * block_16mb / block_16mb + 1) 0 (n * block_16mb) (omega arith)
      (omega arith) small (omega arith),
)
