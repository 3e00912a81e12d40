-- ===== src/Bench/Boot.antt =====
-- The memory of the benchmarks, which is allocated at boot: source/init/boot_mem_micro-benchmark.c. The
-- messages that are printed are left out.
use dmacftu.Prelude.{
  negsuc, pos, [], ◌∷◌, Option, some, sym, subst, ℤ, List, is_neg, ℕ, ◌+◌, ◌*◌, ◌/◌, ◌^◌, ◌≤◌, ◌<◌,
  ◌≡◌, refl, ap, ◌∙◌, Bool, true, false, ◌||◌, if◌then◌else◌, arith,
}
use native.Mathlib.Nat.{mod-eq_of_lt}
use dmacftu.Trace.Module.{Answers}
use dmacftu.Trace.Loading.{nothing_held}
use dmacftu.Bench.Installing.{
  bare, all_data, no_data, driver_held, installed, not_installed, install-Installed,
}
use dmacftu.Bench.Policies.{Policies}
use dmacftu.Bench.Cache.{BenchmarkData}
use dmacftu.Bench.Band.Module.{type_bits}
use dmacftu.Bench.Devices.{Module, mb_minor, install}
use dmacftu.Bench.Cache.Module.{
  block_16mb, data_of, blocks_from, micro_bench_print_info, micro_benchmark_init,
  micro_benchmark_init-fills,
}

-- Which of CONFIG_MEM_MICRO_BENCHMARK_32 to CONFIG_MEM_MICRO_BENCHMARK_1024 are defined.
pub record Config : Type 0 where
  pub mem_32 : Bool
  pub mem_64 : Bool
  pub mem_128 : Bool
  pub mem_256 : Bool
  pub mem_512 : Bool
  pub mem_1024 : Bool

-- The variables of the file; an address 0 is NULL.
pub record BootMemory : Type 0 where
  pub boot_mem : ℕ
  pub size_boot_mem_mb : ℕ

-- boot_init_mem_mb, where alloc_bootmem answers an address for a size.
unfoldable pub boot_init_mem_mb : Config → (ℕ → ℕ) → BootMemory
boot_init_mem_mb c alloc_bootmem =
    let s0 : ℕ = if c.mem_32 then 33554432 else 0 in
    let s1 : ℕ = if c.mem_64 then 67108864 else s0 in
    let s2 : ℕ = if c.mem_128 then 134217728 else s1 in
    let s3 : ℕ = if c.mem_256 then 268435456 else s2 in
    let s4 : ℕ = if c.mem_512 then 536870912 else s3 in
    let s5 : ℕ = if c.mem_1024 then 1073741824 else s4 in
    record { boot_mem = alloc_bootmem s5; size_boot_mem_mb = s5 }

-- The size, if one of the options is defined: between 2 and 64 blocks of 16 MB, the number of blocks
-- being a multiple of 2.
data Blocks (size : ℕ) : Type 0 where
  blocks : (n : ℕ) → size ≡ n * 2 * block_16mb → 0 < n → n ≤ 32 → Blocks size

later :
    {A : Type 0} (P : A → Type 0) (b : Bool) (x y : A)
    → P x
    → (b ≡ false → P y)
    → P (if b then x else y)
later P true x y h k = h
later P false x y h k = k refl

boot_init_mem_mb-Blocks :
    (c : Config) (alloc : ℕ → ℕ)
    → (c.mem_32 || c.mem_64 || c.mem_128 || c.mem_256 || c.mem_512 || c.mem_1024) ≡ true
    → Blocks (boot_init_mem_mb c alloc).size_boot_mem_mb
unfolding boot_init_mem_mb
boot_init_mem_mb-Blocks c alloc some_there =
    later Blocks c.mem_1024 1073741824 _ (blocks 32 refl (omega arith) (omega arith)) (λ n5.
      later Blocks c.mem_512 536870912 _ (blocks 16 refl (omega arith) (omega arith)) (λ n4.
        later Blocks c.mem_256 268435456 _ (blocks 8 refl (omega arith) (omega arith)) (λ n3.
          later Blocks c.mem_128 134217728 _ (blocks 4 refl (omega arith) (omega arith)) (λ n2.
            later Blocks c.mem_64 67108864 _ (blocks 2 refl (omega arith) (omega arith)) (λ n1.
              later Blocks c.mem_32 33554432 0 (blocks 1 refl (omega arith) (omega arith))
                (λ n0. absurd (ground (arith, n0, n1, n2, n3, n4, n5, some_there))))))))

quarter-eq : (n : ℕ) → n * 2 * block_16mb / mb_minor ≡ n * 8388608
quarter-eq n = omega arith

three_quarters : (a i : ℕ) → i < 4 → a * i ≤ a * 3
three_quarters a i h = grind arith

-- The memory of a device.
abbrev pub IsQuarter : ℕ → ℕ → ℕ → ℕ → BenchmarkData → Type 0
IsQuarter base size t i d =
    (d.kernel_size * mb_minor ≡ size)
    × (d.kernel_size < 2 ^ 31)
    × (d.kernel_buf ≡ base + d.kernel_size * i)
    × (d.counter_op_read ≡ 0)
    × (d.counter_op_write ≡ 0)
    × (d.type ≡ t)

data_of-IsQuarter :
    (base size t i : ℕ)
    → Blocks size
    → base + size < 2 ^ 64
    → i < mb_minor
    → IsQuarter base size t i (data_of base size t i)
data_of-IsQuarter base size t i (blocks n e more few) top small =
    let q : size / mb_minor ≡ n * 8388608 = ap (λ s. s / mb_minor) e ∙ quarter-eq n in
    (
      omega (arith, q, e),
      omega (arith, q, few),
      mod-eq_of_lt (omega (arith, q, e, top, three_quarters (size / mb_minor) i small)),
      refl,
      refl,
      refl,
    )

-- What the four devices of a loaded module are: the quarters of the memory, one after the other.
pub data Split (base size t : ℕ) (v : List (Option BenchmarkData)) : Type 0 where
  split :
      (d0 d1 d2 d3 : BenchmarkData)
      → v ≡ some d0 ∷ some d1 ∷ some d2 ∷ some d3 ∷ []
      → IsQuarter base size t 0 d0
      → IsQuarter base size t 1 d1
      → IsQuarter base size t 2 d2
      → IsQuarter base size t 3 d3
      → Split base size t v

all_data-Split :
    (base size t : ℕ)
    → Blocks size
    → base + size < 2 ^ 64
    → Split base size t (all_data (data_of base size t))
all_data-Split base size t b top =
    split (data_of base size t 0) (data_of base size t 1) (data_of base size t 2)
      (data_of base size t 3) refl (data_of-IsQuarter base size t 0 b top (omega arith))
      (data_of-IsQuarter base size t 1 b top (omega arith))
      (data_of-IsQuarter base size t 2 b top (omega arith))
      (data_of-IsQuarter base size t 3 b top (omega arith))

-- How loading the cache benchmark ends: with the memory filled block by block, and then with the four
-- devices on its quarters, or with a negative number and nothing held.
pub data Served (P : Policies) (b : BootMemory) (t : ℕ)
    (out : ℤ × List ℕ × Module BenchmarkData P.State) : Type 0 where
  served :
      (n : ℕ)
      → b.size_boot_mem_mb ≡ n * block_16mb
      → out.1 ≡ blocks_from n 0
      → out.0 ≡ pos 0
      → Split b.boot_mem b.size_boot_mem_mb t out.2.vector_mb
      → out.2.held ≡ driver_held
      → Served P b t out
  not_served :
      (n e : ℕ)
      → b.size_boot_mem_mb ≡ n * block_16mb
      → out.1 ≡ blocks_from n 0
      → out.0 ≡ negsuc e
      → out.2.vector_mb ≡ no_data
      → out.2.held ≡ nothing_held
      → Served P b t out

module _ (P : Policies) (k : Answers) (tm : ℤ) (b : BootMemory) (p : P.State) where
  installs :
      is_neg (micro_bench_print_info P tm p).0 ≡ false
      → 0 < b.boot_mem
      → 0 < b.size_boot_mem_mb
      → ((micro_benchmark_init P k tm b.boot_mem b.size_boot_mem_mb (bare p)).0
          ≡ (install k
              (data_of b.boot_mem b.size_boot_mem_mb (type_bits tm))
              (bare (micro_bench_print_info P tm p).1)).0)
        × ((micro_benchmark_init P k tm b.boot_mem b.size_boot_mem_mb (bare p)).2
            ≡ (install k
                (data_of b.boot_mem b.size_boot_mem_mb (type_bits tm))
                (bare (micro_bench_print_info P tm p).1)).1)
  unfolding micro_benchmark_init
  installs ok there more = (ground (arith, ok), ground (arith, ok))

  memory-Served :
      is_neg (micro_bench_print_info P tm p).0 ≡ false
      → Blocks b.size_boot_mem_mb
      → 0 < b.boot_mem
      → b.boot_mem + b.size_boot_mem_mb < 2 ^ 64
      → Served P b
          (type_bits tm)
          (micro_benchmark_init P k tm b.boot_mem b.size_boot_mem_mb (bare p))
  memory-Served ok (blocks n e more few) there top =
      let filled =
        ap (λ size. (micro_benchmark_init P k tm b.boot_mem size (bare p)).1) e
        ∙ micro_benchmark_init-fills P k tm b.boot_mem (n * 2) (bare p) ok there
            (omega (arith, more)) (omega (arith, few)) in
      let (result, after) = installs ok there (omega (arith, e, more)) in
      elim (install-Installed k (data_of b.boot_mem b.size_boot_mem_mb (type_bits tm))
        (micro_bench_print_info P tm p).1) [
          | installed z ↦
              served (n * 2) e filled (result ∙ ap (λ r. r.0) z)
                (subst (λ m. Split b.boot_mem b.size_boot_mem_mb (type_bits tm) m.vector_mb)
                  (sym (after ∙ ap (λ r. r.1) z))
                  (all_data-Split b.boot_mem b.size_boot_mem_mb (type_bits tm) (blocks n e more few)
                    top))
                (ap (λ m. m.held) (after ∙ ap (λ r. r.1) z))
          | not_installed err z ↦
              not_served (n * 2) err e filled (result ∙ ap (λ r. r.0) z)
                (ap (λ m. m.vector_mb) (after ∙ ap (λ r. r.1) z))
                (ap (λ m. m.held) (after ∙ ap (λ r. r.1) z))
        ]

-- Loading the cache benchmark, where the module holds nothing, with a type of measure that starts, where
-- one of the sizes is configured and the allocation at boot gave an address that is not NULL, below 2^64
-- with the memory after it: the memory is a number of blocks of 16 MB, and the loop that fills it ends
-- and fills each of these once, in order. Then it returns 0 and the four devices of the module have a
-- quarter of the memory each, below 2^31 bytes, one after the other from its start, with counters at 0
-- and the type of measure; or it returns a negative number and the module holds nothing.
pub boot_init_mem_mb-Served :
    (P : Policies) (k : Answers) (tm : ℤ) (c : Config) (alloc : ℕ → ℕ) (p : P.State)
    → is_neg (micro_bench_print_info P tm p).0 ≡ false
    → (c.mem_32 || c.mem_64 || c.mem_128 || c.mem_256 || c.mem_512 || c.mem_1024) ≡ true
    → 0 < (boot_init_mem_mb c alloc).boot_mem
    → (boot_init_mem_mb c alloc).boot_mem + (boot_init_mem_mb c alloc).size_boot_mem_mb < 2 ^ 64
    → Served P (boot_init_mem_mb c alloc) (type_bits tm) (
        micro_benchmark_init P k tm
          (boot_init_mem_mb c alloc).boot_mem
          (boot_init_mem_mb c alloc).size_boot_mem_mb
          (bare p))
boot_init_mem_mb-Served P k tm c alloc p ok some_there there top =
    memory-Served P k tm (boot_init_mem_mb c alloc) p ok
      (boot_init_mem_mb-Blocks c alloc some_there) there top
