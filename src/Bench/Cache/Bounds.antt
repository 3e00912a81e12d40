-- ===== src/Bench/Cache/Bounds.antt =====
-- The kernel memory that the cache benchmark copies from or to
-- (micro-benchmark_Cache_2CPU/driver/driverops.c).
use dmacftu.Prelude.{ℕ, ◌+◌, ◌*◌, ◌/◌, ◌%◌, ◌^◌, ◌≤◌, ◌<◌, ◌≡◌, refl, arith}
use native.Mathlib.Nat.{mod-lt, mod-eq_of_lt, div-add-mod'}
use dmacftu.Engine.{Direction}
use dmacftu.Daemon.{to_size}
use dmacftu.Bench.Cache.{
  BenchmarkData, Machine, DeviceState, divides_by_zero, counter, divisor, mem_offset, tmp_buf,
  benchmark_driver_copy,
}

index-fits : (n q len size : ℕ) → n < q → q * len ≤ size → n * len + len ≤ size
index-fits n q len size h k = grind arith

div-mul_le : (size len : ℕ) → size / len * len ≤ size
div-mul_le size len = omega (arith, div-add-mod' size len)

div_le : (size len : ℕ) → 0 < len → size / len ≤ size
div_le size len h = grind (arith, div-mul_le size len)

pub div_pos : (size len : ℕ) → 0 < len → len ≤ size → 0 < size / len
div_pos size len h k = grind (arith, div-add-mod' size len, mod-lt size h)

to_size-small : (n : ℕ) → n < 2 ^ 31 → to_size n ≡ n
to_size-small n h = ground arith

pub divisor-eq :
    (d : BenchmarkData) (len : ℕ)
    → 0 < len
    → d.kernel_size < 2 ^ 31
    → divisor d len ≡ d.kernel_size / len
divisor-eq d len l small =
    to_size-small (d.kernel_size / len) (omega (arith, div_le d.kernel_size len l))

-- The block within the memory of the device.
mem_offset-eq :
    (dir : Direction) (d : BenchmarkData) (len : ℕ)
    → 0 < len
    → len ≤ d.kernel_size
    → d.kernel_size < 2 ^ 31
    → (mem_offset dir d len ≡ counter dir d % (d.kernel_size / len) * len)
      × (counter dir d % (d.kernel_size / len) * len + len ≤ d.kernel_size)
mem_offset-eq dir d len l le small =
    let q : ℕ = d.kernel_size / len in
    let below = mod-lt (counter dir d) (div_pos d.kernel_size len l le) in
    let fits =
      index-fits (counter dir d % q) q len d.kernel_size below (div-mul_le d.kernel_size len) in
    let q_le = div_le d.kernel_size len l in
    (
      rw (divisor-eq d len l small, to_size-small (counter dir d % q) (omega (arith, below, q_le)))
          (mod-eq_of_lt (omega (arith, fits, small))),
      fits,
    )

-- The block that a copy of len bytes works on lies in the memory of the device and starts at a multiple
-- of len, whatever the counter is: for 0 < len ≤ the size of that memory, which is below 2^31 and lies
-- in the address space.
pub tmp_buf_bounds :
    (dir : Direction) (d : BenchmarkData) (len : ℕ)
    → 0 < len
    → len ≤ d.kernel_size
    → d.kernel_size < 2 ^ 31
    → d.kernel_buf + d.kernel_size < 2 ^ 64
    → (tmp_buf dir d len ≡ d.kernel_buf + counter dir d % (d.kernel_size / len) * len)
      × (d.kernel_buf ≤ tmp_buf dir d len)
      × (tmp_buf dir d len + len ≤ d.kernel_buf + d.kernel_size)
tmp_buf_bounds dir d len l le small top =
    let (offset, fits) = mem_offset-eq dir d len l le small in
    let n : ℕ = counter dir d % (d.kernel_size / len) * len in
    let whole : (d.kernel_buf + n) % 2 ^ 64 ≡ d.kernel_buf + n =
      mod-eq_of_lt (omega (arith, fits, top)) in
    rw (offset, whole) (refl, omega arith, omega (arith, fits))

-- An empty transfer with a buffer divides by zero, whatever the state.
pub empty_transfer :
    (dir : Direction) (m : Machine) (buf : ℕ) (s : DeviceState)
    → 0 < buf
    → benchmark_driver_copy dir m buf 0 s ≡ divides_by_zero
unfolding benchmark_driver_copy
empty_transfer dir m buf s h = ground arith
