-- ===== src/Bench/Msg.antt =====
-- The copies that the message benchmark measures, and the loop that measures them:
-- micro-benchmark_Msg/driver/core_benchmark.c. Memory barriers are left out.
pub mod Driver
pub mod Measuring
mod Tests
pub mod Module
pub mod Sizes
pub mod Started
pub mod Written
use dmacftu.Prelude.{
  ℕ, zero, suc, ◌+◌, ◌-◌, ◌*◌, ◌%◌, ◌^◌, Bool, true, false, not, ◌||◌, List, [], ◌∷◌, ◌++◌, Option,
  none, some, ltb, ◌==◌, if◌then◌else◌, ℤ, pos, negsuc, set, get_elem?,
}
use dmacftu.Request.{RequestCopy, init_req_copy, to_int}
use dmacftu.Engine.{Direction, from_user, to_user, Engine}
use dmacftu.Pin.{
  PinEnv, PinResult, pin_failed, pin_successful, pin_no_user, PageLog, dma_pin_user_pages,
  dma_unpin_user_pages,
}
use dmacftu.Channels.{ChannelState}
use dmacftu.UserCopy.{Policy, shared, exclusive, dma_copy_policy}
use dmacftu.Trace.{seek_to, add_offset}
use dmacftu.Trace.Module.{enomem}
use dmacftu.Bench.Cache.{eacces, efault, einval}

-- BUFF_MEASURE.
abbrev pub buff_measure : ℕ
buff_measure = 300

-- The types of measure.
abbrev pub cpu_measure : ℕ
cpu_measure = 0

abbrev pub exclusive_measure : ℕ
exclusive_measure = 1

abbrev pub shared_measure : ℕ
shared_measure = 2

-- `struct unit_buff_user`.
pub record UnitBuffUser : Type 0 where
  pub index_cpu : ℕ
  pub size : ℕ
  pub clock_cpu_start : ℕ
  pub clock_cpu_end : ℕ

-- `struct benchmark_output`.
pub record BenchmarkOutput : Type 0 where
  pub count : ℕ
  pub buffer : List UnitBuffUser

-- `struct benchmark_data`.
pub record BenchmarkData : Type 0 where
  pub user_size : ℕ
  pub user_buf : ℕ
  pub kernel_size : ℕ
  pub kernel_buf : ℕ
  pub type : ℕ
  pub results : BenchmarkOutput

-- The type of measure, the channels and the memory management; and for the copy with each number, the
-- processor, the clock before and after it, and what copy_from_user_pure or copy_to_user_pure returns.
pub record Machine : Type 0 where
  pub type_measure : ℕ
  pub channels : ChannelState
  pub env : PinEnv
  pub get_cpu : ℕ → ℕ
  pub start : ℕ → ℕ
  pub end : ℕ → ℕ
  pub left : ℕ → ℕ

-- The functions that `ptr_copy` points to: cpu_copy_from_measure, cpu_copy_to_measure, and
-- dma_copy_from_measure_ex, dma_copy_to_measure_ex, dma_copy_from_measure_sh, dma_copy_to_measure_sh.
pub data PtrCopy : Type 0 where
  cpu_copy : Direction → PtrCopy
  dma_copy : Policy → Direction → PtrCopy

-- What a measure works on: the request, the engine, and the ranges whose cache lines were flushed.
pub record Work : Type 0 where
  pub req : RequestCopy
  pub engine : Engine
  pub flushed : List (ℕ × ℕ)

-- The copy that a measure times.
abbrev pub copy_once :
    Machine → ℕ → PtrCopy → RequestCopy → Engine → Option (ℤ × RequestCopy × Engine)
copy_once m k (cpu_copy dir) q e = some (to_int (m.left k), q, e)
copy_once m k (dma_copy policy dir) q e = dma_copy_policy policy dir m.channels q e

abbrev pub flush : Bool → Work → Work
flush true w = w
flush false w = record w {
  flushed = w.flushed ++ (w.req.kernel_base, w.req.len) ∷ (w.req.user_base, w.req.len) ∷ [];
}

-- The unit with the clocks of copy number k.
abbrev pub timed : Machine → ℕ → UnitBuffUser → UnitBuffUser
timed m k u = record u { clock_cpu_start = m.start k; clock_cpu_end = m.end k }

abbrev pub after_copy :
    Machine
    → ℕ
    → UnitBuffUser
    → Work
    → Option (ℤ × RequestCopy × Engine)
    → Option (ℤ × UnitBuffUser × Work)
after_copy m k u w none = none
after_copy m k u w (some (ret, q, e)) = some (ret, timed m k u, record w { req = q; engine = e })

-- The six functions, for copy number k; `none` while a channel is polled.
unfoldable pub copy_measure :
    Machine → ℕ → Bool → PtrCopy → UnitBuffUser → Work → Option (ℤ × UnitBuffUser × Work)
copy_measure m k mb_cache ptr u w =
    after_copy m k u (flush mb_cache w) (copy_once m k ptr w.req w.engine)

-- `req_cpy_local.len - ret`, an `unsigned long`.
abbrev pub size_of : ℕ → ℤ → ℕ
size_of len (pos n) = (len + 2 ^ 64 - n) % 2 ^ 64
size_of len (negsuc n) = (len + suc n) % 2 ^ 64

abbrev pub zero_unit : UnitBuffUser
zero_unit = record { index_cpu = 0; size = 0; clock_cpu_start = 0; clock_cpu_end = 0 }

-- `buffer[i]`.
abbrev pub unit_at : BenchmarkOutput → ℕ → UnitBuffUser
unit_at r i = elim (get_elem? r.buffer i) [ none ↦ zero_unit | some u ↦ u ]

abbrev pub on_cpu : Machine → ℕ → UnitBuffUser → UnitBuffUser
on_cpu m k u = record u { index_cpu = m.get_cpu k }

-- A measure stored in element i.
abbrev pub store : ℕ → UnitBuffUser → BenchmarkOutput → BenchmarkOutput
store i u r = record r { buffer = set r.buffer i u }

-- The loop of start_measure: n measures are left, and the next is number i; it is copy number i + 1.
unfoldable pub measure_loop :
    Machine → Bool → PtrCopy → ℕ → ℕ → BenchmarkOutput → Work → Option (BenchmarkOutput × Work)
unfolding copy_measure
measure_loop m mb_cache ptr zero i r w = some (r, w)
measure_loop m mb_cache ptr (suc n) i r w =
    elim (copy_measure m (suc i) mb_cache ptr (on_cpu m (suc i) (unit_at r i)) w) [
      | none ↦ none
      | some (ret, u, w') ↦
          measure_loop m mb_cache ptr n (suc i)
            (record (store i (record u { size = size_of w'.req.len ret }) r) {
              count = r.count + 1;
            })
            w'
    ]
