-- ===== src/Bench/Msg/Written.antt =====
-- A write to the message benchmark that measures (micro-benchmark_Msg/driver/driverops.c,
-- benchmark_driver_write, and micro-benchmark_Msg/driver/core_benchmark.c, init_measure).
use dmacftu.Prelude.{
  ℕ, zero, suc, ◌≤◌, ◌<◌, ◌≡◌, ap, ◌∙◌, Bool, true, false, List, some, ltb, ◌==◌, if◌then◌else◌, ℤ,
  arith,
}
use dmacftu.Request.{RequestCopy}
use dmacftu.Engine.{Direction, Engine, from_user, to_user}
use dmacftu.Bench.Msg.{Machine, PtrCopy}
use dmacftu.Bench.Msg.Driver.{
  DeviceState, Call, returned, is_from, start_measure, ptr_copy, through, init_measure,
  benchmark_driver_write, after_init,
}
use dmacftu.Bench.Cache.{einval}
use dmacftu.Trace.Module.{enomem}
use dmacftu.Bench.Msg.Started.{CanMeasure, Measured, start_measure-Measured}

-- The device with what a write asks for.
abbrev pub asked : ℕ → ℕ → DeviceState → DeviceState
asked buf len s = record s { b_data = record s.b_data { user_size = len; user_buf = buf } }

-- ID_COPY_FROM and ID_COPY_FROM_NC copy from the user, ID_COPY_TO and ID_COPY_TO_NC to the user.
abbrev pub direction_of : ℕ → Direction
direction_of type = if is_from type then from_user else to_user

-- The `switch` of init_measure.
dispatch :
    (k t : ℕ) (x z : Call) (g : Bool → Direction → Call)
    → 0 < k
    → 0 < t
    → t < 5
    → (if k == 0
        then x
        else if t == 1
        then g true from_user
        else if t == 2
        then g true to_user
        else if t == 3
        then g false from_user
        else if t == 4
        then g false to_user
        else z)
      ≡ g (ltb t 3) (direction_of t)
dispatch k zero x z g hk lo hi = absurd (omega arith)
dispatch k (suc zero) x z g hk lo hi = ground arith
dispatch k (suc (suc zero)) x z g hk lo hi = ground arith
dispatch k (suc (suc (suc zero))) x z g hk lo hi = ground arith
dispatch k (suc (suc (suc (suc zero)))) x z g hk lo hi = ground arith
dispatch k (suc (suc (suc (suc (suc t))))) x z g hk lo hi = absurd (omega arith)

init_measure-starts :
    (m : Machine) (ptr : PtrCopy) (s : DeviceState)
    → 0 < s.b_data.kernel_buf
    → 0 < s.b_data.type
    → s.b_data.type < 5
    → ptr_copy m.type_measure (direction_of s.b_data.type) ≡ some ptr
    → init_measure m s ≡ start_measure m (ltb s.b_data.type 3) ptr s
unfolding init_measure
init_measure-starts m ptr s k lo hi f =
    dispatch s.b_data.kernel_buf s.b_data.type (returned enomem s) (returned einval s)
      (λ c dir. through m c (ptr_copy m.type_measure dir) s) k lo hi
    ∙ ap (λ p. through m (ltb s.b_data.type 3) p s) f

writes :
    (m : Machine) (buf len : ℕ) (s : DeviceState)
    → 0 < buf
    → len ≤ s.b_data.kernel_size
    → benchmark_driver_write m buf len s ≡ after_init len (init_measure m (asked buf len s))
unfolding benchmark_driver_write
writes m buf len s b le = ground arith

-- A write of `len` bytes at `buf`, fewer than 2^64, to a device of one of the four types of copy, in one
-- of the three types of measure, with kernel memory for them, with room for 300 measures, on which the
-- user's pages can be pinned where the copy is by DMA and every copy ends: it returns `len` and records
-- 300 measures, one for each copy after the first, which warms the cache. The size recorded for a copy
-- that left at most `len` bytes is the number of the others; a negative result -e is recorded as `len` +
-- e (modulo 2^64), more than was asked for. The pages pinned are released, each once, and marked dirty
-- exactly for a copy to the user.
pub benchmark_driver_write-Measured :
    (m : Machine) (ptr : PtrCopy) (buf len : ℕ) (s : DeviceState) (first : ℤ) (rets : List ℤ)
    (q : RequestCopy) (e : Engine)
    → 0 < buf
    → len ≤ s.b_data.kernel_size
    → 0 < s.b_data.kernel_buf
    → 0 < s.b_data.type
    → s.b_data.type < 5
    → ptr_copy m.type_measure (direction_of s.b_data.type) ≡ some ptr
    → CanMeasure m ptr (asked buf len s) first rets q e
    → Measured m (asked buf len s) rets e len (benchmark_driver_write m buf len s)
benchmark_driver_write-Measured m ptr buf len s first rets q e b le k lo hi f h =
    let done =
      start_measure-Measured m (ltb s.b_data.type 3) ptr (asked buf len s) first rets q e h in
    let starts = init_measure-starts m ptr (asked buf len s) k lo hi f in
    record {
      results = done.results;
      flushed = done.flushed;
      returns = writes m buf len s b le ∙ ap (after_init len) (starts ∙ done.returns);
      count = done.count;
      recorded = done.recorded;
    }
