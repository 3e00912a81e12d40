-- ===== src/Bench/Msg/Driver.antt =====
-- The driver of the message benchmark: start_measure and init_measure of
-- micro-benchmark_Msg/driver/core_benchmark.c and the file operations of
-- micro-benchmark_Msg/driver/driverops.c. `schedule` and the random bytes of the test memory are left out.
use dmacftu.Prelude.{
  ℕ, Bool, true, false, not, ◌||◌, List, Option, none, some, ltb, ◌==◌, if◌then◌else◌, ℤ, pos,
  negsuc,
}
use dmacftu.Request.{RequestCopy, init_req_copy}
use dmacftu.Engine.{Direction, from_user, to_user, Engine}
use dmacftu.Pin.{
  PinResult, pin_failed, pin_successful, pin_no_user, PageLog, dma_pin_user_pages,
  dma_unpin_user_pages,
}
use dmacftu.UserCopy.{shared, exclusive}
use dmacftu.Trace.{seek_to, add_offset}
use dmacftu.Trace.Module.{enomem}
use dmacftu.Bench.Cache.{eacces, efault, einval}
use dmacftu.Bench.Msg.{
  BenchmarkData, BenchmarkOutput, Machine, PtrCopy, UnitBuffUser, Work, buff_measure, copy_measure,
  cpu_copy, cpu_measure, dma_copy, exclusive_measure, measure_loop, on_cpu, shared_measure, store,
  unit_at,
}

-- The state of a device.
pub record DeviceState : Type 0 where
  pub b_data : BenchmarkData
  pub engine : Engine
  pub log : PageLog
  pub flushed : List (ℕ × ℕ)

-- A call returns, still polls a channel, or goes through the pointer `ptr_copy` that was never set.
pub data Call : Type 0 where
  returned : ℤ → DeviceState → Call
  still_polls : Call
  wild_jump : Call

-- ID_COPY_FROM and ID_COPY_FROM_NC are 1 and 3.
abbrev pub is_from : ℕ → Bool
is_from type = type == 1 || type == 3

abbrev pub by_dma : Machine → Bool
by_dma m = m.type_measure == exclusive_measure || m.type_measure == shared_measure

abbrev pub with_results : BenchmarkOutput → DeviceState → DeviceState
with_results r s = record s { b_data = record s.b_data { results = r } }

-- After the loop: the pages of a DMA copy are released.
abbrev pub after_loop : Machine → DeviceState → Option (BenchmarkOutput × Work) → Call
after_loop m s none = still_polls
after_loop m s (some (r, w)) = returned (pos 0) (record (with_results r s) {
  engine = w.engine;
  flushed = w.flushed;
  log = if by_dma m then dma_unpin_user_pages w.req (not (is_from s.b_data.type)) s.log else s.log;
})

-- The copy that warms the cache, whose result is not read, and the loop.
abbrev pub after_warm_up :
    Machine
    → Bool
    → PtrCopy
    → BenchmarkOutput
    → Option (ℤ × UnitBuffUser × Work)
    → Option (BenchmarkOutput × Work)
after_warm_up m mb_cache ptr r none = none
after_warm_up m mb_cache ptr r (some (ret, u, w)) =
    measure_loop m mb_cache ptr buff_measure 0 (store 0 u r) w

abbrev pub run_measures : Machine → Bool → PtrCopy → DeviceState → RequestCopy → Call
run_measures m mb_cache ptr s q =
    let r = record s.b_data.results { count = 0 } in
    let w : Work = record { req = q; engine = s.engine; flushed = s.flushed } in
    after_loop m s
      (after_warm_up m mb_cache ptr r (copy_measure m 0 mb_cache ptr (on_cpu m 0 (unit_at r 0)) w))

abbrev pub after_pin :
    Machine → Bool → PtrCopy → DeviceState → PinResult × RequestCopy × PageLog → Call
after_pin m mb_cache ptr s (pin_failed, q, log) =
    returned eacces (record (with_results (record s.b_data.results { count = 0 }) s) { log = log })
after_pin m mb_cache ptr s (pin_no_user, q, log) =
    returned eacces (record (with_results (record s.b_data.results { count = 0 }) s) { log = log })
after_pin m mb_cache ptr s (pin_successful, q, log) =
    run_measures m mb_cache ptr (record s { log = log }) q

-- start_measure.
unfoldable pub start_measure : Machine → Bool → PtrCopy → DeviceState → Call
unfolding init_req_copy measure_loop copy_measure dma_pin_user_pages
start_measure m mb_cache ptr s =
    let d = s.b_data in
    let q = init_req_copy d.user_buf d.kernel_buf d.user_size in
    if by_dma m
    then after_pin m mb_cache ptr s (dma_pin_user_pages m.env (not (is_from d.type)) q s.log)
    else run_measures m mb_cache ptr s q

-- The function for a direction, by the type of measure; `none` is a pointer that is not set.
abbrev pub ptr_copy : ℕ → Direction → Option PtrCopy
ptr_copy type_measure dir =
    if type_measure == cpu_measure
    then some (cpu_copy dir)
    else if type_measure == exclusive_measure
    then some (dma_copy exclusive dir)
    else if type_measure == shared_measure
    then some (dma_copy shared dir)
    else none

abbrev pub through : Machine → Bool → Option PtrCopy → DeviceState → Call
through m mb_cache none s = wild_jump
through m mb_cache (some ptr) s = start_measure m mb_cache ptr s

-- init_measure: its `switch` over ID_COPY_FROM, ID_COPY_TO, ID_COPY_FROM_NC and ID_COPY_TO_NC.
unfoldable pub init_measure : Machine → DeviceState → Call
unfolding start_measure
init_measure m s =
    let t = s.b_data.type in
    if s.b_data.kernel_buf == 0
    then returned enomem s
    else if t == 1
    then through m true (ptr_copy m.type_measure from_user) s
    else if t == 2
    then through m true (ptr_copy m.type_measure to_user) s
    else if t == 3
    then through m false (ptr_copy m.type_measure from_user) s
    else if t == 4
    then through m false (ptr_copy m.type_measure to_user) s
    else returned einval s

abbrev pub after_init : ℕ → Call → Call
after_init len still_polls = still_polls
after_init len wild_jump = wild_jump
after_init len (returned (negsuc e) s) = returned efault s
after_init len (returned (pos n) s) = returned (pos len) s

-- benchmark_driver_write.
unfoldable pub benchmark_driver_write : Machine → ℕ → ℕ → DeviceState → Call
unfolding init_measure
benchmark_driver_write m buf len s =
    if buf == 0
    then returned einval s
    else if ltb s.b_data.kernel_size len
    then returned efault s
    else after_init len
        (init_measure m (record s { b_data = record s.b_data { user_size = len; user_buf = buf } }))

-- benchmark_driver_read: what copy_to_user_pure returns, and the size of the results in bytes.
unfoldable pub benchmark_driver_read : ℕ → ℕ → ℕ → ℤ
benchmark_driver_read buf left size_output =
    if buf == 0 then einval else if not (left == 0) then efault else pos size_output

-- benchmark_driver_lseek: the result and the position.
unfoldable pub benchmark_driver_lseek : ℕ → ℤ → ℕ → ℤ × ℕ
benchmark_driver_lseek f_pos off whence =
    if whence == 0
    then seek_to f_pos off
    else if whence == 1
    then seek_to f_pos (add_offset f_pos off)
    else if whence == 2
    then seek_to f_pos off
    else (einval, f_pos)
