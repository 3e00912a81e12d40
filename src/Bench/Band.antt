-- ===== src/Bench/Band.antt =====
-- The driver of the bandwidth benchmark: the file operations of
-- micro-benchmark_Band/driver/driverops.c. MB_LOAD pins the pages of a buffer of the user, the transfers
-- copy from or to it, and MB_UNLOAD releases the pages. A `write` copies from the user, a `read` to the
-- user; their code differs in the direction alone.
pub mod Session
mod Tests
pub mod Module
pub mod Loading
use dmacftu.Prelude.{
  ℕ, ◌+◌, ◌-◌, ◌%◌, ◌^◌, Bool, true, false, not, ◌||◌, List, [], ◌∷◌, ◌++◌, Option, none, some, ltb,
  ◌==◌, if◌then◌else◌, ℤ, pos, negsuc,
}
use dmacftu.Request.{RequestCopy, init_req_copy, init_req_copy_prio, to_int}
use dmacftu.Engine.{Direction, Engine}
use dmacftu.Pin.{
  PinEnv, PinResult, pin_failed, pin_successful, pin_no_user, PageLog, dma_pin_user_pages,
  dma_pin_user_pages_prio, dma_unpin_user_pages,
}
use dmacftu.Channels.{ChannelState}
use dmacftu.UserCopy.{Policy, shared, exclusive, by_priority, dma_copy_policy}
use dmacftu.Bench.Cache.{eperm, eacces, efault, einval}

-- The types of measure.
abbrev pub cpu_measure : ℕ
cpu_measure = 1

abbrev pub exclusive_measure : ℕ
exclusive_measure = 2

abbrev pub shared_measure : ℕ
shared_measure = 3

abbrev pub priority_measure : ℕ
priority_measure = 4

-- `struct benchmark_data`.
pub record BenchmarkData : Type 0 where
  pub user_size : ℕ
  pub user_buf : ℕ
  pub kernel_size : ℕ
  pub kernel_buf : ℕ
  pub id_chan : ℕ
  pub req_cpy_local : RequestCopy
  pub req_cpy_local_prio : RequestCopy
  pub type : ℕ

-- The state of a device: its data, the engine, the pages, and the ranges of kernel memory that
-- get_random_bytes has filled, each by its start and its length.
pub record DeviceState : Type 0 where
  pub b_data : BenchmarkData
  pub engine : Engine
  pub log : PageLog
  pub filled : List (ℕ × ℕ)

-- `query_arg_t`.
pub record QueryArg : Type 0 where
  pub write : ℕ
  pub buf_user : ℕ
  pub len : ℕ

pub data Command : Type 0 where
  mb_load mb_unload unknown_command : Command

-- A call returns, or still polls a channel when the engine's answers end.
pub data Call : Type 0 where
  returned : ℤ → DeviceState → Call
  still_polls : Call

abbrev pub is_write : QueryArg → Bool
is_write q = not (q.write == 0)

-- After the pinning for the exclusive and the shared policy.
abbrev pub after_pin : DeviceState → PinResult × RequestCopy × PageLog → ℤ × DeviceState
after_pin s (r, q, log) =
    let s' = record s { b_data = record s.b_data { req_cpy_local = q }; log = log } in
    elim r [ pin_failed ↦ (eacces, s') | pin_no_user ↦ (eacces, s') | pin_successful ↦ (pos 0, s') ]

abbrev pub after_pin_prio : DeviceState → PinResult × RequestCopy × PageLog → ℤ × DeviceState
after_pin_prio s (r, q, log) =
    let s' = record s { b_data = record s.b_data { req_cpy_local_prio = q }; log = log } in
    elim r [ pin_failed ↦ (eacces, s') | pin_no_user ↦ (eacces, s') | pin_successful ↦ (pos 0, s') ]

-- What MB_LOAD stores and fills before it pins.
abbrev pub prepare : QueryArg → DeviceState → DeviceState
prepare q s = record s {
  b_data = record s.b_data { user_size = q.len; user_buf = q.buf_user };
  filled = s.filled ++ (s.b_data.kernel_buf, q.len) ∷ [];
}

-- The case MB_LOAD for a type of measure, once the argument is copied.
unfoldable pub load : ℕ → PinEnv → QueryArg → DeviceState → ℤ × DeviceState
unfolding init_req_copy init_req_copy_prio
load type_measure env q s0 =
    let s = prepare q s0 in
    let d = s.b_data in
    if type_measure == exclusive_measure || type_measure == shared_measure
    then after_pin s
        (dma_pin_user_pages env (is_write q) (init_req_copy q.buf_user d.kernel_buf q.len) s.log)
    else if type_measure == priority_measure
    then after_pin_prio s (
        dma_pin_user_pages_prio env (init_req_copy_prio q.buf_user d.kernel_buf q.len d.id_chan)
          s.log)
    else (pos 0, s)

-- The case MB_UNLOAD.
unfoldable pub unload : ℕ → QueryArg → DeviceState → ℤ × DeviceState
unload type_measure q s =
    if type_measure == exclusive_measure || type_measure == shared_measure
    then (pos 0, record s { log = dma_unpin_user_pages s.b_data.req_cpy_local (is_write q) s.log })
    else if type_measure == priority_measure
    then (
      pos 0,
      record s { log = dma_unpin_user_pages s.b_data.req_cpy_local_prio (is_write q) s.log },
    )
    else (pos 0, s)

-- benchmark_driver_ioctl; `left` is what copy_from_user_pure returns for the argument.
unfoldable pub benchmark_driver_ioctl :
    ℕ → PinEnv → ℕ → Command → QueryArg → DeviceState → ℤ × DeviceState
unfolding load unload
benchmark_driver_ioctl type_measure env left mb_load q s =
    if left == 0 then load type_measure env q s else (eacces, s)
benchmark_driver_ioctl type_measure env left mb_unload q s =
    if left == 0 then unload type_measure q s else (eacces, s)
benchmark_driver_ioctl type_measure env left unknown_command q s = (einval, s)

-- The end of both transfers; `len - ret` is a `size_t`.
abbrev pub finish : ℕ → ℤ → DeviceState → Call
finish len (negsuc e) s = returned (negsuc e) s
finish len (pos n) s = returned (pos ((len + 2 ^ 64 - n) % 2 ^ 64)) s

-- After a copy of the request for the exclusive or the shared policy.
abbrev pub after_copy : ℕ → DeviceState → Option (ℤ × RequestCopy × Engine) → Call
after_copy len s none = still_polls
after_copy len s (some (ret, q, e)) =
    finish len ret (record s { b_data = record s.b_data { req_cpy_local = q }; engine = e })

abbrev pub after_copy_prio : ℕ → DeviceState → Option (ℤ × RequestCopy × Engine) → Call
after_copy_prio len s none = still_polls
after_copy_prio len s (some (ret, q, e)) =
    finish len ret (record s { b_data = record s.b_data { req_cpy_local_prio = q }; engine = e })

-- The `switch` over the type of the device; `left` is what the copy by the processor returns.
unfoldable pub copy_by_type : Direction → ChannelState → ℕ → ℕ → DeviceState → Call
copy_by_type dir ch left len s =
    let d = s.b_data in
    if d.type == cpu_measure
    then finish len (to_int left) s
    else if d.type == exclusive_measure
    then after_copy len s (dma_copy_policy exclusive dir ch d.req_cpy_local s.engine)
    else if d.type == shared_measure
    then after_copy len s (dma_copy_policy shared dir ch d.req_cpy_local s.engine)
    else if d.type == priority_measure
    then after_copy_prio len s (dma_copy_policy by_priority dir ch d.req_cpy_local_prio s.engine)
    else finish len eperm s

-- benchmark_driver_write (from the user) and benchmark_driver_read (to the user).
unfoldable pub benchmark_driver_copy : Direction → ChannelState → ℕ → ℕ → ℕ → DeviceState → Call
unfolding copy_by_type
benchmark_driver_copy dir ch left buf len s =
    if buf == 0
    then returned einval s
    else if ltb s.b_data.kernel_size len
    then returned efault s
    else copy_by_type dir ch left len s
