-- ===== src/Bench/Cache.antt =====
-- The driver of the cache benchmark: the two file operations of
-- micro-benchmark_Cache_2CPU/driver/driverops.c. A `write` copies from the user and a `read` to the
-- user; their code differs only in the direction, the counter and the flags for the pages.
pub mod Bounds
pub mod Transfers
pub mod Module
mod Tests
use dmacftu.Prelude.{
  ℕ, ◌+◌, ◌-◌, ◌*◌, ◌/◌, ◌%◌, ◌^◌, Bool, true, false, not, Option, none, some, ltb, ◌==◌,
  if◌then◌else◌, ℤ, pos, negsuc, is_neg,
}
use dmacftu.Request.{RequestCopy, init_req_copy, to_int}
use dmacftu.Engine.{Direction, from_user, to_user, Engine}
use dmacftu.Pin.{
  PinEnv, PinResult, pin_failed, pin_successful, pin_no_user, PageLog, dma_pin_user_pages,
  dma_unpin_user_pages,
}
use dmacftu.Channels.{ChannelState}
use dmacftu.UserCopy.{shared, dma_copy_policy}
use dmacftu.Daemon.{to_size}

-- `struct benchmark_data`.
pub record BenchmarkData : Type 0 where
  pub kernel_size : ℕ
  pub kernel_buf : ℕ
  pub counter_op_read : ℕ
  pub counter_op_write : ℕ
  pub type : ℕ

-- What the operations work on: the channels, the memory management, what copy_from_user_pure or
-- copy_to_user_pure returns, and the state of the device, the engine and the pages.
pub record Machine : Type 0 where
  pub channels : ChannelState
  pub env : PinEnv
  pub left : ℕ

pub record DeviceState : Type 0 where
  pub b_data : BenchmarkData
  pub engine : Engine
  pub log : PageLog

-- A call returns, divides by zero, or still polls a channel when the engine's answers end.
pub data Call : Type 0 where
  returned : ℤ → DeviceState → Call
  divides_by_zero : Call
  still_polls : Call

-- `-EPERM`, `-EACCES`, `-EFAULT`, `-EINVAL`.
abbrev pub eperm : ℤ
eperm = negsuc 0

abbrev pub eacces : ℤ
eacces = negsuc 12

abbrev pub efault : ℤ
efault = negsuc 13

abbrev pub einval : ℤ
einval = negsuc 21

abbrev pub counter : Direction → BenchmarkData → ℕ
counter from_user d = d.counter_op_write
counter to_user d = d.counter_op_read

abbrev pub count_up : Direction → BenchmarkData → BenchmarkData
count_up from_user d = record d { counter_op_write = (d.counter_op_write + 1) % 2 ^ 64 }
count_up to_user d = record d { counter_op_read = (d.counter_op_read + 1) % 2 ^ 64 }

-- The divisor `(int) (kernel_size / len)`, taken to `unsigned long long`.
abbrev pub divisor : BenchmarkData → ℕ → ℕ
divisor d len = to_size (d.kernel_size / len)

-- `mem_index * len`, in a `size_t`.
abbrev pub mem_offset : Direction → BenchmarkData → ℕ → ℕ
mem_offset dir d len = to_size (counter dir d % divisor d len) * len % 2 ^ 64

abbrev pub tmp_buf : Direction → BenchmarkData → ℕ → ℕ
tmp_buf dir d len = (d.kernel_buf + mem_offset dir d len) % 2 ^ 64

-- The flag of dma_pin_user_pages, and whether dma_unpin_user_pages marks the pages dirty: as the source
-- has them, true for a copy from the user.
abbrev pub pin_write : Direction → Bool
pin_write from_user = true
pin_write to_user = false

abbrev pub set_dirty : Direction → Bool
set_dirty from_user = true
set_dirty to_user = false

-- The end of both functions; `len - ret` is a `size_t`.
abbrev pub finish : Direction → ℕ → DeviceState → ℤ → Call
finish dir len s (negsuc e) = returned (negsuc e) s
finish dir len s (pos n) =
    returned (pos ((len + 2 ^ 64 - n) % 2 ^ 64)) (record s { b_data = count_up dir s.b_data })

-- After the copy by DMA the pages are released.
abbrev pub after_dma : Direction → ℕ → DeviceState → Option (ℤ × RequestCopy × Engine) → Call
after_dma dir len s none = still_polls
after_dma dir len s (some (ret, q, e)) =
    finish dir len (record s { engine = e; log = dma_unpin_user_pages q (set_dirty dir) s.log }) ret

abbrev pub after_pin :
    Direction → Machine → ℕ → DeviceState → PinResult × RequestCopy × PageLog → Call
after_pin dir m len s (pin_failed, q, log) = returned eacces (record s { log = log })
after_pin dir m len s (pin_no_user, q, log) = returned eacces (record s { log = log })
after_pin dir m len s (pin_successful, q, log) =
    after_dma dir len (record s { log = log }) (dma_copy_policy shared dir m.channels q s.engine)

-- The `switch` over the type of measure: 1 is the processor, 2 the shared policy.
unfoldable pub copy_by_type : Direction → Machine → ℕ → ℕ → DeviceState → Call
unfolding init_req_copy dma_pin_user_pages dma_unpin_user_pages
copy_by_type dir m buf len s =
    if s.b_data.type == 1
    then finish dir len s (to_int m.left)
    else if s.b_data.type == 2
    then after_pin dir m len s (
        dma_pin_user_pages m.env (pin_write dir) (init_req_copy buf (tmp_buf dir s.b_data len) len)
          s.log)
    else finish dir len s eperm

-- benchmark_driver_write (from the user) and benchmark_driver_read (to the user).
unfoldable pub benchmark_driver_copy : Direction → Machine → ℕ → ℕ → DeviceState → Call
unfolding copy_by_type
benchmark_driver_copy dir m buf len s =
    if buf == 0
    then returned einval s
    else if ltb s.b_data.kernel_size len
    then returned efault s
    else if len == 0
    then divides_by_zero
    else if divisor s.b_data len == 0
    then divides_by_zero
    else copy_by_type dir m buf len s

abbrev pub benchmark_driver_write : Machine → ℕ → ℕ → DeviceState → Call
benchmark_driver_write m buf len s = benchmark_driver_copy from_user m buf len s

abbrev pub benchmark_driver_read : Machine → ℕ → ℕ → DeviceState → Call
benchmark_driver_read m buf len s = benchmark_driver_copy to_user m buf len s
