-- ===== src/CircularBuffer.antt =====
-- The circular buffer of measures, source/include/linux/circular_buffer.h and
-- source/kernel/circular_buffer.c.
-- A function that updates `*cb` returns the new buffer; the element that `cbRead` and `cbRead_list`
-- copy out is returned beside it. The memory barriers order the copy before the index update for the
-- other CPUs, and have no counterpart in this sequential model.
pub mod Queue
pub mod Contents
pub mod Read
pub mod Refine
mod Tests
use dmacftu.Prelude.{
  ℕ, ◌+◌, ◌-◌, ◌%◌, ◌^◌, Bool, true, false, not, List, [], ◌++◌, Option, length, get_elem?, set,
  take, drop, replicate, ltb, ◌==◌, if◌then◌else◌,
}

-- `struct unit_buff`: one measure.
pub record UnitBuff : Type 0 where
  pub index_cpu_event : ℕ
  pub count_event : ℕ
  pub addr : ℕ
  pub size : ℕ
  pub type_op : ℕ
  pub index_cpu : ℕ
  pub clock_cpu_start : ℕ
  pub clock_cpu_end : ℕ

-- `OP_COPY_NO_DEF`, `OP_COPY_CPU`, `OP_COPY_DMA`.
abbrev pub op_copy_no_def : ℕ
op_copy_no_def = 0

abbrev pub op_copy_cpu : ℕ
op_copy_cpu = 1

abbrev pub op_copy_dma : ℕ
op_copy_dma = 2

abbrev pub circ_buff_size : ℕ
circ_buff_size = 1024

-- What `kzalloc` leaves in an element.
abbrev pub zero_unit : UnitBuff
zero_unit = record {
  index_cpu_event = 0;
  count_event = 0;
  addr = 0;
  size = 0;
  type_op = 0;
  index_cpu = 0;
  clock_cpu_start = 0;
  clock_cpu_end = 0;
}

-- `struct CircularBuffer`. The list is the memory behind `array_element`; a NULL pointer is [].
pub record CircularBuffer : Type 0 where
  pub count_event : ℕ
  pub start : ℕ
  pub end : ℕ
  pub size : ℕ
  pub array_element : List UnitBuff

-- The sum of a `uint` and a number.
abbrev pub add_uint : ℕ → ℕ → ℕ
add_uint a b = (a + b) % 2 ^ 32

-- `cbInit`; the argument says whether `kzalloc` finds the memory. Its result is not tested.
pub cb_init : Bool → CircularBuffer
cb_init allocated = record {
  count_event = 0;
  start = 0;
  end = 0;
  size = circ_buff_size;
  array_element = if allocated then replicate circ_buff_size zero_unit else [];
}

-- `cbFree`: the memory is gone, the indices stay.
pub cb_free : CircularBuffer → CircularBuffer
cb_free cb = record cb { array_element = [] }

pub cb_is_full : CircularBuffer → Bool
cb_is_full cb = add_uint cb.end 1 % cb.size == cb.start

pub cb_is_empty : CircularBuffer → Bool
cb_is_empty cb = cb.end == cb.start

-- `get_counter`: the new value, and the buffer that holds it. The count, a `long long` that stays in range
-- for 2^63 - 1 events, has no bound here.
pub get_counter : CircularBuffer → ℕ × CircularBuffer
get_counter cb = (cb.count_event + 1, record cb { count_event = cb.count_event + 1 })

pub cb_write : CircularBuffer → UnitBuff → CircularBuffer
unfolding cb_is_full
cb_write cb elem =
    if not (cb_is_full cb)
    then record cb {
      array_element = set cb.array_element cb.end elem;
      end = add_uint cb.end 1 % cb.size;
    }
    else cb

-- `cbRead`: the option is `*elem` (`none` for a read outside the memory).
pub cb_read : CircularBuffer → Option UnitBuff × CircularBuffer
cb_read cb =
    (get_elem? cb.array_element cb.start, record cb { start = add_uint cb.start 1 % cb.size })

-- The values of `segment_1` and `segment_2` before the copies, for a buffer that is not empty.
abbrev pub segments : CircularBuffer → ℕ → ℕ × ℕ
segments cb size =
    if ltb cb.end cb.start
    then if ltb size (cb.size - cb.start + cb.end)
      then if ltb size (cb.size - cb.start)
        then (size, 0)
        else (cb.size - cb.start, size - (cb.size - cb.start))
      else (cb.size - cb.start, cb.end)
    else if ltb size (cb.end - cb.start)
    then (size, 0)
    else (cb.end - cb.start, 0)

-- `memcpy` of n elements from the index i on.
abbrev pub copy_out : List UnitBuff → ℕ → ℕ → List UnitBuff
copy_out xs i n = take n (drop i xs)

-- The two copies of `cbRead_list`, with `start` moved after each.
abbrev pub copy_segments : CircularBuffer → ℕ × ℕ → List UnitBuff × CircularBuffer × ℕ
copy_segments cb (s1, s2) =
    let start' = add_uint cb.start s1 % cb.size in
    let first = copy_out cb.array_element cb.start s1 in
    if not (s2 == 0)
    then (
      first ++ copy_out cb.array_element start' s2,
      record cb { start = add_uint start' s2 % cb.size },
      s1 + s2,
    )
    else (first, record cb { start = start' }, s1 + s2)

-- `cbRead_list`: what stands in `elem` after the call, the buffer, and the number returned.
-- `size` is an `int` that is not negative.
pub cb_read_list : CircularBuffer → ℕ → List UnitBuff × CircularBuffer × ℕ
cb_read_list cb size =
    if cb.end == cb.start then ([], cb, 0) else copy_segments cb (segments cb size)
