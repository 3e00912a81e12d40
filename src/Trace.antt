-- ===== src/Trace.antt =====
-- The character driver that hands the measures to the user: trace/driver/driverops.c (the file
-- operations and the device lists) and trace/driver/core_trace_copy.c (region_read_cpu).
pub mod Module
pub mod Drained
pub mod Loading
mod Tests
use dmacftu.Prelude.{
  ℕ, zero, suc, ◌+◌, ◌-◌, Bool, true, false, not, List, [], ◌∷◌, ◌++◌, length, drop, ltb, ◌==◌,
  if◌then◌else◌, ℤ, pos, negsuc, is_neg, Option, none, some,
}
use dmacftu.CircularBuffer.{UnitBuff, CircularBuffer, cb_read_list}

abbrev pub buff_read : ℕ
buff_read = 500

-- `-EINVAL`, `-EIO`.
abbrev pub einval : ℤ
einval = negsuc 21

abbrev pub eio : ℤ
eio = negsuc 4

-- `struct region_mem`: the measures of one CPU.
pub record RegionMem : Type 0 where
  pub count : ℕ
  pub buffer : List UnitBuff

-- `struct trace_data`: the array of regions, which has count_region elements, and the circular buffer of
-- each CPU. `ptr_region` is read and written below count_region only.
pub record TraceData : Type 0 where
  pub count_region : ℕ
  pub ptr_region : ℕ → RegionMem
  pub ptr_cb : ℕ → CircularBuffer

-- `memcpy` over the start of the region's array.
abbrev pub copy_over : List UnitBuff → List UnitBuff → List UnitBuff
copy_over out old = out ++ drop (length out) old

-- region_read_cpu; the region's count is set to 0 first, so that the measures go to its start.
unfoldable pub region_read_cpu : ℕ → CircularBuffer → RegionMem → CircularBuffer × RegionMem
region_read_cpu len cb reg =
    let (out, cb', n) = cb_read_list cb len in
    (cb', record { count = n; buffer = copy_over out reg.buffer })

abbrev pub update {ℓ} : {A : Type ℓ} → (ℕ → A) → ℕ → A → ℕ → A
update f i a j = if j == i then a else f j

-- What the turn of one CPU leaves.
abbrev pub read_cpu : ℕ → ℕ → TraceData → TraceData
read_cpu len j t =
    let (cb, reg) = region_read_cpu len (t.ptr_cb j) (t.ptr_region j) in
    record t { ptr_region = update t.ptr_region j reg; ptr_cb = update t.ptr_cb j cb }

-- The loop of trace_driver_read over the present CPUs; none is an access past the end of the regions.
unfoldable pub read_cpus : ℕ → List ℕ → TraceData → Option TraceData
unfolding region_read_cpu
read_cpus len [] t = some t
read_cpus len (j ∷ cpus) t =
    let rest = read_cpus len cpus (read_cpu len j t) in
    if not (ltb j t.count_region) then none else rest

-- The end of trace_driver_read, with what copy_to_user_pure returns.
abbrev pub copied_out : ℕ → ℕ → Option TraceData → Option (ℤ × TraceData)
copied_out size_reg left none = none
copied_out size_reg left (some t) = some (if not (left == 0) then eio else pos size_reg, t)

-- trace_driver_read: whether `buf` is a pointer, `len`, the present CPUs, the size of the regions in
-- bytes, and what copy_to_user_pure returns. None is an access past the end of the regions.
unfoldable pub trace_driver_read : Bool → ℕ → List ℕ → ℕ → ℕ → TraceData → Option (ℤ × TraceData)
unfolding read_cpus
trace_driver_read has_buf len cpus size_reg left t =
    if not has_buf
    then some (einval, t)
    else copied_out size_reg left (read_cpus (if ltb buff_read len then buff_read else len) cpus t)

-- The sum of a position, which is not negative, and an offset.
abbrev pub add_offset : ℕ → ℤ → ℤ
add_offset p (pos n) = pos (p + n)
add_offset p (negsuc n) = if ltb n p then pos (p - suc n) else negsuc (n - p)

-- The end of trace_driver_lseek: the result and the position.
abbrev pub seek_to : ℕ → ℤ → ℤ × ℕ
seek_to p (pos n) = (pos n, n)
seek_to p (negsuc n) = (einval, p)

-- trace_driver_lseek; SEEK_END is treated as SEEK_SET.
unfoldable pub trace_driver_lseek : ℕ → ℤ → ℕ → ℤ × ℕ
trace_driver_lseek f_pos off whence =
    if whence == 0
    then seek_to f_pos off
    else if whence == 1
    then seek_to f_pos (add_offset f_pos off)
    else if whence == 2
    then seek_to f_pos off
    else (einval, f_pos)
