-- ===== src/Uaccess.antt =====
-- The kernel's copies to and from the user, source/arch/x86/include/asm/uaccess_64.h, with the DMA
-- engine in place of the processor (CONFIG_SHARED_COPY_TO_FROM_IOATDMA or
-- CONFIG_EXCL_COPY_TO_FROM_IOATDMA) and with the trace of every copy
-- (CONFIG_TRACE_COPY_TO_FROM_X86_64). The processor's copy routines are a parameter: they return the
-- number of bytes that they could not copy.
pub mod Measure
pub mod Boot
mod Tests
use dmacftu.Prelude.{
  ℕ, ◌+◌, ◌-◌, ◌%◌, ◌^◌, Bool, true, false, not, ◌||◌, List, [], ◌∷◌, Option, none, some, ltb, leb,
  ◌==◌, if◌then◌else◌, ℤ, pos, negsuc, is_neg, ℕ_discrete,
}
use mathlib.Core.Logic.{ite}
use dmacftu.CircularBuffer.{
  UnitBuff, CircularBuffer, op_copy_cpu, op_copy_dma, get_counter, cb_write,
}
use dmacftu.Request.{DmaStatus, dma_success, RequestCopy, init_req_copy}
use dmacftu.Engine.{Direction, from_user, to_user, Engine}
use dmacftu.Pin.{PinEnv, PageLog}
use dmacftu.Channels.{ChannelState}
use dmacftu.UserCopy.{Outcome, dma_copy_user}

-- copy_from_user, copy_to_user, __copy_from_user and __copy_to_user.
pub data Kind : Type 0 where
  checked_from checked_to raw_from raw_to : Kind

abbrev pub direction : Kind → Direction
direction checked_from = from_user
direction checked_to = to_user
direction raw_from = from_user
direction raw_to = to_user

-- `status != DMA_SUCCESS`.
abbrev pub is_success : DmaStatus → Bool
is_success dma_success = true
is_success _ = false

-- The conversion of the `int` result to `unsigned long`.
abbrev pub to_ulong : ℤ → ℕ
to_ulong (pos n) = n
to_ulong (negsuc n) = (2 ^ 64 - 1 - n) % 2 ^ 64

-- The test after the DMA copy: the bytes left, or `none` where the processor has to copy.
-- In the traced copy_from_user the result is unsigned, so that `n < 0` never holds.
abbrev pub dma_verdict : Bool → Kind → Outcome → Option ℕ
dma_verdict true checked_from o =
    if not (is_success o.request.status) then none else some (to_ulong o.ret)
dma_verdict traced kind o =
    if is_neg o.ret || not (is_success o.request.status) then none else some (to_ulong o.ret)

-- The four buffers of each CPU, boot_trace_copy_tofrom.c.
pub record Traces : Type 0 where
  pub mem_buff_from : ℕ → CircularBuffer
  pub mem_buff_to : ℕ → CircularBuffer
  pub raw_mem_buff_from : ℕ → CircularBuffer
  pub raw_mem_buff_to : ℕ → CircularBuffer

abbrev pub buffers : Kind → Traces → ℕ → CircularBuffer
buffers checked_from t = t.mem_buff_from
buffers checked_to t = t.mem_buff_to
buffers raw_from t = t.raw_mem_buff_from
buffers raw_to t = t.raw_mem_buff_to

abbrev pub update_cpu : (ℕ → CircularBuffer) → ℕ → CircularBuffer → ℕ → CircularBuffer
update_cpu f cpu cb i = if i == cpu then cb else f i

abbrev pub set_buffer : Kind → Traces → ℕ → CircularBuffer → Traces
set_buffer checked_from t cpu cb = record t { mem_buff_from = update_cpu t.mem_buff_from cpu cb }
set_buffer checked_to t cpu cb = record t { mem_buff_to = update_cpu t.mem_buff_to cpu cb }
set_buffer raw_from t cpu cb = record t {
  raw_mem_buff_from = update_cpu t.raw_mem_buff_from cpu cb;
}
set_buffer raw_to t cpu cb = record t { raw_mem_buff_to = update_cpu t.raw_mem_buff_to cpu cb }

-- The arguments of a call, and what it reads on the way: the return address, the CPU at the start,
-- the clock before and after, and the CPU at the end.
pub record Call : Type 0 where
  pub user : ℕ
  pub kernel : ℕ
  pub size : ℕ
  pub return_addr : ℕ
  pub cpu_start : ℕ
  pub clock_start : ℕ
  pub clock_end : ℕ
  pub cpu_event : ℕ

-- What the copy reads and changes besides the traces.
pub record Machine : Type 0 where
  pub channels : ChannelState
  pub env : PinEnv
  pub engine : Engine
  pub log : PageLog

-- The bytes copied, as each function computes them: copy_to_user subtracts an `int` from an
-- `unsigned`, the others from an `unsigned long`.
abbrev pub measured_size : Kind → ℕ → ℕ → ℕ
measured_size checked_to size left = (size + 2 ^ 32 - left % 2 ^ 32) % 2 ^ 32
measured_size kind size left = (size + 2 ^ 64 - left) % 2 ^ 64

-- The end of each traced function: the measure is counted and written on the current CPU.
unfoldable pub write_measure : Kind → Call → ℕ → ℕ → Traces → Traces
write_measure kind call type_op left t =
    let (count, cb) = get_counter (buffers kind t call.cpu_event) in
    set_buffer kind t call.cpu_event (
      cb_write cb (record {
        index_cpu_event = call.cpu_event;
        count_event = count;
        addr = call.return_addr;
        size = measured_size kind call.size left;
        type_op = type_op;
        index_cpu = call.cpu_start;
        clock_cpu_start = call.clock_start;
        clock_cpu_end = call.clock_end;
      }))

abbrev pub machine_after : Machine → Outcome → Machine
machine_after m o = record m { engine = o.engine; log = o.log }

module _ (cpu_copy : Kind → ℕ → ℕ) where
  -- The bytes left, and which of the two copied.
  abbrev pub left_and_op : Bool → Kind → ℕ → Outcome → ℕ × ℕ
  left_and_op traced kind size o = elim (dma_verdict traced kind o) [
    | none ↦ (cpu_copy kind size, op_copy_cpu)
    | some left ↦ (left, op_copy_dma)
  ]

  -- The traced functions of a kernel that copies by DMA: the bytes left, the traces, the machine.
  unfoldable pub traced_copy : Kind → Call → Machine → Traces → Option (ℕ × Traces × Machine)
  traced_copy kind call m t =
      elim (dma_copy_user (direction kind) m.channels m.env
        (init_req_copy call.user call.kernel call.size) m.engine m.log) [
          | none ↦ none
          | some o ↦
              let (left, op) = left_and_op true kind call.size o in
              some (left, write_measure kind call op left t, machine_after m o)
        ]

  -- The same of a kernel that copies by the processor.
  unfoldable pub traced_copy_cpu : Kind → Call → Traces → ℕ × Traces
  traced_copy_cpu kind call t =
      let left = cpu_copy kind call.size in (left, write_measure kind call op_copy_cpu left t)

  -- copy_from_user_dma_pure and its like, which the kernel uses where it does not trace. The source keeps the
  -- result in an `int`, which is the same below 2^31 bytes.
  unfoldable pub dma_pure : Kind → Call → Machine → Option (ℕ × Machine)
  dma_pure kind call m =
      elim (dma_copy_user (direction kind) m.channels m.env
        (init_req_copy call.user call.kernel call.size) m.engine m.log) [
          | none ↦ none
          | some o ↦ some ((left_and_op false kind call.size o).0, machine_after m o)
        ]
