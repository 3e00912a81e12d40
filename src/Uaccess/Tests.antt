-- ===== src/Uaccess/Tests.antt =====
-- The traced copies of source/arch/x86/include/asm/uaccess_64.h at a concrete call.
use dmacftu.Prelude.{◌≡◌, [], true, ℕ, ◌≢◌, ◌-◌, refl, false, [], ◌∷◌, none, arith}
use dmacftu.CircularBuffer.{CircularBuffer, zero_unit, op_copy_cpu, op_copy_dma}
use dmacftu.CircularBuffer.Contents.{IsValid, contents}
use dmacftu.Request.{dma_success, dma_error, init_req_copy}
use dmacftu.Engine.{from_user, Poll}
use dmacftu.Engine.Wait.{verdict}
use dmacftu.Pin.{dma_pin_user_pages}
use dmacftu.Channels.{copy_dma_get_channel_boot}
use dmacftu.UserCopy.{ebusy}
use dmacftu.UserCopy.Delivery.{GoesThrough}
use dmacftu.UserCopy.Refused.{Refusal, no_channel}
use dmacftu.UserCopy.Cases.{
  request-init, engine, channels, no_channels, env, empty_log, busy_poll, last_poll, goes,
  env-IsDocumented,
}
use dmacftu.Uaccess.{
  Kind, checked_from, checked_to, raw_from, raw_to, Traces, buffers, Call, Machine, write_measure,
}
use dmacftu.Uaccess.Boot.{boot_init_trace_copy, boot_init_trace_copy-IsValid}
use dmacftu.Uaccess.Measure.{
  TracesValid, Recorded, write_measure-Recorded, Traced, Traced-by_dma, Traced-failed,
  Traced-refused, request_of,
}

abbrev empty_buffer : CircularBuffer
empty_buffer = record {
  count_event = 0;
  start = 0;
  end = 0;
  size = 3;
  array_element = zero_unit ∷ zero_unit ∷ zero_unit ∷ [];
}

empty_buffer-IsValid : IsValid empty_buffer
empty_buffer-IsValid = record {
  small = omega arith;
  storage = refl;
  start_in = omega arith;
  end_in = omega arith;
}

abbrev traces : Traces
traces = record {
  mem_buff_from = λ cpu. empty_buffer;
  mem_buff_to = λ cpu. empty_buffer;
  raw_mem_buff_from = λ cpu. empty_buffer;
  raw_mem_buff_to = λ cpu. empty_buffer;
}

all-IsValid : (kind : Kind) (cpu : ℕ) → IsValid (buffers kind traces cpu)
all-IsValid checked_from cpu = empty_buffer-IsValid
all-IsValid checked_to cpu = empty_buffer-IsValid
all-IsValid raw_from cpu = empty_buffer-IsValid
all-IsValid raw_to cpu = empty_buffer-IsValid

traces-TracesValid : TracesValid traces
traces-TracesValid = record { valid = all-IsValid }

abbrev call : Call
call = record {
  user = 4090;
  kernel = 1000;
  size = 10;
  return_addr = 77;
  cpu_start = 0;
  clock_start = 100;
  clock_end = 160;
  cpu_event = 1;
}

one_measure :
    Recorded raw_to call op_copy_cpu 4 traces (write_measure raw_to call op_copy_cpu 4 traces)
one_measure =
    write_measure-Recorded raw_to call op_copy_cpu 4 traces traces-TracesValid (omega arith)
      (omega arith)

-- The processor leaves four bytes.
abbrev cpu_copy : Kind → ℕ → ℕ
cpu_copy kind size = size - 6

abbrev machine : Machine
machine = record { channels = channels; env = env; engine = engine; log = empty_log }

call-goes :
    GoesThrough from_user channels env
      (request_of call)
      engine
      empty_log
      3
      (busy_poll ∷ [])
      last_poll
      []
call-goes = rw request-init goes

Traced-by_dma_example : Traced cpu_copy checked_from call machine traces 0 op_copy_dma
Traced-by_dma_example =
    Traced-by_dma cpu_copy checked_from call machine traces 3 (busy_poll ∷ []) last_poll []
      traces-TracesValid call-goes refl (omega arith)

-- The same with an error at the last poll.
abbrev failed_poll : Poll
failed_poll = record { status = dma_error; expired = false }

abbrev failing : Machine
failing = record machine { engine = record engine { polls = busy_poll ∷ failed_poll ∷ [] } }

call-fails :
    GoesThrough from_user channels env
      (request_of call)
      failing.engine
      empty_log
      3
      (busy_poll ∷ [])
      failed_poll
      []
unfolding copy_dma_get_channel_boot dma_pin_user_pages init_req_copy
call-fails = record {
  some_bytes = omega arith;
  few_bytes = omega arith;
  below_top = omega arith;
  channel = refl;
  documented = env-IsDocumented none;
  pinned = refl;
  ready = record {
    accepted = omega arith;
    mapped = (tt, (tt, (tt, tt)));
    polled = refl;
    waiting = ((refl, refl), tt);
    ended = λ h. cc;
    bytes_fit = omega arith;
    count_fits = omega arith;
  };
}

failed-not_success : verdict failed_poll ≢ dma_success
failed-not_success e = cc

Traced-failed_example : Traced cpu_copy raw_from call failing traces 4 op_copy_cpu
Traced-failed_example =
    Traced-failed cpu_copy raw_from call failing traces 3 (busy_poll ∷ []) failed_poll []
      traces-TracesValid call-fails failed-not_success (omega arith) (omega arith)

abbrev starved : Machine
starved = record machine { channels = no_channels }

call-refused : Refusal from_user no_channels env (request_of call) empty_log ebusy
unfolding copy_dma_get_channel_boot init_req_copy
call-refused = no_channel (omega arith) refl refl

Traced-refused_example : Traced cpu_copy checked_from call starved traces 4 op_copy_cpu
Traced-refused_example =
    Traced-refused cpu_copy checked_from call starved traces ebusy traces-TracesValid call-refused
      (omega arith) (omega arith)

boot_buffers-IsValid :
    IsValid (buffers raw_from (boot_init_trace_copy (λ kind i. true) (0 ∷ 1 ∷ []) traces) 1)
    × (contents (buffers raw_from (boot_init_trace_copy (λ kind i. true) (0 ∷ 1 ∷ []) traces) 1)
        ≡ [])
    × (buffers checked_to (boot_init_trace_copy (λ kind i. true) (0 ∷ 1 ∷ []) traces) 2
        ≡ empty_buffer)
boot_buffers-IsValid =
    boot_init_trace_copy-IsValid (λ kind i. true) raw_from checked_to 1 2 (0 ∷ 1 ∷ []) traces refl
      refl refl
