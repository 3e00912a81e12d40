-- ===== src/Uaccess/Measure.antt =====
-- What the copies of source/arch/x86/include/asm/uaccess_64.h return and record.
use dmacftu.Prelude.{
  ℕ, ◌+◌, ◌-◌, ◌^◌, ◌≤◌, ◌<◌, ◌≡◌, ◌≢◌, ap, sym, ◌∙◌, Bool, true, false, List, some, ◌⊎◌, inl, inr,
  ℕ_discrete, arith, ℤ, pos,
}
use dmacftu.CircularBuffer.{
  UnitBuff, CircularBuffer, op_copy_cpu, op_copy_dma, get_counter, cb_write,
}
use dmacftu.CircularBuffer.Queue
use dmacftu.CircularBuffer.Contents.{IsValid, contents, get_counter_lem, count_event-cb_write}
use dmacftu.CircularBuffer.Refine.{cb_write_refines}
use dmacftu.Request.{dma_success, RequestCopy, init_req_copy}
use dmacftu.Engine.{Poll}
use dmacftu.Engine.Wait.{verdict}
use dmacftu.UserCopy.{Outcome, dma_copy_user}
use dmacftu.UserCopy.Delivery.{GoesThrough, dma_copy_user-done}
use dmacftu.UserCopy.Refused.{Refusal, dma_copy_user-refused}
use dmacftu.Uaccess.{
  Kind, checked_from, checked_to, raw_from, raw_to, direction, Traces, buffers, set_buffer, Call,
  Machine, write_measure, traced_copy, dma_pure, measured_size, left_and_op, machine_after,
}

-- Every CPU's buffer of every kind is valid and has room for the index arithmetic.
pub record TracesValid (t : Traces) : Type 0 where
  pub valid : (kind : Kind) (cpu : ℕ) → IsValid (buffers kind t cpu)

-- The measure that a call records.
abbrev pub measure_of : Kind → Call → ℕ → ℕ → CircularBuffer → UnitBuff
measure_of kind call op left cb = record {
  index_cpu_event = call.cpu_event;
  count_event = cb.count_event + 1;
  addr = call.return_addr;
  size = call.size - left;
  type_op = op;
  index_cpu = call.cpu_start;
  clock_cpu_start = call.clock_start;
  clock_cpu_end = call.clock_end;
}

-- A call on the traces t gives the traces t': the measure is added to the buffer of its kind and CPU
-- as the bounded queue adds it, the event is counted also where the queue is full, and every other
-- buffer is unchanged.
pub record Recorded (kind : Kind) (call : Call) (op left : ℕ) (t t' : Traces) : Type 0 where
  pub added :
      contents (buffers kind t' call.cpu_event)
      ≡ Queue.push
          ((buffers kind t call.cpu_event).size - 1)
          (contents (buffers kind t call.cpu_event))
          (measure_of kind call op left (buffers kind t call.cpu_event))
  pub counted :
      (buffers kind t' call.cpu_event).count_event ≡ (buffers kind t call.cpu_event).count_event + 1
  pub others_kept : t' ≡ set_buffer kind t call.cpu_event (buffers kind t' call.cpu_event)
  pub still_valid : TracesValid t'

buffers-set_self :
    (kind : Kind) (t : Traces) (cpu : ℕ) (cb : CircularBuffer)
    → buffers kind (set_buffer kind t cpu cb) cpu ≡ cb
buffers-set_self checked_from t cpu cb = ground arith
buffers-set_self checked_to t cpu cb = ground arith
buffers-set_self raw_from t cpu cb = ground arith
buffers-set_self raw_to t cpu cb = ground arith

buffers-set_other :
    (kind other : Kind) (t : Traces) (cpu i : ℕ) (cb : CircularBuffer)
    → (other ≢ kind) ⊎ (i ≢ cpu)
    → buffers other (set_buffer kind t cpu cb) i ≡ buffers other t i
buffers-set_other checked_from other t cpu i cb apart = ground arith
buffers-set_other checked_to other t cpu i cb apart = ground arith
buffers-set_other raw_from other t cpu i cb apart = ground arith
buffers-set_other raw_to other t cpu i cb apart = ground arith

measured_size-eq-sub :
    (kind : Kind) (size left : ℕ)
    → left ≤ size
    → size < 2 ^ 32
    → measured_size kind size left ≡ size - left
measured_size-eq-sub checked_from size left h small = omega arith
measured_size-eq-sub checked_to size left h small = omega arith
measured_size-eq-sub raw_from size left h small = omega arith
measured_size-eq-sub raw_to size left h small = omega arith

Kind-discrete : Discrete Kind
Kind-discrete = hlevel

buffers-IsValid-set :
    (kind other : Kind) (t : Traces) (cpu i : ℕ) (cb : CircularBuffer)
    → TracesValid t
    → IsValid cb
    → IsValid (buffers other (set_buffer kind t cpu cb) i)
buffers-IsValid-set kind other t cpu i cb v h = elim (Kind-discrete other kind) [
  | yes same ↦ elim (ℕ_discrete i cpu) [
    | yes here ↦ rw (same, here, buffers-set_self kind t cpu cb) h
    | no away ↦ rw (buffers-set_other kind other t cpu i cb (inr away)) (v.valid other i)
  ]
  | no apart ↦ rw (buffers-set_other kind other t cpu i cb (inl apart)) (v.valid other i)
]

-- On valid traces and for a size below 2^32 of which no more is left, the end of a traced function
-- adds the measure of the call to the bounded queue of its kind and CPU, with the bytes copied and
-- the number of the event; it counts the event also where the queue is full, changes no other buffer
-- and keeps the traces valid.
pub write_measure-Recorded :
    (kind : Kind) (call : Call) (op left : ℕ) (t : Traces)
    → TracesValid t
    → left ≤ call.size
    → call.size < 2 ^ 32
    → Recorded kind call op left t (write_measure kind call op left t)
unfolding write_measure
write_measure-Recorded kind call op left t v h small =
    let cb = buffers kind t call.cpu_event in
    let valid = v.valid kind call.cpu_event in
    let (count, same, counter_valid, same_size, event) = get_counter_lem valid in
    let unit = record (measure_of kind call op left cb) {
      count_event = (get_counter cb).0;
      size = measured_size kind call.size left;
    } in
    let (written, write_valid, size) = cb_write_refines unit counter_valid in
    let self = buffers-set_self kind t call.cpu_event (cb_write (get_counter cb).1 unit) in
    record {
      added =
          ap contents self
          ∙ written
          ∙ ground
              (arith, same, same_size, count, measured_size-eq-sub kind call.size left h small);
      counted = ap (λ b. b.count_event) self ∙ count_event-cb_write (get_counter cb).1 unit ∙ event;
      others_kept = ap (set_buffer kind t call.cpu_event) (sym self);
      still_valid = record {
        valid = λ other cpu. buffers-IsValid-set kind other t call.cpu_event cpu _ v write_valid;
      };
    }

verdict-cpu :
    (cpu_copy : Kind → ℕ → ℕ) (traced : Bool) (kind : Kind) (size : ℕ) (o : Outcome)
    → o.request.status ≢ dma_success
    → left_and_op cpu_copy traced kind size o ≡ (cpu_copy kind size, op_copy_cpu)
verdict-cpu cpu_copy true checked_from size o h = ground arith
verdict-cpu cpu_copy false checked_from size o h = ground arith
verdict-cpu cpu_copy traced checked_to size o h = ground arith
verdict-cpu cpu_copy traced raw_from size o h = ground arith
verdict-cpu cpu_copy traced raw_to size o h = ground arith

verdict-dma :
    (cpu_copy : Kind → ℕ → ℕ) (traced : Bool) (kind : Kind) (size : ℕ) (o : Outcome)
    → o.request.status ≡ dma_success
    → o.ret ≡ pos 0
    → left_and_op cpu_copy traced kind size o ≡ (0, op_copy_dma)
verdict-dma cpu_copy true checked_from size o h r = ground arith
verdict-dma cpu_copy false checked_from size o h r = ground arith
verdict-dma cpu_copy traced checked_to size o h r = ground arith
verdict-dma cpu_copy traced raw_from size o h r = ground arith
verdict-dma cpu_copy traced raw_to size o h r = ground arith

-- The request that each function prepares.
abbrev pub request_of : Call → RequestCopy
request_of call = init_req_copy call.user call.kernel call.size

-- What a traced copy returns and records, and what the copy that is not traced returns.
pub record Traced (cpu_copy : Kind → ℕ → ℕ) (kind : Kind) (call : Call) (m : Machine) (t : Traces)
    (left op : ℕ) : Type 0 where
  pub traces : Traces
  pub machine : Machine
  pub returned : traced_copy cpu_copy kind call m t ≡ some (left, traces, machine)
  pub recorded : Recorded kind call op left t traces
  pub untraced : dma_pure cpu_copy kind call m ≡ some (left, machine)

Traced-of :
    (cpu_copy : Kind → ℕ → ℕ) (kind : Kind) (call : Call) (m : Machine) (t : Traces) (left op : ℕ)
    (o : Outcome)
    → TracesValid t
    → left ≤ call.size
    → call.size < 2 ^ 32
    → dma_copy_user (direction kind) m.channels m.env (request_of call) m.engine m.log ≡ some o
    → left_and_op cpu_copy true kind call.size o ≡ (left, op)
    → left_and_op cpu_copy false kind call.size o ≡ (left, op)
    → Traced cpu_copy kind call m t left op
unfolding traced_copy dma_pure
Traced-of cpu_copy kind call m t left op o v h small run verdict_t verdict_f = record {
  traces = write_measure kind call op left t;
  machine = machine_after m o;
  returned = ground (arith, run, verdict_t);
  recorded = write_measure-Recorded kind call op left t v h small;
  untraced = ground (arith, run, verdict_f);
}

module _ (cpu_copy : Kind → ℕ → ℕ) (kind : Kind) (call : Call) (m : Machine) (t : Traces) where
  -- On valid traces and for less than 2^31 bytes, where the DMA copy goes through and the wait ends
  -- in success, each of the four functions, traced or not, returns that no byte is left, and the
  -- traced one records a DMA copy of the whole size.
  pub Traced-by_dma :
      (c : ℕ) (busy : List Poll) (p : Poll) (ps : List Poll)
      → TracesValid t
      → GoesThrough (direction kind) m.channels m.env (request_of call) m.engine m.log c busy p ps
      → verdict p ≡ dma_success
      → call.size < 2 ^ 31
      → Traced cpu_copy kind call m t 0 op_copy_dma
  Traced-by_dma c busy p ps v g good small =
      let (o, run, ret, status, submitted, pages) =
        dma_copy_user-done (direction kind) m.channels m.env (request_of call) m.engine m.log c busy
          p ps g in
      Traced-of cpu_copy kind call m t 0 op_copy_dma o v (omega arith) (omega arith) run
        (verdict-dma cpu_copy true kind call.size o (status ∙ good) ret)
        (verdict-dma cpu_copy false kind call.size o (status ∙ good) ret)

  -- On valid traces, for less than 2^31 bytes and a processor that leaves no more bytes than it was
  -- given, where the DMA copy goes through but the wait ends without success, the processor copies
  -- again: each function returns the bytes that the processor left, and records a copy by the
  -- processor.
  pub Traced-failed :
      (c : ℕ) (busy : List Poll) (p : Poll) (ps : List Poll)
      → TracesValid t
      → GoesThrough (direction kind) m.channels m.env (request_of call) m.engine m.log c busy p ps
      → verdict p ≢ dma_success
      → cpu_copy kind call.size ≤ call.size
      → call.size < 2 ^ 31
      → Traced cpu_copy kind call m t (cpu_copy kind call.size) op_copy_cpu
  Traced-failed c busy p ps v g bad part small =
      let (o, run, ret, status, submitted, pages) =
        dma_copy_user-done (direction kind) m.channels m.env (request_of call) m.engine m.log c busy
          p ps g in
      let not_done : o.request.status ≢ dma_success = λ e. bad (sym status ∙ e) in
      Traced-of cpu_copy kind call m t (cpu_copy kind call.size) op_copy_cpu o v part (omega arith)
        run (verdict-cpu cpu_copy true kind call.size o not_done)
        (verdict-cpu cpu_copy false kind call.size o not_done)

  -- On valid traces, for less than 2^31 bytes and a processor that leaves no more bytes than it was
  -- given, where the DMA copy is refused (no byte, no channel, or no pages), the processor copies:
  -- each function returns the bytes that the processor left, and records a copy by the processor.
  pub Traced-refused :
      (r : ℤ)
      → TracesValid t
      → Refusal (direction kind) m.channels m.env (request_of call) m.log r
      → cpu_copy kind call.size ≤ call.size
      → call.size < 2 ^ 31
      → Traced cpu_copy kind call m t (cpu_copy kind call.size) op_copy_cpu
  unfolding init_req_copy
  Traced-refused r v refusal part small =
      let (o, run, ret, same, status) =
        dma_copy_user-refused (direction kind) m.channels m.env (request_of call) m.engine m.log r
          refusal in
      let not_done : o.request.status ≢ dma_success = λ e. cc (sym status ∙ e) in
      Traced-of cpu_copy kind call m t (cpu_copy kind call.size) op_copy_cpu o v part (omega arith)
        run (verdict-cpu cpu_copy true kind call.size o not_done)
        (verdict-cpu cpu_copy false kind call.size o not_done)
