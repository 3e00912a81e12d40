-- ===== src/Trace/Tests.antt =====
-- The trace driver of trace/driver on two CPUs.
use dmacftu.Prelude.{
  ℕ, ◌≡◌, refl, true, [], ◌∷◌, ℤ, pos, negsuc, arith, ◌==◌, if◌then◌else◌, none, some,
}
use dmacftu.CircularBuffer.{UnitBuff, CircularBuffer, zero_unit}
use dmacftu.CircularBuffer.Contents.{IsValid}
use dmacftu.Trace.{TraceData, eio, read_cpus, trace_driver_read, trace_driver_lseek}
use dmacftu.Trace.Drained.{Drained, trace_driver_read-Drained}
use dmacftu.Trace.Module.{Answers, mem_trace_init, mem_trace_exit}
use dmacftu.Trace.Loading.{Loaded, nothing_held, mem_trace_init-Loaded, mem_trace_exit-after_init}

abbrev measure : ℕ → UnitBuff
measure n = record zero_unit { count_event = n }

abbrev buffer : CircularBuffer
buffer = record {
  count_event = 2;
  start = 0;
  end = 2;
  size = 3;
  array_element = measure 1 ∷ measure 2 ∷ measure 0 ∷ [];
}

buffer-IsValid : IsValid buffer
buffer-IsValid = record {
  small = omega arith;
  storage = refl;
  start_in = omega arith;
  end_in = omega arith;
}

abbrev data_of : TraceData
data_of = record {
  count_region = 2;
  ptr_region = λ j. record { count = 0; buffer = [] };
  ptr_cb = λ j. buffer;
}

trace_driver_read-Drained_example :
    (t' : TraceData) × (trace_driver_read true 1 (0 ∷ 1 ∷ []) 4096 0 data_of
      ≡ some (if 0 == 0 then pos 4096 else eio, t'))
    × Drained 1 buffer (t'.ptr_cb 1) (t'.ptr_region 1)
    × ((i : ℕ) → IsValid (t'.ptr_cb i))
trace_driver_read-Drained_example =
    trace_driver_read-Drained 1 4096 0 1 (0 ∷ 1 ∷ []) data_of
      (((λ e. absurd (omega (arith, e))), tt), (tt, tt)) (λ i. buffer-IsValid)
      (omega arith, (omega arith, tt)) refl

-- The present CPUs are 0 and 2: the second region that is read does not exist.
past_the_end : trace_driver_read true 1 (0 ∷ 2 ∷ []) 4096 0 data_of ≡ none
unfolding trace_driver_read read_cpus
past_the_end = refl

-- The third character device cannot be added.
abbrev answers : ℤ → Answers
answers third = record {
  kzalloc = λ i. true;
  alloc_chrdev_region = pos 0;
  class_create = pos 0;
  cdev_add = λ i. if i == 2 then third else pos 0;
  device_create = λ i. pos 0;
}

third-fails : mem_trace_init (answers (negsuc 15)) nothing_held ≡ (negsuc 15, nothing_held)
unfolding mem_trace_init
third-fails = refl

mem_trace_init-Loaded_example : Loaded (mem_trace_init (answers (negsuc 15)) nothing_held)
mem_trace_init-Loaded_example = mem_trace_init-Loaded (answers (negsuc 15))

all-load : (mem_trace_init (answers (pos 0)) nothing_held).0 ≡ pos 0
unfolding mem_trace_init
all-load = refl

mem_trace_exit-after_init_example :
    mem_trace_exit (mem_trace_init (answers (pos 0)) nothing_held).1 ≡ nothing_held
mem_trace_exit-after_init_example = mem_trace_exit-after_init (answers (pos 0)) all-load

seek-back : trace_driver_lseek 10 (negsuc 2) 1 ≡ (pos 7, 7)
unfolding trace_driver_lseek
seek-back = refl
