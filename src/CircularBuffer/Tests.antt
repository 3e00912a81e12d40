-- ===== src/CircularBuffer/Tests.antt =====
-- Runs of the circular buffer of source/kernel/circular_buffer.c, and its theorems at concrete buffers.
use dmacftu.Prelude.{ℕ, ◌≡◌, refl, true, false, List, [], ◌∷◌, some, take, drop, arith}
use dmacftu.CircularBuffer.{
  UnitBuff, CircularBuffer, zero_unit, op_copy_cpu, cb_init, cb_free, cb_is_full, cb_is_empty,
  get_counter, cb_write, cb_read, cb_read_list,
}
use dmacftu.CircularBuffer.Queue
use dmacftu.CircularBuffer.Queue.{Op, write, read, read_list}
use dmacftu.CircularBuffer.Contents.{IsValid, contents, full_empty_lem}
use dmacftu.CircularBuffer.Read.{cb_read_lem, cb_read_list_lem}
use dmacftu.CircularBuffer.Refine.{cb_write_refines, run, run_refines}

abbrev measure : ℕ → UnitBuff
measure n = record zero_unit { count_event = n; size = 64; type_op = op_copy_cpu }

-- Two measures, 8 and 9, round the end of a memory of three elements.
abbrev wrapped : CircularBuffer
wrapped = record {
  count_event = 9;
  start = 2;
  end = 1;
  size = 3;
  array_element = measure 9 ∷ measure 7 ∷ measure 8 ∷ [];
}

wrapped-IsValid : IsValid wrapped
wrapped-IsValid = record {
  small = omega arith;
  storage = refl;
  start_in = omega arith;
  end_in = omega arith;
}

abbrev script : List Op
script = write (measure 10) ∷ read ∷ write (measure 11) ∷ read_list 5 ∷ read ∷ []

-- The full buffer refuses measure 10, and takes 11 after a read.
run-wrapped :
    run wrapped script ≡ [] ∷ (measure 8 ∷ []) ∷ [] ∷ (measure 9 ∷ measure 11 ∷ []) ∷ [] ∷ []
unfolding run cb_write cb_read cb_read_list cb_is_empty
run-wrapped = refl

counter-twice : (get_counter (get_counter wrapped).1).0 ≡ 11
unfolding get_counter
counter-twice = refl

free-forgets : contents (cb_free wrapped) ≡ []
unfolding cb_free
free-forgets = refl

fresh-empty : (cb_is_empty (cb_init true) ≡ true) × (cb_is_full (cb_init true) ≡ false)
unfolding cb_init cb_is_empty cb_is_full
fresh-empty = (refl, refl)

two_of_three : (cb_is_full wrapped ≡ true) × (cb_is_empty wrapped ≡ false)
two_of_three = full_empty_lem wrapped-IsValid

write_third :
    (contents (cb_write wrapped (measure 10))
      ≡ Queue.push 2 (measure 8 ∷ measure 9 ∷ []) (measure 10))
    × IsValid (cb_write wrapped (measure 10))
    × ((cb_write wrapped (measure 10)).size ≡ 3)
write_third = cb_write_refines (measure 10) wrapped-IsValid

wrapped-not_empty : cb_is_empty wrapped ≡ false
unfolding cb_is_empty
wrapped-not_empty = refl

read_oldest :
    (v : UnitBuff) × ((cb_read wrapped).0 ≡ some v)
    × (measure 8 ∷ measure 9 ∷ [] ≡ v ∷ contents (cb_read wrapped).1)
    × IsValid (cb_read wrapped).1
read_oldest = cb_read_lem wrapped-IsValid wrapped-not_empty

cb_read_list_lem_example :
    let (out, cb', n) = cb_read_list wrapped 5 in
    (n ≡ 2)
    × (out ≡ take n (measure 8 ∷ measure 9 ∷ []))
    × (contents cb' ≡ drop n (measure 8 ∷ measure 9 ∷ []))
    × IsValid cb'
cb_read_list_lem_example = cb_read_list_lem 5 wrapped-IsValid

run_refines_example : run wrapped script ≡ Queue.run 2 (measure 8 ∷ measure 9 ∷ []) script
run_refines_example = run_refines script wrapped-IsValid
