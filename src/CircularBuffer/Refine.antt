-- ===== src/CircularBuffer/Refine.antt =====
-- The circular buffer of source/kernel/circular_buffer.c beside the bounded queue of its measures.
use dmacftu.Prelude.{
  ℕ, ◌-◌, ◌<◌, ◌≡◌, refl, true, List, [], ◌∷◌, none, some, if◌then◌else◌, arith, Bool-cases, inl,
  inr, length-replicate,
}
use dmacftu.CircularBuffer.{
  UnitBuff, CircularBuffer, circ_buff_size, zero_unit, cb_init, cb_is_empty, cb_write, cb_read,
  cb_read_list,
}
use dmacftu.CircularBuffer.Queue
use dmacftu.CircularBuffer.Queue.{Op, write, read, read_list}
use dmacftu.CircularBuffer.Contents.{
  IsValid, contents, full_empty_lem, contents-cb_write, cb_write-IsValid,
}
use dmacftu.CircularBuffer.Read.{cb_read_lem, cb_read_list_lem}

-- With the memory allocated, cbInit gives a valid buffer that holds nothing.
pub cb_init-IsValid : IsValid (cb_init true) × (contents (cb_init true) ≡ [])
unfolding cb_init
cb_init-IsValid = (
  record {
    small = omega arith;
    storage = length-replicate circ_buff_size zero_unit;
    start_in = omega arith;
    end_in = omega arith;
  },
  refl,
)

size-cb_write : (cb : CircularBuffer) (v : UnitBuff) → (cb_write cb v).size ≡ cb.size
unfolding cb_write
size-cb_write cb v = ground arith

size-cb_read : (cb : CircularBuffer) → (cb_read cb).1.size ≡ cb.size
unfolding cb_read
size-cb_read cb = refl

size-cb_read_list : (cb : CircularBuffer) (n : ℕ) → (cb_read_list cb n).1.size ≡ cb.size
unfolding cb_read_list
size-cb_read_list cb n = ground arith

-- On a valid buffer, cbWrite is `push` on the measures held, of capacity size - 1, and keeps the
-- invariant and the size.
pub cb_write_refines :
    {cb : CircularBuffer} (v : UnitBuff)
    → IsValid cb
    → (contents (cb_write cb v) ≡ Queue.push (cb.size - 1) (contents cb) v)
      × IsValid (cb_write cb v)
      × ((cb_write cb v).size ≡ cb.size)
unfolding Queue.push
cb_write_refines {cb} v h = (
  ground (arith, contents-cb_write v h, full_empty_lem h, room),
  cb_write-IsValid v h,
  size-cb_write cb v,
)
  where
    room : 0 < cb.size
    room = omega arith

-- A call on the buffer: the measures copied out, and the buffer after it. A reader of one measure
-- tests cbIsEmpty first, as the comment on cbRead asks.
unfoldable pub call : CircularBuffer → Op → List UnitBuff × CircularBuffer
call cb (write v) = ([], cb_write cb v)
call cb read =
    if cb_is_empty cb
    then ([], cb)
    else (elim (cb_read cb).0 [ none ↦ [] | some v ↦ v ∷ [] ], (cb_read cb).1)
call cb (read_list n) = let (out, cb', _) = cb_read_list cb n in (out, cb')

unfoldable pub run : CircularBuffer → List Op → List (List UnitBuff)
unfolding call
run cb [] = []
run cb (op ∷ ops) = let (out, cb') = call cb op in out ∷ run cb' ops

-- One call does to the measures held what the queue's step does, and copies out the same measures.
pub call_refines :
    {cb : CircularBuffer} (op : Op)
    → IsValid cb
    → ((call cb op).0 ≡ (Queue.step (cb.size - 1) (contents cb) op).0)
      × (contents (call cb op).1 ≡ (Queue.step (cb.size - 1) (contents cb) op).1)
      × IsValid (call cb op).1
      × ((call cb op).1.size ≡ cb.size)
unfolding call Queue.step
call_refines {cb} (write v) h =
    let (e, valid, same) = cb_write_refines v h in (refl, e, valid, same)
call_refines {cb} read h = elim (Bool-cases (cb_is_empty cb)) [
  | inl yes_empty ↦ rw yes_empty (ground (arith, full_empty_lem h))
  | inr more ↦
      let (v, at, e, valid) = cb_read_lem h more in ground (arith, at, e, valid, size-cb_read cb)
]
call_refines {cb} (read_list n) h = ground (arith, cb_read_list_lem n h, size-cb_read_list cb n)

-- Any sequence of calls on a valid buffer copies out what the bounded queue copies out.
pub run_refines :
    {cb : CircularBuffer} (ops : List Op)
    → IsValid cb
    → run cb ops ≡ Queue.run (cb.size - 1) (contents cb) ops
unfolding run Queue.run
run_refines [] h = refl
run_refines {cb} (op ∷ ops) h =
    let (out, rest, valid, same) = call_refines op h in
    ground (arith, out, rest, same, run_refines {cb = (call cb op).1} ops valid)
