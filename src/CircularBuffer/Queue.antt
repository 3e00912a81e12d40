-- ===== src/CircularBuffer/Queue.antt =====
-- What the circular buffer of source/kernel/circular_buffer.c promises: a first-in first-out queue
-- that holds at most `cap` measures and refuses the newest when it is full.
use dmacftu.Prelude.{ℕ, List, [], ◌∷◌, ◌++◌, length, take, drop, min, ◌==◌, if◌then◌else◌}
use dmacftu.CircularBuffer.{UnitBuff}

unfoldable pub push : ℕ → List UnitBuff → UnitBuff → List UnitBuff
push cap q v = if length q == cap then q else q ++ v ∷ []

-- The calls that the kernel makes: the writer's cbWrite, the reader's cbRead behind its test
-- cbIsEmpty, and cbRead_list.
pub data Op : Type 0 where
  write : UnitBuff → Op
  read : Op
  read_list : ℕ → Op

-- A call on the queue: the measures copied out, and the queue after it.
unfoldable pub step : ℕ → List UnitBuff → Op → List UnitBuff × List UnitBuff
unfolding push
step cap q (write v) = ([], push cap q v)
step cap [] read = ([], [])
step cap (v ∷ q) read = (v ∷ [], q)
step cap q (read_list n) = let k = min n (length q) in (take k q, drop k q)

unfoldable pub run : ℕ → List UnitBuff → List Op → List (List UnitBuff)
run cap q [] = []
run cap q (op ∷ ops) = let (out, q') = step cap q op in out ∷ run cap q' ops
