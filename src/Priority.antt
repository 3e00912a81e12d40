-- ===== src/Priority.antt =====
-- The dynamic priority policy, source/drivers/dma/dma_policy_prio.c: its list of channels, its timer,
-- and how it starts and stops. A set of suspended channels stands for the hardware's answer to the
-- commands that ioat_suspend_chan and ioat_resume_chan of source/drivers/dma/ioat/dma.c write.
pub mod Quanta
pub mod Start
pub mod Session
pub mod Lookup
mod Tests
use dmacftu.Prelude.{
  ℕ, zero, suc, ◌+◌, ◌%◌, ◌^◌, Bool, true, false, List, [], ◌∷◌, Option, none, some, ltb, ◌==◌,
  if◌then◌else◌, ℤ, pos, negsuc, replicate, set, take,
}
use dmacftu.Pool.{Pool, release_chan}
use dmacftu.Channels.{ListChanPrio, dma_high_prio, dma_low_prio, dma_max_chan_prio}

abbrev pub max_quantum : ℕ
max_quantum = 2

-- `struct priority_timer` with its hrtimer: whether that is armed, and the interval it was last given.
-- The list of channels is the one there is; the two functions are those of `prio_function`.
pub record PriorityTimer : Type 0 where
  pub is_armed : Bool
  pub interval : ℕ
  pub tick : ℕ
  pub overruns_2 : ℕ
  pub quantum : List ℕ

-- Which channels are suspended.
abbrev pub Suspended : Type 0
Suspended = ℕ → Bool

-- ioat_suspend_chan (true) and ioat_resume_chan (false); a NULL channel is never given.
abbrev pub mark : Bool → Option ℕ → Suspended → Suspended
mark b none f d = f d
mark b (some c) f d = if d == c then b else f d

-- The loop of supend_chan_prio (true) and resume_chan_prio (false), over the first entries.
unfoldable pub mark_loop : Bool → ℕ → List (Option ℕ) → List ℕ → ℕ → Suspended → Suspended
mark_loop b zero cs ps p f = f
mark_loop b (suc n) [] ps p f = f
mark_loop b (suc n) (c ∷ cs) [] p f = f
mark_loop b (suc n) (c ∷ cs) (q ∷ ps) p f =
    mark_loop b n cs ps p (if ltb p q then mark b c f else f)

unfoldable pub supend_chan_prio : ListChanPrio → ℕ → Suspended → Suspended
unfolding mark_loop
supend_chan_prio l p f = mark_loop true l.size l.chan_prio l.priority p f

unfoldable pub resume_chan_prio : ListChanPrio → ℕ → Suspended → Suspended
unfolding mark_loop
resume_chan_prio l p f = mark_loop false l.size l.chan_prio l.priority p f

-- `prio_func_array`, as start_policy_prio2 fills it.
unfoldable pub prio_function : ℕ → ListChanPrio → ℕ → Suspended → Suspended
unfolding supend_chan_prio resume_chan_prio
prio_function zero = supend_chan_prio
prio_function (suc i) = resume_chan_prio

abbrev pub quantum_at : List ℕ → ℕ → ℕ
quantum_at [] i = 0
quantum_at (q ∷ qs) zero = q
quantum_at (q ∷ qs) (suc i) = quantum_at qs i

-- prio_hrtimer_callback; `ret` is what hrtimer_forward_now returns.
unfoldable pub prio_hrtimer_callback :
    ListChanPrio → ℕ → PriorityTimer × Suspended → PriorityTimer × Suspended
unfolding prio_function
prio_hrtimer_callback l ret (t, f) =
    let tick = t.tick % max_quantum in
    (
      record t {
        interval = quantum_at t.quantum tick;
        tick = (tick + 1) % 2 ^ 16;
        overruns_2 = if ltb 1 ret then (t.overruns_2 + 1) % 2 ^ 64 else t.overruns_2;
      },
      prio_function tick l dma_high_prio f,
    )

-- init_dma_chan_prio.
unfoldable pub init_dma_chan_prio : ListChanPrio
init_dma_chan_prio = record {
  chan_prio = replicate dma_max_chan_prio none;
  priority = replicate dma_max_chan_prio dma_low_prio;
  size = 0;
}

-- The loop of start_policy_prio2 that gives the channels their priorities: `n` entries are left, and
-- the next is number `i`, with this priority.
unfoldable pub priority_loop : ℕ → ℕ → ℕ → List ℕ → List ℕ
priority_loop zero i p ps = ps
priority_loop (suc n) i p ps = priority_loop n (suc i) ((p + 1) % 2 ^ 16) (set ps i p)

unfoldable pub start_timer : ℕ → ℕ → PriorityTimer
start_timer high low = record {
  is_armed = true;
  interval = high;
  tick = max_quantum;
  overruns_2 = 0;
  quantum = high ∷ low ∷ [];
}

module _ (pool : Pool) where
  -- The loop of release_dma_chan_prio, over the first entries.
  unfoldable pub release_loop : ℕ → List (Option ℕ) → pool.State → List (Option ℕ) × pool.State
  release_loop zero cs s = (cs, s)
  release_loop (suc n) [] s = ([], s)
  release_loop (suc n) (c ∷ cs) s =
      let (rest, s') = release_loop n cs (release_chan pool c s) in (none ∷ rest, s')

  unfoldable pub release_dma_chan_prio : ListChanPrio → pool.State → ListChanPrio × pool.State
  unfolding release_loop
  release_dma_chan_prio l s =
      let (cs, s') = release_loop l.size l.chan_prio s in
      (record l { chan_prio = cs; size = 0 }, s')

  -- The loop of complete_dma_chan_prio: `n` entries are left, and the next is number `i`.
  unfoldable pub prio_complete_loop :
      ℕ → ℕ → ListChanPrio → pool.State → ℤ × ListChanPrio × pool.State
  unfolding release_dma_chan_prio
  prio_complete_loop zero i l s = (pos 0, l, s)
  prio_complete_loop (suc n) i l s =
      let (o, s') = pool.request s in
      let l' = record l { chan_prio = set l.chan_prio i o } in
      let failed = release_dma_chan_prio l' s' in
      elim o [
        | none ↦ (negsuc 0, failed.0, failed.1)
        | some c ↦ prio_complete_loop n (suc i) (record l' { size = suc l.size }) s'
      ]

  -- What start_policy_prio2 does once its channels are there, or are not.
  unfoldable pub after_complete :
      ℕ
      → ℕ
      → PriorityTimer
      → ℤ × ListChanPrio × pool.State
      → ℤ × ListChanPrio × PriorityTimer × pool.State
  unfolding priority_loop start_timer
  after_complete high low t (negsuc e, l, s) = (negsuc 0, l, t, s)
  after_complete high low t (pos r, l, s) = (
    pos l.size,
    record l { priority = priority_loop l.size 0 dma_high_prio l.priority },
    start_timer high low,
    s,
  )

  unfoldable pub start_policy_prio2 :
      ℕ → ℕ → PriorityTimer → pool.State → ℤ × ListChanPrio × PriorityTimer × pool.State
  unfolding init_dma_chan_prio prio_complete_loop after_complete
  start_policy_prio2 high low t s =
      after_complete high low t (prio_complete_loop dma_max_chan_prio 0 init_dma_chan_prio s)

  unfoldable pub stop_policy_prio :
      ListChanPrio
      → PriorityTimer × Suspended
      → pool.State
      → ListChanPrio × PriorityTimer × Suspended × pool.State
  unfolding release_dma_chan_prio resume_chan_prio
  stop_policy_prio l (t, f) s =
      let (l', s') = release_dma_chan_prio l s in
      (l', record t { is_armed = false; tick = 0 }, resume_chan_prio l dma_high_prio f, s')
