-- ===== src/Priority/Session.antt =====
-- Stopping the priority policy after a start and the callbacks of its timer
-- (source/drivers/dma/dma_policy_prio.c, stop_policy_prio).
use dmacftu.Prelude.{
  IsDistinct, ℕ, ◌+◌, ◌≡◌, refl, sym, ◌∙◌, ap, Bool, true, false, List, [], ◌∷◌, ◌++◌, pos, length,
  arith, ◌&&◌, if◌then◌else◌,
}
use dmacftu.Pool.{Pool}
use dmacftu.Channels.{ListChanPrio}
use dmacftu.Priority.{PriorityTimer, Suspended, start_policy_prio2, stop_policy_prio, start_timer}
use dmacftu.Priority.Quanta.{
  is_lowered, is_odd, run_callbacks, run_callbacks-alternate, resume_chan_prio_lem,
}
use dmacftu.Priority.Start.{
  prio_list, release-prio_list, running, not_running, start_policy_prio2-PrioStarted,
}

clear_low : (low b : Bool) (x : Bool) → x ≡ (b && low) → (if low then false else x) ≡ false
clear_low false false x e = e
clear_low false true x e = e
clear_low true b x e = refl

stop-running :
    (pool : Pool) (hs cs ps rets : List ℕ) (high low d : ℕ) (f : Suspended) (s : pool.State)
    → length cs ≡ 4
    → pool.Held s (hs ++ cs)
    → f d ≡ false
    → ((stop_policy_prio pool
          (prio_list cs 0 ps)
          (run_callbacks (prio_list cs 0 ps) rets (start_timer high low, f))
          s).0
        ≡ prio_list [] 4 ps)
      × ((stop_policy_prio pool
              (prio_list cs 0 ps)
              (run_callbacks (prio_list cs 0 ps) rets (start_timer high low, f))
              s).2
            d
          ≡ false)
      × pool.Held
          (stop_policy_prio pool
            (prio_list cs 0 ps)
            (run_callbacks (prio_list cs 0 ps) rets (start_timer high low, f))
            s).3
          hs
unfolding stop_policy_prio
stop-running pool hs cs ps rets high low d f s len h e =
    let l : ListChanPrio = prio_list cs 0 ps in
    let (slots, back) = release-prio_list pool hs cs 0 ps s h in
    let n : length cs + 0 ≡ 4 = omega arith in
    let t = run_callbacks l rets (start_timer high low, f) in
    (
      slots ∙ ap (λ m. prio_list [] m ps) n,
      resume_chan_prio_lem l t.1 d
          ∙ clear_low (is_lowered l d) (is_odd (length rets)) (t.1 d)
              (run_callbacks-alternate l high low rets f d e),
      back,
    )

-- The state after a start, the callbacks of the timer, and a stop.
abbrev pub session :
    (pool : Pool)
    → ℕ
    → ℕ
    → List ℕ
    → PriorityTimer
    → Suspended
    → pool.State
    → ListChanPrio × PriorityTimer × Suspended × pool.State
session pool high low rets t f s =
    let started = start_policy_prio2 pool high low t s in
    stop_policy_prio pool started.1 (run_callbacks started.1 rets (started.2, f)) started.3

-- A session of the priority policy on an allocator where the distinct channels hs are held, whose start
-- returned 4, with any number of callbacks, leaves exactly hs held, the list empty, and suspended no
-- channel that was not suspended before it.
pub session-restores :
    (pool : Pool) (hs rets : List ℕ) (t : PriorityTimer) (high low d : ℕ) (f : Suspended)
    (s : pool.State)
    → pool.Held s hs
    → IsDistinct hs
    → (start_policy_prio2 pool high low t s).0 ≡ pos 4
    → f d ≡ false
    → ((session pool high low rets t f s).0 ≡ prio_list [] 4 (0 ∷ 1 ∷ 2 ∷ 3 ∷ []))
      × ((session pool high low rets t f s).2 d ≡ false)
      × pool.Held (session pool high low rets t f s).3 hs
session-restores pool hs rets t high low d f s h dis r e =
    elim (start_policy_prio2-PrioStarted pool hs t high low s h dis) [
      | running cs l dc r' slots timer held ↦
          rw (slots, timer)
            (stop-running pool hs cs (0 ∷ 1 ∷ 2 ∷ 3 ∷ []) rets high low d f
              (start_policy_prio2 pool high low t s).3 l held e)
      | not_running r' slots timer held ↦ ground (arith, sym r ∙ r')
    ]
