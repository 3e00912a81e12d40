-- ===== src/Priority/Quanta.antt =====
-- The quanta of the priority policy (source/drivers/dma/dma_policy_prio.c, prio_hrtimer_callback)
-- and the channels that are suspended after its calls.
use dmacftu.Prelude.{
  ℕ, zero, suc, ◌%◌, ◌≡◌, refl, Bool, true, false, not, ◌&&◌, ◌||◌, List, [], ◌∷◌, Option, none,
  some, ltb, ◌==◌, if◌then◌else◌, arith, length, ◌∙◌, ap,
}
use dmacftu.Channels.{ListChanPrio, dma_high_prio}
use dmacftu.Priority.{
  PriorityTimer, Suspended, mark, mark_loop, supend_chan_prio, resume_chan_prio, prio_function,
  prio_hrtimer_callback, start_timer,
}

-- Whether channel d is among the first n entries with a priority number above p.
abbrev pub is_below : ℕ → List (Option ℕ) → List ℕ → ℕ → ℕ → Bool
is_below zero cs ps p d = false
is_below (suc n) [] ps p d = false
is_below (suc n) (c ∷ cs) [] p d = false
is_below (suc n) (none ∷ cs) (q ∷ ps) p d = is_below n cs ps p d
is_below (suc n) (some c ∷ cs) (q ∷ ps) p d = (ltb p q && (d == c)) || is_below n cs ps p d

abbrev pub is_lowered : ListChanPrio → ℕ → Bool
is_lowered l d = is_below l.size l.chan_prio l.priority dma_high_prio d

mark_loop_lem :
    (b : Bool) (n : ℕ) (cs : List (Option ℕ)) (ps : List ℕ) (p : ℕ) (f : Suspended) (d : ℕ)
    → mark_loop b n cs ps p f d ≡ (if is_below n cs ps p d then b else f d)
unfolding mark_loop
mark_loop_lem b zero cs ps p f d = refl
mark_loop_lem b (suc n) [] ps p f d = refl
mark_loop_lem b (suc n) (c ∷ cs) [] p f d = refl
mark_loop_lem b (suc n) (none ∷ cs) (q ∷ ps) p f d =
    ground (arith, mark_loop_lem b n cs ps p (if ltb p q then mark b none f else f) d)
mark_loop_lem b (suc n) (some c ∷ cs) (q ∷ ps) p f d =
    ground (arith, mark_loop_lem b n cs ps p (if ltb p q then mark b (some c) f else f) d)

-- The callbacks of one run of the timer, with what hrtimer_forward_now returned in each.
abbrev pub run_callbacks :
    ListChanPrio → List ℕ → PriorityTimer × Suspended → PriorityTimer × Suspended
run_callbacks l [] t = t
run_callbacks l (ret ∷ rets) t = run_callbacks l rets (prio_hrtimer_callback l ret t)

-- Whether the low channels are suspended after this many callbacks.
abbrev pub is_odd : ℕ → Bool
is_odd zero = false
is_odd (suc n) = not (is_odd n)

bit : Bool → ℕ
bit false = 0
bit true = 1

callback-tick :
    (l : ListChanPrio) (ret : ℕ) (t : PriorityTimer) (f : Suspended) (b : Bool)
    → t.tick % 2 ≡ bit b
    → (prio_hrtimer_callback l ret (t, f)).0.tick % 2 ≡ bit (not b)
unfolding prio_hrtimer_callback bit
callback-tick l ret t f false e = ground (arith, e)
callback-tick l ret t f true e = ground (arith, e)

callback-interval :
    (l : ListChanPrio) (ret : ℕ) (t : PriorityTimer) (f : Suspended) (b : Bool) (high low : ℕ)
    → t.tick % 2 ≡ bit b
    → t.quantum ≡ high ∷ low ∷ []
    → (prio_hrtimer_callback l ret (t, f)).0.interval ≡ (if b then low else high)
unfolding prio_hrtimer_callback bit
callback-interval l ret t f false high low e q = rw (e, q) refl
callback-interval l ret t f true high low e q = rw (e, q) refl

callback-suspended :
    (l : ListChanPrio) (ret : ℕ) (t : PriorityTimer) (f : Suspended) (b : Bool) (d : ℕ)
    → t.tick % 2 ≡ bit b
    → (prio_hrtimer_callback l ret (t, f)).1 d ≡ (if is_lowered l d then not b else f d)
unfolding prio_hrtimer_callback prio_function supend_chan_prio resume_chan_prio bit
callback-suspended l ret t f false d e =
    rw e (mark_loop_lem true l.size l.chan_prio l.priority dma_high_prio f d)
callback-suspended l ret t f true d e =
    rw e (mark_loop_lem false l.size l.chan_prio l.priority dma_high_prio f d)

flip_low : (b low x : Bool) → x ≡ (b && low) → (if low then not b else x) ≡ (not b && low)
flip_low false false x e = e
flip_low true false x e = e
flip_low false true x e = refl
flip_low true true x e = refl

if_self : (b : Bool) → (if b then true else false) ≡ b
if_self false = refl
if_self true = refl

flip_odd : (odd b : Bool) → (if odd then not (not b) else not b) ≡ (if not odd then not b else b)
flip_odd false b = refl
flip_odd true false = refl
flip_odd true true = refl

run-suspended :
    (l : ListChanPrio) (rets : List ℕ) (t : PriorityTimer) (f : Suspended) (b : Bool) (d : ℕ)
    → t.tick % 2 ≡ bit b
    → f d ≡ (b && is_lowered l d)
    → (run_callbacks l rets (t, f)).1 d
      ≡ ((if is_odd (length rets) then not b else b) && is_lowered l d)
run-suspended l [] t f b d e g = g
run-suspended l (ret ∷ rets) t f b d e g =
    let c = callback-suspended l ret t f b d e in
    let r =
      run-suspended l rets (prio_hrtimer_callback l ret (t, f)).0
        (prio_hrtimer_callback l ret (t, f)).1 (not b) d (callback-tick l ret t f b e)
        (c ∙ flip_low b (is_lowered l d) (f d) g) in
    r ∙ ap (λ c. c && is_lowered l d) (flip_odd (is_odd (length rets)) b)

callback-quantum :
    (l : ListChanPrio) (ret : ℕ) (t : PriorityTimer) (f : Suspended)
    → (prio_hrtimer_callback l ret (t, f)).0.quantum ≡ t.quantum
unfolding prio_hrtimer_callback
callback-quantum l ret t f = refl

run-interval :
    (l : ListChanPrio) (ret : ℕ) (rets : List ℕ) (t : PriorityTimer) (f : Suspended) (b : Bool)
    (high low : ℕ)
    → t.tick % 2 ≡ bit b
    → t.quantum ≡ high ∷ low ∷ []
    → (run_callbacks l (ret ∷ rets) (t, f)).0.interval
      ≡ (if (if is_odd (length rets) then not b else b) then low else high)
run-interval l ret [] t f b high low e q = callback-interval l ret t f b high low e q
run-interval l ret (ret' ∷ rets) t f b high low e q =
    let t' = prio_hrtimer_callback l ret (t, f) in
    let r =
      run-interval l ret' rets t'.0 t'.1 (not b) high low (callback-tick l ret t f b e)
        (callback-quantum l ret t f ∙ q) in
    r ∙ ap (λ c. if c then low else high) (flip_odd (is_odd (length rets)) b)

-- After any number of callbacks of a timer that was just started, a channel that was not suspended
-- before is suspended if that number is odd and the channel is in the list with a priority below the
-- highest, and else it is not.
pub run_callbacks-alternate :
    (l : ListChanPrio) (high low : ℕ) (rets : List ℕ) (f : Suspended) (d : ℕ)
    → f d ≡ false
    → (run_callbacks l rets (start_timer high low, f)).1 d
      ≡ (is_odd (length rets) && is_lowered l d)
unfolding start_timer bit
run_callbacks-alternate l high low rets f d e =
    run-suspended l rets (start_timer high low) f false d refl e
    ∙ ap (λ b. b && is_lowered l d) (if_self (is_odd (length rets)))

-- The callback that suspends them gives the timer the high quantum and the one that resumes them the
-- low one: after one callback more than some number, the interval is the low quantum if that number is
-- odd and the high one if it is even.
pub run_callbacks-interval :
    (l : ListChanPrio) (high low ret : ℕ) (rets : List ℕ) (f : Suspended)
    → (run_callbacks l (ret ∷ rets) (start_timer high low, f)).0.interval
      ≡ (if is_odd (length rets) then low else high)
unfolding start_timer bit
run_callbacks-interval l high low ret rets f =
    run-interval l ret rets (start_timer high low) f false high low refl refl
    ∙ ap (λ b. if b then low else high) (if_self (is_odd (length rets)))

pub resume_chan_prio_lem :
    (l : ListChanPrio) (f : Suspended) (d : ℕ)
    → resume_chan_prio l dma_high_prio f d ≡ (if is_lowered l d then false else f d)
unfolding resume_chan_prio
resume_chan_prio_lem l f d = mark_loop_lem false l.size l.chan_prio l.priority dma_high_prio f d
