-- ===== src/Priority/Start.antt =====
-- Starting the priority policy (source/drivers/dma/dma_policy_prio.c, start_policy_prio2) on any channel
-- allocator.
use dmacftu.Prelude.{
  IsDistinct, ℕ, zero, suc, ◌+◌, ◌≡◌, refl, sym, ◌∙◌, ap, subst, List, [], ◌∷◌, ◌++◌, map, Option,
  none, some, ℤ, pos, negsuc, length, arith, inl, inr, Option-cases, replicate, length-append, set,
}
use mathlib.Core.List.{append_assoc, append-nil, map-append}
use dmacftu.Pool.{Pool}
use dmacftu.Channels.{ListChanPrio}
use dmacftu.Exclusive.Atomic.{IsDistinct-snoc}
use dmacftu.Priority.{
  PriorityTimer, init_dma_chan_prio, release_loop, release_dma_chan_prio, prio_complete_loop,
  after_complete, start_policy_prio2, start_timer, priority_loop,
}

set-append :
    (cs : List ℕ) (o x : Option ℕ) (rest : List (Option ℕ))
    → set (map some cs ++ x ∷ rest) (length cs) o ≡ map some cs ++ o ∷ rest
set-append [] o x rest = refl
set-append (c ∷ cs) o x rest = ap (λ ys. some c ∷ ys) (set-append cs o x rest)

release_loop-held :
    (pool : Pool) (hs cs : List ℕ) (rest : List (Option ℕ)) (s : pool.State)
    → pool.Held s (hs ++ cs)
    → ((release_loop pool (length cs) (map some cs ++ rest) s).0
        ≡ replicate (length cs) none ++ rest)
      × pool.Held (release_loop pool (length cs) (map some cs ++ rest) s).1 hs
unfolding release_loop
release_loop-held pool hs [] rest s h = (refl, subst (pool.Held s) (append-nil hs) h)
release_loop-held pool hs (c ∷ cs) rest s h =
    let (slots, held) =
      release_loop-held pool hs cs rest (pool.release c s) (pool.release_held s hs cs c h) in
    (ap (λ ys. none ∷ ys) slots, held)

abbrev no_channel : Option ℕ
no_channel = none

abbrev some_channel : ℕ → Option ℕ
some_channel c = some c

replicate-append :
    (m n : ℕ) → replicate m no_channel ++ replicate n no_channel ≡ replicate (m + n) no_channel
replicate-append zero n = let e : n ≡ 0 + n = omega arith in ap (λ k. replicate k no_channel) e
replicate-append (suc m) n =
    let e : suc (m + n) ≡ suc m + n = omega arith in
    ap (λ ys. none ∷ ys) (replicate-append m n) ∙ ap (λ k. replicate k no_channel) e

abbrev list_of : List (Option ℕ) → ℕ → List ℕ → ListChanPrio
list_of os n ps = record { chan_prio = os; priority = ps; size = n }

-- A list in which the channels cs are in use, and n entries are free.
abbrev pub prio_list : List ℕ → ℕ → List ℕ → ListChanPrio
prio_list cs n ps = list_of (map some cs ++ replicate n none) (length cs) ps

pub release-prio_list :
    (pool : Pool) (hs cs : List ℕ) (n : ℕ) (ps : List ℕ) (s : pool.State)
    → pool.Held s (hs ++ cs)
    → ((release_dma_chan_prio pool (prio_list cs n ps) s).0 ≡ prio_list [] (length cs + n) ps)
      × pool.Held (release_dma_chan_prio pool (prio_list cs n ps) s).1 hs
unfolding release_dma_chan_prio
release-prio_list pool hs cs n ps s h =
    let (slots, held) = release_loop-held pool hs cs (replicate n none) s h in
    (ap (λ ys. list_of ys 0 ps) (slots ∙ replicate-append (length cs) n), held)

-- How the requests end: every entry has a channel of its own, or none has one.
data Completed (pool : Pool) (hs ps : List ℕ) (k : ℕ) (out : ℤ × ListChanPrio × pool.State)
    : Type 0 where
  complete :
      (cs : List ℕ)
      → length cs ≡ k
      → IsDistinct (hs ++ cs)
      → out.0 ≡ pos 0
      → out.1 ≡ prio_list cs 0 ps
      → pool.Held out.2 (hs ++ cs)
      → Completed pool hs ps k out
  refused :
      out.0 ≡ negsuc 0 → out.1 ≡ prio_list [] k ps → pool.Held out.2 hs → Completed pool hs ps k out

complete-none :
    (pool : Pool) (n : ℕ) (cs ps : List ℕ) (s : pool.State)
    → (pool.request s).0 ≡ none
    → prio_complete_loop pool (suc n) (length cs) (prio_list cs (suc n) ps) s ≡ (
      negsuc 0,
      (release_dma_chan_prio pool (prio_list cs (suc n) ps) (pool.request s).1).0,
      (release_dma_chan_prio pool (prio_list cs (suc n) ps) (pool.request s).1).1,
    )
unfolding prio_complete_loop
complete-none pool n cs ps s e = ground (arith, e, set-append cs none none (replicate n none))

request_step :
    (pool : Pool) (n i c : ℕ) (l : ListChanPrio) (s : pool.State)
    → (pool.request s).0 ≡ some c
    → prio_complete_loop pool (suc n) i l s
      ≡ prio_complete_loop pool n
          (suc i)
          (list_of (set l.chan_prio i (some c)) (suc l.size) l.priority)
          (pool.request s).1
unfolding prio_complete_loop
request_step pool n i c l s e = ground (arith, e)

complete-some :
    (pool : Pool) (n c : ℕ) (cs ps : List ℕ) (s : pool.State)
    → (pool.request s).0 ≡ some c
    → prio_complete_loop pool (suc n) (length cs) (prio_list cs (suc n) ps) s
      ≡ prio_complete_loop pool n
          (length (cs ++ c ∷ []))
          (prio_list (cs ++ c ∷ []) n ps)
          (pool.request s).1
complete-some pool n c cs ps s e =
    let m : map some_channel (cs ++ c ∷ []) ≡ map some cs ++ some c ∷ [] =
      map-append some_channel cs (c ∷ []) in
    let filled : set (map some cs ++ none ∷ replicate n none) (length cs) (some c)
        ≡ map some (cs ++ c ∷ []) ++ replicate n none =
      set-append cs (some c) none (replicate n none)
      ∙ sym (append_assoc (map some cs) (some c ∷ []) (replicate n none))
      ∙ ap (λ ys. ys ++ replicate n none) (sym m) in
    let size : suc (length cs) ≡ length (cs ++ c ∷ []) = omega (arith, length-append cs (c ∷ [])) in
    request_step pool n (length cs) c (prio_list cs (suc n) ps) s e
    ∙ ap
        (λ k.
          prio_complete_loop pool n k
            (list_of (set (map some cs ++ none ∷ replicate n none) (length cs) (some c)) k ps)
            (pool.request s).1)
        size
    ∙ ap
        (λ ys.
          prio_complete_loop pool n (length (cs ++ c ∷ [])) (list_of ys (length (cs ++ c ∷ [])) ps)
            (pool.request s).1)
        filled

prio_complete_loop-Completed :
    (pool : Pool) (hs cs ps : List ℕ) (n k : ℕ) (s : pool.State)
    → pool.Held s (hs ++ cs)
    → IsDistinct (hs ++ cs)
    → length cs + n ≡ k
    → Completed pool hs ps k (prio_complete_loop pool n (length cs) (prio_list cs n ps) s)
unfolding prio_complete_loop
prio_complete_loop-Completed pool hs cs ps zero k s h d e = complete cs (omega arith) d refl refl h
prio_complete_loop-Completed pool hs cs ps (suc n) k s h d e =
    elim (Option-cases (pool.request s).0) [
      | inl none_left ↦
          let held = pool.request_none s (hs ++ cs) h none_left in
          let (slots, back) = release-prio_list pool hs cs (suc n) ps (pool.request s).1 held in
          rw (complete-none pool n cs ps s none_left)
            (refused refl (slots ∙ ap (λ m. prio_list [] m ps) e) back)
      | inr (c, given) ↦
          let (held, fresh) = pool.request_some s (hs ++ cs) c h given in
          let q : (hs ++ cs) ++ c ∷ [] ≡ hs ++ (cs ++ c ∷ []) = append_assoc hs cs (c ∷ []) in
          rw (complete-some pool n c cs ps s given) (
            prio_complete_loop-Completed pool hs (cs ++ c ∷ []) ps n k (pool.request s).1
              (subst (pool.Held (pool.request s).1) q held)
              (subst IsDistinct q (IsDistinct-snoc (hs ++ cs) c d fresh))
              (omega (arith, length-append cs (c ∷ []))))
    ]

abbrev pub Outcome : Pool → Type 0
Outcome pool = ℤ × ListChanPrio × PriorityTimer × pool.State

-- How a start ends: with four distinct channels of priorities 0 to 3 and the timer armed for the high
-- quantum, or with no channel and the timer as it was.
pub data PrioStarted (pool : Pool) (hs : List ℕ) (t : PriorityTimer) (high low : ℕ)
    (out : Outcome pool) : Type 0 where
  running :
      (cs : List ℕ)
      → length cs ≡ 4
      → IsDistinct (hs ++ cs)
      → out.0 ≡ pos 4
      → out.1 ≡ prio_list cs 0 (0 ∷ 1 ∷ 2 ∷ 3 ∷ [])
      → out.2 ≡ start_timer high low
      → pool.Held out.3 (hs ++ cs)
      → PrioStarted pool hs t high low out
  not_running :
      out.0 ≡ negsuc 0
      → out.1 ≡ init_dma_chan_prio
      → out.2 ≡ t
      → pool.Held out.3 hs
      → PrioStarted pool hs t high low out

after_complete-PrioStarted :
    (pool : Pool) (hs : List ℕ) (t : PriorityTimer) (high low : ℕ)
    (out : ℤ × ListChanPrio × pool.State)
    → Completed pool hs (128 ∷ 128 ∷ 128 ∷ 128 ∷ []) 4 out
    → PrioStarted pool hs t high low (after_complete pool high low t out)
unfolding after_complete init_dma_chan_prio priority_loop
after_complete-PrioStarted pool hs t high low out (complete cs l d e slots h) =
    rw (e, slots)
      (running cs l d (ap pos l)
        (ap
          (λ n.
            list_of (map some cs ++ []) (length cs)
              (priority_loop n 0 0 (128 ∷ 128 ∷ 128 ∷ 128 ∷ [])))
          l)
        refl h)
after_complete-PrioStarted pool hs t high low out (refused e slots h) =
    rw (e, slots) (not_running refl refl refl h)

-- The start of the priority policy, from an allocator where the distinct channels hs are held, either
-- returns 4 with four distinct channels, also distinct from hs, of priorities 0, 1, 2 and 3, and with
-- the timer armed for the high quantum; or it returns -1 with an empty list, the timer as it was, and
-- hs alone held.
pub start_policy_prio2-PrioStarted :
    (pool : Pool) (hs : List ℕ) (t : PriorityTimer) (high low : ℕ) (s : pool.State)
    → pool.Held s hs
    → IsDistinct hs
    → PrioStarted pool hs t high low (start_policy_prio2 pool high low t s)
unfolding start_policy_prio2 init_dma_chan_prio
start_policy_prio2-PrioStarted pool hs t high low s h d =
    let e : hs ++ [] ≡ hs = append-nil hs in
    after_complete-PrioStarted pool hs t high low (prio_complete_loop pool 4 0 init_dma_chan_prio s)
      (prio_complete_loop-Completed pool hs [] (128 ∷ 128 ∷ 128 ∷ 128 ∷ []) 4 4 s
        (subst (pool.Held s) (sym e) h) (subst IsDistinct (sym e) d) refl)
