-- ===== src/Exclusive/Atomic.antt =====
-- The channels that a start and a stop of the exclusive policy leave held
-- (source/drivers/dma/dma_policy_ex_sh.c).
use dmacftu.Prelude.{
  IsDistinct, ℕ, zero, suc, ◌+◌, ◌≡◌, ◌≢◌, refl, ap, sym, ◌∙◌, List, [], ◌∷◌, ◌++◌, map, none, some,
  ℤ, pos, negsuc, length, arith, inl, inr, All, Option-cases, replicate, length-append, subst,
}
use mathlib.Core.List.{append_assoc, append-nil, map-append}
use dmacftu.Pool.{Pool}
use dmacftu.Exclusive.{
  Slot, free_slot, taken_slot, release_dma_chan_excl, init_dma_chan_excl, complete_loop,
  start_policy_excl, stop_policy_excl,
}

init-free :
    (pool : Pool) (xs : List Slot) → init_dma_chan_excl pool xs ≡ replicate (length xs) free_slot
unfolding init_dma_chan_excl
init-free pool [] = refl
init-free pool (x ∷ xs) = ap (λ ys. free_slot ∷ ys) (init-free pool xs)

module _ (pool : Pool) (hs : List ℕ) where
  release-free :
      (n : ℕ) (s : pool.State)
      → release_dma_chan_excl pool (replicate n free_slot) s ≡ (replicate n free_slot, s)
  unfolding release_dma_chan_excl
  release-free zero s = refl
  release-free (suc n) s = ground (arith, release-free n s)

  -- Releasing the slots that hold cs, with free ones after them, gives back cs and nothing else.
  release-taken :
      (cs : List ℕ) (n : ℕ) (s : pool.State)
      → pool.Held s (hs ++ cs)
      → ((release_dma_chan_excl pool (map taken_slot cs ++ replicate n free_slot) s).0
          ≡ replicate (length cs + n) free_slot)
        × pool.Held (release_dma_chan_excl pool (map taken_slot cs ++ replicate n free_slot) s).1 hs
  unfolding release_dma_chan_excl
  release-taken [] n s h =
      let e : 0 + n ≡ n = omega arith in
      rw (release-free n s, e) (refl, subst (pool.Held s) (append-nil hs) h)
  release-taken (c ∷ cs) n s h =
      let (slots, held) = release-taken cs n (pool.release c s) (pool.release_held s hs cs c h) in
      let e : suc (length cs) + n ≡ suc (length cs + n) = omega arith in
      (ap (λ ys. free_slot ∷ ys) slots ∙ ap (λ k. replicate k free_slot) (sym e), held)

All-snoc : (c : ℕ) (P : ℕ → Type 0) (xs : List ℕ) → All P xs → P c → All P (xs ++ c ∷ [])
All-snoc c P [] a p = (p, tt)
All-snoc c P (x ∷ xs) a p = (a.0, All-snoc c P xs a.1 p)

pub IsDistinct-snoc :
    (xs : List ℕ) (c : ℕ) → IsDistinct xs → All (λ d. d ≢ c) xs → IsDistinct (xs ++ c ∷ [])
IsDistinct-snoc [] c d a = (tt, tt)
IsDistinct-snoc (x ∷ xs) c d a =
    (All-snoc c (λ y. y ≢ x) xs d.0 (λ e. a.0 (sym e)), IsDistinct-snoc xs c d.1 a.1)

-- How a start ends: with a channel for each CPU, all distinct and distinct from those held before, or
-- with every slot free and nothing more held than before.
pub data Started (pool : Pool) (hs : List ℕ) (n : ℕ) (out : ℤ × List Slot × pool.State)
    : Type 0 where
  all_taken :
      (cs : List ℕ)
      → length cs ≡ n
      → IsDistinct (hs ++ cs)
      → out.0 ≡ pos 0
      → out.1 ≡ map taken_slot cs
      → pool.Held out.2 (hs ++ cs)
      → Started pool hs n out
  none_taken :
      out.0 ≡ negsuc 0 → out.1 ≡ replicate n free_slot → pool.Held out.2 hs → Started pool hs n out

complete_loop-none :
    (pool : Pool) (done rest : List Slot) (x : Slot) (s : pool.State)
    → (pool.request s).0 ≡ none
    → complete_loop pool done (x ∷ rest) s ≡ (
      negsuc 0,
      (release_dma_chan_excl pool (done ++ x ∷ rest) (pool.request s).1).0,
      (release_dma_chan_excl pool (done ++ x ∷ rest) (pool.request s).1).1,
    )
unfolding complete_loop
complete_loop-none pool done rest x s e = ground (arith, e)

complete_loop-some :
    (pool : Pool) (done rest : List Slot) (x : Slot) (s : pool.State) (c : ℕ)
    → (pool.request s).0 ≡ some c
    → complete_loop pool done (x ∷ rest) s
      ≡ complete_loop pool (done ++ taken_slot c ∷ []) rest (pool.request s).1
unfolding complete_loop
complete_loop-some pool done rest x s c e = ground (arith, e)

complete_loop-Started :
    (pool : Pool) (hs cs : List ℕ) (n k : ℕ) (s : pool.State)
    → pool.Held s (hs ++ cs)
    → IsDistinct (hs ++ cs)
    → length cs + n ≡ k
    → Started pool hs k (complete_loop pool (map taken_slot cs) (replicate n free_slot) s)
unfolding complete_loop
complete_loop-Started pool hs cs zero k s h d e = all_taken cs (omega arith) d refl refl h
complete_loop-Started pool hs cs (suc n) k s h d e = elim (Option-cases (pool.request s).0) [
  | inl refused ↦
      let held = pool.request_none s (hs ++ cs) h refused in
      let (slots, back) = release-taken pool hs cs (suc n) (pool.request s).1 held in
      rw (complete_loop-none pool (map taken_slot cs) (replicate n free_slot) free_slot s refused)
        (none_taken refl (slots ∙ ap (λ m. replicate m free_slot) e) back)
  | inr (c, given) ↦
      let (held, fresh) = pool.request_some s (hs ++ cs) c h given in
      let q : (hs ++ cs) ++ c ∷ [] ≡ hs ++ (cs ++ c ∷ []) = append_assoc hs cs (c ∷ []) in
      let rest =
        complete_loop-Started pool hs (cs ++ c ∷ []) n k (pool.request s).1
          (subst (pool.Held (pool.request s).1) q held)
          (subst IsDistinct q (IsDistinct-snoc (hs ++ cs) c d fresh))
          (omega (arith, length-append cs (c ∷ []))) in
      let m : map taken_slot (cs ++ c ∷ []) ≡ map taken_slot cs ++ taken_slot c ∷ [] =
        map-append taken_slot cs (c ∷ []) in
      rw (complete_loop-some pool (map taken_slot cs) (replicate n free_slot) free_slot s c given) (
        subst
          (λ done.
            Started pool hs k (complete_loop pool done (replicate n free_slot) (pool.request s).1))
          m rest)
]

-- The start of the exclusive policy, from an allocator where the distinct channels hs are held, either
-- returns 0 with a channel for each CPU, all distinct and distinct from hs, or returns -1 with every
-- slot free and hs alone held.
pub start_policy_excl-Started :
    (pool : Pool) (hs : List ℕ) (xs : List Slot) (s : pool.State)
    → pool.Held s hs
    → IsDistinct hs
    → Started pool hs (length xs) (start_policy_excl pool xs s)
unfolding start_policy_excl
start_policy_excl-Started pool hs xs s h d =
    let e : hs ++ [] ≡ hs = append-nil hs in
    rw (init-free pool xs) (
      complete_loop-Started pool hs [] (length xs) (length xs) s (subst (pool.Held s) (sym e) h)
        (subst IsDistinct (sym e) d) (omega arith))

pub stop-taken :
    (pool : Pool) (hs cs : List ℕ) (n : ℕ) (out : List Slot × pool.State)
    → length cs ≡ n
    → out.0 ≡ map taken_slot cs
    → pool.Held out.1 (hs ++ cs)
    → ((stop_policy_excl pool out.0 out.1).0 ≡ replicate n free_slot)
      × pool.Held (stop_policy_excl pool out.0 out.1).1 hs
unfolding stop_policy_excl
stop-taken pool hs cs n out l e h =
    let (slots, back) = release-taken pool hs cs 0 out.1 h in
    let z : length cs + 0 ≡ n = omega arith in
    let f : map taken_slot cs ++ [] ≡ out.0 = append-nil (map taken_slot cs) ∙ sym e in
    subst
      (λ ys.
        ((release_dma_chan_excl pool ys out.1).0 ≡ replicate n free_slot)
        × pool.Held (release_dma_chan_excl pool ys out.1).1 hs)
      f (slots ∙ ap (λ m. replicate m free_slot) z, back)

-- Starting the exclusive policy and stopping it, from an allocator where the distinct channels hs
-- are held and whether or not the start succeeded, leaves every slot free and exactly hs held.
pub stop_policy_excl-after_start :
    (pool : Pool) (hs : List ℕ) (xs : List Slot) (s : pool.State)
    → pool.Held s hs
    → IsDistinct hs
    → ((stop_policy_excl pool (start_policy_excl pool xs s).1 (start_policy_excl pool xs s).2).0
        ≡ replicate (length xs) free_slot)
      × pool.Held
          (stop_policy_excl pool (start_policy_excl pool xs s).1 (start_policy_excl pool xs s).2).1
          hs
unfolding stop_policy_excl
stop_policy_excl-after_start pool hs xs s h d = elim (start_policy_excl-Started pool hs xs s h d) [
  | all_taken cs l dis r slots held ↦
      stop-taken pool hs cs (length xs)
        ((start_policy_excl pool xs s).1, (start_policy_excl pool xs s).2) l slots held
  | none_taken r slots held ↦
      rw (slots, release-free pool hs (length xs) (start_policy_excl pool xs s).2) (refl, held)
]
