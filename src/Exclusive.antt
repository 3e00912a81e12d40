-- ===== src/Exclusive.antt =====
-- The exclusive policy: a channel for each present CPU, source/drivers/dma/dma_policy_ex_sh.c
-- (start_policy_excl, stop_policy_excl), and the same at boot, source/init/boot_copy_dma_chan.c
-- (boot_init_dma_chan, boot_complete_dma_chan).
pub mod Atomic
mod Tests
use dmacftu.Prelude.{
  ℕ, ◌+◌, Bool, true, false, List, [], ◌∷◌, ◌++◌, map, Option, none, some, ◌==◌, if◌then◌else◌, ℤ,
  pos, negsuc,
}
use dmacftu.Pool.{Pool, release_chan}

-- `struct dma_chan_copy` of one CPU; `in_use` is the field `use`.
pub record Slot : Type 0 where
  pub chan : Option ℕ
  pub in_use : ℕ

abbrev pub free_slot : Slot
free_slot = record { chan = none; in_use = 0 }

abbrev pub taken_slot : ℕ → Slot
taken_slot c = record { chan = some c; in_use = 1 }

module _ (pool : Pool) where
  -- release_dma_chan_excl, over the slots of the present CPUs in order.
  unfoldable pub release_dma_chan_excl : List Slot → pool.State → List Slot × pool.State
  release_dma_chan_excl [] s = ([], s)
  release_dma_chan_excl (x ∷ xs) s =
      let s' = if x.in_use == 1 then release_chan pool x.chan s else s in
      let (rest, s'') = release_dma_chan_excl xs s' in
      ((if x.in_use == 1 then free_slot else x) ∷ rest, s'')

  -- init_dma_chan_excl.
  unfoldable pub init_dma_chan_excl : List Slot → List Slot
  init_dma_chan_excl [] = []
  init_dma_chan_excl (x ∷ xs) = free_slot ∷ init_dma_chan_excl xs

  -- The loop of complete_dma_chan_excl: the slots filled so far, and those of the CPUs to come.
  unfoldable pub complete_loop : List Slot → List Slot → pool.State → ℤ × List Slot × pool.State
  unfolding release_dma_chan_excl
  complete_loop done [] s = (pos 0, done, s)
  complete_loop done (x ∷ rest) s =
      let (o, s') = pool.request s in
      let failed = release_dma_chan_excl (done ++ x ∷ rest) s' in
      elim o [
        | none ↦ (negsuc 0, failed.0, failed.1)
        | some c ↦ complete_loop (done ++ taken_slot c ∷ []) rest s'
      ]

  -- start_policy_excl, and the two boot functions one after the other; the latter return nothing.
  unfoldable pub start_policy_excl : List Slot → pool.State → ℤ × List Slot × pool.State
  unfolding complete_loop init_dma_chan_excl
  start_policy_excl xs s = complete_loop [] (init_dma_chan_excl xs) s

  unfoldable pub stop_policy_excl : List Slot → pool.State → List Slot × pool.State
  unfolding release_dma_chan_excl
  stop_policy_excl xs s = release_dma_chan_excl xs s
