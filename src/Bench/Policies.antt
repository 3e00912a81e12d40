-- ===== src/Bench/Policies.antt =====
-- What the modules of the benchmarks use of the channel policies
-- (source/drivers/dma/dma_policy_ex_sh.c and source/drivers/dma/dma_policy_prio.c): their starts and
-- stops, over an unknown state.
use dmacftu.Prelude.{ℕ, ◌≡◌, ◌⊎◌, ℤ, pos, negsuc}

-- Which dynamic policy holds channels.
pub data Running : Type 0 where
  idle by_excl by_sh by_prio : Running

pub record Policies : Type 1 where
  pub State : Type 0
  pub start_policy_excl : State → ℤ × State
  pub stop_policy_excl : State → State
  pub start_policy_sh : State → State
  pub stop_policy_sh : State → State
  -- With the two quanta of the timer.
  pub start_policy_prio2 : ℕ → ℕ → State → ℤ × State
  pub stop_policy_prio : State → State
  -- The policy that runs, besides what was held before.
  pub Runs : Running → State → Type 0
  pub excl_starts :
      (s : State)
      → Runs idle s
      → (((start_policy_excl s).0 ≡ pos 0) × Runs by_excl (start_policy_excl s).1)
        ⊎ (((start_policy_excl s).0 ≡ negsuc 0) × Runs idle (start_policy_excl s).1)
  pub excl_stops : (s : State) → Runs by_excl s → Runs idle (stop_policy_excl s)
  pub sh_starts : (s : State) → Runs idle s → Runs by_sh (start_policy_sh s)
  pub sh_stops : (s : State) → Runs by_sh s → Runs idle (stop_policy_sh s)
  pub prio_starts :
      (high low : ℕ) (s : State)
      → Runs idle s
      → (((start_policy_prio2 high low s).0 ≡ pos 4)
          × Runs by_prio (start_policy_prio2 high low s).1)
        ⊎ (((start_policy_prio2 high low s).0 ≡ negsuc 0)
            × Runs idle (start_policy_prio2 high low s).1)
  pub prio_stops : (s : State) → Runs by_prio s → Runs idle (stop_policy_prio s)
