-- ===== src/Bench/Running.antt =====
-- The policies that the benchmarks' modules start and stop, filled with the exclusive policy
-- (source/drivers/dma/dma_policy_ex_sh.c) and the priority policy
-- (source/drivers/dma/dma_policy_prio.c) on one allocator. Of the shared policy, which calls
-- copy_dmaengine_get and copy_dmaengine_put, only the count of its users is here
-- (copy_dmaengine_ref_count of source/drivers/dma/dmaengine.c).
use dmacftu.Prelude.{
  IsDistinct, ℕ, ◌+◌, ◌-◌, ◌<◌, ◌≡◌, refl, List, [], ◌∷◌, ◌++◌, map, ℤ, pos, negsuc, length, arith,
  ◌⊎◌, inl, inr,
}
use dmacftu.Pool.{Pool}
use dmacftu.Channels.{ListChanPrio}
use dmacftu.Exclusive.{Slot, taken_slot, start_policy_excl, stop_policy_excl}
use dmacftu.Exclusive.Atomic.{all_taken, none_taken, start_policy_excl-Started, stop-taken}
use dmacftu.Priority.{PriorityTimer, Suspended, start_policy_prio2, stop_policy_prio}
use dmacftu.Priority.Start.{
  prio_list, release-prio_list, running, not_running, start_policy_prio2-PrioStarted,
}
use dmacftu.Bench.Policies.{Policies, Running, idle, by_excl, by_sh, by_prio}

pub record PolicyState (S : Type 0) : Type 0 where
  pub slots : List Slot
  pub list_chan_prio : ListChanPrio
  pub timer : PriorityTimer
  pub suspended : Suspended
  pub users : ℕ
  pub channels : S

module _ (pool : Pool) (hs : List ℕ) (distinct : IsDistinct hs) where
  -- The channels that a policy holds besides hs.
  pub data RunsPolicy (r : Running) (s : PolicyState pool.State) : Type 0 where
    nothing : r ≡ idle → pool.Held s.channels hs → RunsPolicy r s
    exclusive :
        (cs : List ℕ)
        → r ≡ by_excl
        → s.slots ≡ map taken_slot cs
        → pool.Held s.channels (hs ++ cs)
        → RunsPolicy r s
    shared : r ≡ by_sh → 0 < s.users → pool.Held s.channels hs → RunsPolicy r s
    priority :
        (cs : List ℕ)
        → r ≡ by_prio
        → s.list_chan_prio ≡ prio_list cs 0 (0 ∷ 1 ∷ 2 ∷ 3 ∷ [])
        → pool.Held s.channels (hs ++ cs)
        → RunsPolicy r s

  held-idle : {s : PolicyState pool.State} → RunsPolicy idle s → pool.Held s.channels hs
  held-idle (nothing e h) = h
  held-idle (exclusive cs e slots h) = absurd (ground (arith, e))
  held-idle (shared e u h) = absurd (ground (arith, e))
  held-idle (priority cs e l h) = absurd (ground (arith, e))

  abbrev excl_start : PolicyState pool.State → ℤ × PolicyState pool.State
  excl_start s =
      let (r, slots, c) = start_policy_excl pool s.slots s.channels in
      (r, record s { slots = slots; channels = c })

  abbrev excl_stop : PolicyState pool.State → PolicyState pool.State
  excl_stop s =
      let (slots, c) = stop_policy_excl pool s.slots s.channels in
      record s { slots = slots; channels = c }

  abbrev prio_start : ℕ → ℕ → PolicyState pool.State → ℤ × PolicyState pool.State
  prio_start high low s =
      let (r, l, t, c) = start_policy_prio2 pool high low s.timer s.channels in
      (r, record s { list_chan_prio = l; timer = t; channels = c })

  abbrev prio_stop : PolicyState pool.State → PolicyState pool.State
  prio_stop s =
      let (l, t, f, c) = stop_policy_prio pool s.list_chan_prio (s.timer, s.suspended) s.channels in
      record s { list_chan_prio = l; timer = t; suspended = f; channels = c }

  pub excl-start_law :
      (s : PolicyState pool.State)
      → RunsPolicy idle s
      → (((excl_start s).0 ≡ pos 0) × RunsPolicy by_excl (excl_start s).1)
        ⊎ (((excl_start s).0 ≡ negsuc 0) × RunsPolicy idle (excl_start s).1)
  excl-start_law s h =
      elim (start_policy_excl-Started pool hs s.slots s.channels (held-idle h) distinct) [
        | all_taken cs l d r slots held ↦ inl (r, exclusive cs refl slots held)
        | none_taken r slots held ↦ inr (r, nothing refl held)
      ]

  pub excl-stop_law :
      (s : PolicyState pool.State) → RunsPolicy by_excl s → RunsPolicy idle (excl_stop s)
  excl-stop_law s (nothing e h) = absurd (ground (arith, e))
  excl-stop_law s (shared e u h) = absurd (ground (arith, e))
  excl-stop_law s (priority cs e l h) = absurd (ground (arith, e))
  excl-stop_law s (exclusive cs e slots h) =
      nothing refl (stop-taken pool hs cs (length cs) (s.slots, s.channels) refl slots h).1

  pub prio-start_law :
      (high low : ℕ) (s : PolicyState pool.State)
      → RunsPolicy idle s
      → (((prio_start high low s).0 ≡ pos 4) × RunsPolicy by_prio (prio_start high low s).1)
        ⊎ (((prio_start high low s).0 ≡ negsuc 0) × RunsPolicy idle (prio_start high low s).1)
  prio-start_law high low s h =
      elim (start_policy_prio2-PrioStarted pool hs s.timer high low s.channels (held-idle h)
        distinct) [
          | running cs l d r list timer held ↦ inl (r, priority cs refl list held)
          | not_running r list timer held ↦ inr (r, nothing refl held)
        ]

  pub prio-stop_law :
      (s : PolicyState pool.State) → RunsPolicy by_prio s → RunsPolicy idle (prio_stop s)
  unfolding stop_policy_prio
  prio-stop_law s (nothing e h) = absurd (ground (arith, e))
  prio-stop_law s (shared e u h) = absurd (ground (arith, e))
  prio-stop_law s (exclusive cs e l h) = absurd (ground (arith, e))
  prio-stop_law s (priority cs e list h) =
      nothing refl (rw list (release-prio_list pool hs cs 0 (0 ∷ 1 ∷ 2 ∷ 3 ∷ []) s.channels h).1)

  pub sh-start_law :
      (s : PolicyState pool.State)
      → RunsPolicy idle s
      → RunsPolicy by_sh (record s { users = s.users + 1 })
  sh-start_law s h = shared refl (omega arith) (held-idle h)

  pub sh-stop_law :
      (s : PolicyState pool.State)
      → RunsPolicy by_sh s
      → RunsPolicy idle (record s { users = s.users - 1 })
  sh-stop_law s (shared e u h) = nothing refl h
  sh-stop_law s (nothing e h) = absurd (ground (arith, e))
  sh-stop_law s (exclusive cs e l h) = absurd (ground (arith, e))
  sh-stop_law s (priority cs e l h) = absurd (ground (arith, e))

  -- The policies on this allocator, where the distinct channels hs are held by others.
  abbrev pub policies : Policies
  policies = record {
    State = PolicyState pool.State;
    start_policy_excl = excl_start;
    stop_policy_excl = excl_stop;
    start_policy_sh = λ s. record s { users = s.users + 1 };
    stop_policy_sh = λ s. record s { users = s.users - 1 };
    start_policy_prio2 = prio_start;
    stop_policy_prio = prio_stop;
    Runs = RunsPolicy;
    excl_starts = excl-start_law;
    excl_stops = excl-stop_law;
    sh_starts = sh-start_law;
    sh_stops = sh-stop_law;
    prio_starts = prio-start_law;
    prio_stops = prio-stop_law;
  }
