-- ===== src/Bench/Band/Loading.antt =====
-- What loading and unloading the bandwidth benchmark leave
-- (micro-benchmark_Band/driver/micro_benchmark.c).
use dmacftu.Prelude.{
  ℕ, ◌≡◌, refl, ap, subst, true, false, ◌||◌, inl, inr, Bool-cases, ◌==◌, ℤ, pos, negsuc, arith,
  ℕ_discrete,
}
use dmacftu.Trace.Module.{Answers, enomem}
use dmacftu.Bench.Cache.{einval}
use dmacftu.Bench.Policies.{Policies, idle}
use dmacftu.Bench.Devices.{Module, install}
use dmacftu.Bench.Installing.{
  bare, complete, installed, not_installed, install-Installed, uninstall-complete,
}
use dmacftu.Bench.Band.{
  BenchmarkData, cpu_measure, exclusive_measure, shared_measure, priority_measure,
}
use dmacftu.Bench.Band.Module.{
  data_of, type_bits, start_by, micro_bench_print_info, micro_benchmark_init, micro_benchmark_exit,
  stop_policy, policy_of, start_exclusive, start_priority,
}

module _ (P : Policies) where
  -- How the policy starts.
  data Begun (n : ℤ) (out : ℤ × P.State) : Type 0 where
    begun : (s : P.State) → out ≡ (pos 0, s) → P.Runs (policy_of n) s → Begun n out
    not_begun : (e : ℕ) (s : P.State) → out ≡ (negsuc e, s) → P.Runs idle s → Begun n out

  exclusive-Begun :
      (s : P.State) → P.Runs idle s → Begun (pos exclusive_measure) (start_exclusive P s)
  exclusive-Begun s h = elim (P.excl_starts s h) [
    | inl (r, on) ↦ rw r (begun _ refl on)
    | inr (r, off) ↦ rw r (not_begun 0 _ refl off)
  ]

  priority-Begun : (s : P.State) → P.Runs idle s → Begun (pos priority_measure) (start_priority P s)
  priority-Begun s h = elim (P.prio_starts 30000 60000 s h) [
    | inl (r, on) ↦ rw r (begun _ refl on)
    | inr (r, off) ↦ rw r (not_begun 4 _ refl off)
  ]

  start_by-Begun : (n : ℕ) (s : P.State) → P.Runs idle s → Begun (pos n) (start_by P n s)
  start_by-Begun n s h = elim (ℕ_discrete n cpu_measure) [
    | yes e ↦ rw e (begun s refl h)
    | no not_cpu ↦ elim (ℕ_discrete n exclusive_measure) [
      | yes e ↦ rw e (exclusive-Begun s h)
      | no not_excl ↦ elim (ℕ_discrete n shared_measure) [
        | yes e ↦ rw e (begun _ refl (P.sh_starts s h))
        | no not_sh ↦ elim (ℕ_discrete n priority_measure) [
          | yes e ↦ rw e (priority-Begun s h)
          | no not_prio ↦ not_begun 0 s (ground (arith, not_cpu, not_excl, not_sh, not_prio)) h
        ]
      ]
    ]
  ]

  micro_bench_print_info-Begun :
      (n : ℤ) (s : P.State) → P.Runs idle s → Begun n (micro_bench_print_info P n s)
  unfolding micro_bench_print_info
  micro_bench_print_info-Begun (pos n) s h = start_by-Begun n s h
  micro_bench_print_info-Begun (negsuc n) s h = not_begun 0 s refl h

-- How loading ends: with everything in place and the policy of the type running; with nothing, where
-- the policy does not start; or with nothing but that policy, which was started.
pub data Loaded (P : Policies) (tm : ℤ) (base size : ℕ) (p : P.State)
    (out : ℤ × Module BenchmarkData P.State) : Type 0 where
  loaded :
      (s : P.State)
      → out ≡ (pos 0, complete (data_of base size (type_bits tm)) s)
      → P.Runs (policy_of tm) s
      → Loaded P tm base size p out
  not_started :
      (e : ℕ) (s : P.State)
      → (micro_bench_print_info P tm p).0 ≡ negsuc e
      → out ≡ (einval, bare s)
      → P.Runs idle s
      → Loaded P tm base size p out
  left_running :
      (e : ℕ) (s : P.State)
      → (micro_bench_print_info P tm p).0 ≡ pos 0
      → out ≡ (negsuc e, bare s)
      → P.Runs (policy_of tm) s
      → Loaded P tm base size p out

module _ (P : Policies) (k : Answers) (tm : ℤ) (base size : ℕ) (p : P.State) where
  refuses :
      (e : ℕ) (s : P.State)
      → micro_bench_print_info P tm p ≡ (negsuc e, s)
      → micro_benchmark_init P k tm base size (bare p) ≡ (einval, bare s)
  unfolding micro_benchmark_init
  refuses e s z = ground (arith, z)

  no_memory :
      (s : P.State)
      → micro_bench_print_info P tm p ≡ (pos 0, s)
      → (base == 0 || size == 0) ≡ true
      → micro_benchmark_init P k tm base size (bare p) ≡ (enomem, bare s)
  unfolding micro_benchmark_init
  no_memory s z none_there = ground (arith, z, none_there)

  installs :
      (s : P.State)
      → micro_bench_print_info P tm p ≡ (pos 0, s)
      → (base == 0 || size == 0) ≡ false
      → micro_benchmark_init P k tm base size (bare p)
        ≡ install k (data_of base size (type_bits tm)) (bare s)
  unfolding micro_benchmark_init
  installs s z there = ground (arith, z, there)

-- Loading the bandwidth benchmark where no policy runs and the module holds nothing: it returns 0 with
-- the data of the four devices, the driver, its character devices and its devices in place, and the
-- policy of the type of measure running; or a negative number with nothing held. In the second case no
-- policy runs if its start failed, but the policy is left running if it has started, for then no error
-- after it (no boot memory, no memory for the data, a registration that fails) stops it.
pub micro_benchmark_init-Loaded :
    (P : Policies) (k : Answers) (tm : ℤ) (base size : ℕ) (p : P.State)
    → P.Runs idle p
    → Loaded P tm base size p (micro_benchmark_init P k tm base size (bare p))
micro_benchmark_init-Loaded P k tm base size p h = elim (micro_bench_print_info-Begun P tm p h) [
  | not_begun e s z off ↦
      rw (refuses P k tm base size p e s z) (not_started e s (ap (λ r. r.0) z) refl off)
  | begun s z on ↦ elim (Bool-cases (base == 0 || size == 0)) [
    | inl none_there ↦
        rw (no_memory P k tm base size p s z none_there)
          (left_running 11 s (ap (λ r. r.0) z) refl on)
    | inr there ↦
        rw (installs P k tm base size p s z there)
          (elim (install-Installed k (data_of base size (type_bits tm)) s) [
            | installed e ↦ loaded s e on
            | not_installed n e ↦ left_running n s (ap (λ r. r.0) z) e on
          ])
  ]
]

-- How unloading ends.
pub data Unloaded (P : Policies) (out : Module BenchmarkData P.State) : Type 0 where
  unloaded : (s : P.State) → out ≡ bare s → P.Runs idle s → Unloaded P out

module _ (P : Policies) where
  stop_policy-idle :
      (tm : ℤ) (s : P.State) → P.Runs (policy_of tm) s → P.Runs idle (stop_policy P tm s)
  stop_policy-idle (negsuc n) s h = h
  stop_policy-idle (pos n) s h = elim (ℕ_discrete n exclusive_measure) [
    | yes e ↦ rw e (P.excl_stops s (subst (λ m. P.Runs (policy_of (pos m)) s) e h))
    | no not_excl ↦ elim (ℕ_discrete n shared_measure) [
      | yes e ↦ rw e (P.sh_stops s (subst (λ m. P.Runs (policy_of (pos m)) s) e h))
      | no not_sh ↦ elim (ℕ_discrete n priority_measure) [
        | yes e ↦ rw e (P.prio_stops s (subst (λ m. P.Runs (policy_of (pos m)) s) e h))
        | no not_prio ↦
            let runs : policy_of (pos n) ≡ idle = ground (arith, not_excl, not_sh, not_prio) in
            let stays : stop_policy P (pos n) s ≡ s = ground (arith, not_excl, not_sh, not_prio) in
            rw stays (subst (λ r. P.Runs r s) runs h)
      ]
    ]
  ]

  exit-complete :
      (tm : ℤ) (d : ℕ → BenchmarkData) (s : P.State)
      → P.Runs (policy_of tm) s
      → Unloaded P (micro_benchmark_exit P tm (complete d s))
  unfolding micro_benchmark_exit
  exit-complete tm d s h =
      unloaded (stop_policy P tm s) (uninstall-complete d (stop_policy P tm s))
        (stop_policy-idle tm s h)

-- Unloading the bandwidth benchmark after a load that returned 0, from where no policy ran and the
-- module held nothing, gives back all that the module held and stops the policy.
pub micro_benchmark_exit-after_init :
    (P : Policies) (k : Answers) (tm : ℤ) (base size : ℕ) (p : P.State)
    → P.Runs idle p
    → (micro_benchmark_init P k tm base size (bare p)).0 ≡ pos 0
    → Unloaded P (micro_benchmark_exit P tm (micro_benchmark_init P k tm base size (bare p)).1)
micro_benchmark_exit-after_init P k tm base size p h ok =
    elim (micro_benchmark_init-Loaded P k tm base size p h) [
      | loaded s e on ↦ rw e (exit-complete P tm (data_of base size (type_bits tm)) s on)
      | not_started n s z e off ↦ absurd (ground (arith, e, ok))
      | left_running n s z e on ↦ absurd (ground (arith, e, ok))
    ]
