-- ===== src/Bench/Msg/Module.antt =====
-- Loading and unloading the message benchmark: micro-benchmark_Msg/driver/micro_benchmark.c. The
-- messages that are printed are left out.
use dmacftu.Prelude.{
  ℕ, ◌+◌, ◌≡◌, refl, ◌∙◌, subst, true, false, ◌||◌, inl, inr, Bool-cases, ◌==◌, if◌then◌else◌, ℤ,
  pos, negsuc, is_neg, arith, ℕ_discrete, replicate,
}
use dmacftu.Trace.Module.{Answers, enomem}
use dmacftu.Bench.Cache.{eperm}
use dmacftu.Bench.Policies.{Policies, Running, idle, by_excl, by_sh}
use dmacftu.Bench.Devices.{Module, install, uninstall}
use dmacftu.Bench.Installing.{
  bare, complete, installed, not_installed, install-Installed, uninstall-complete,
}
use dmacftu.Bench.Msg.{
  BenchmarkData, buff_measure, zero_unit, cpu_measure, exclusive_measure, shared_measure,
}

-- What init_all_micro_bench stores in the data of device i, for the boot memory at `base` of `size`
-- bytes: the types are ID_COPY_FROM, ID_COPY_TO, ID_COPY_FROM_NC and ID_COPY_TO_NC.
abbrev pub data_of : ℕ → ℕ → ℕ → BenchmarkData
data_of base size i = record {
  user_size = 0;
  user_buf = 0;
  kernel_size = size;
  kernel_buf = base;
  type = i + 1;
  results = record { count = 0; buffer = replicate buff_measure zero_unit };
}

module _ (P : Policies) where
  -- The `switch` of micro_benchmark_init.
  abbrev start_exclusive : P.State → ℤ × P.State
  start_exclusive s =
      let (r, s') = P.start_policy_excl s in if is_neg r then (eperm, s') else (pos 0, s')

  unfoldable pub start_policy : ℤ → P.State → ℤ × P.State
  start_policy (negsuc n) s = (eperm, s)
  start_policy (pos n) s =
      if n == cpu_measure
      then (pos 0, s)
      else if n == exclusive_measure
      then start_exclusive s
      else if n == shared_measure
      then (pos 0, P.start_policy_sh s)
      else (eperm, s)

  -- micro_benchmark_init, for the boot memory at `base` (0 for NULL) of `size` bytes.
  unfoldable pub micro_benchmark_init :
      Answers → ℤ → ℕ → ℕ → Module BenchmarkData P.State → ℤ × Module BenchmarkData P.State
  unfolding start_policy install
  micro_benchmark_init k type_measure base size m0 =
      let (r, p) = start_policy type_measure m0.policy in
      let m = record m0 { policy = p } in
      if base == 0 || size == 0
      then (enomem, m0)
      else if is_neg r
      then (r, m)
      else install k (data_of base size) m

  -- The two tests of micro_benchmark_exit.
  unfoldable pub stop_policy : ℤ → P.State → P.State
  stop_policy (negsuc n) s = s
  stop_policy (pos n) s0 =
      let s1 = if n == exclusive_measure then P.stop_policy_excl s0 else s0 in
      if n == shared_measure then P.stop_policy_sh s1 else s1

  unfoldable pub micro_benchmark_exit :
      ℤ → Module BenchmarkData P.State → Module BenchmarkData P.State
  unfolding stop_policy uninstall
  micro_benchmark_exit type_measure m =
      uninstall (record m { policy = stop_policy type_measure m.policy })

-- Which policy a type of measure starts.
abbrev pub policy_of : ℤ → Running
policy_of (pos n) =
    if n == exclusive_measure then by_excl else if n == shared_measure then by_sh else idle
policy_of (negsuc n) = idle

module _ (P : Policies) where
  -- How the policy starts.
  data Begun (n : ℤ) (out : ℤ × P.State) : Type 0 where
    begun : (s : P.State) → out ≡ (pos 0, s) → P.Runs (policy_of n) s → Begun n out
    not_begun : (s : P.State) → out ≡ (eperm, s) → P.Runs idle s → Begun n out

  exclusive-Begun :
      (s : P.State) → P.Runs idle s → Begun (pos exclusive_measure) (start_exclusive P s)
  exclusive-Begun s h = elim (P.excl_starts s h) [
    | inl (r, on) ↦ rw r (begun _ refl on)
    | inr (r, off) ↦ rw r (not_begun _ refl off)
  ]

  start_policy-Begun : (n : ℤ) (s : P.State) → P.Runs idle s → Begun n (start_policy P n s)
  unfolding start_policy
  start_policy-Begun (negsuc n) s h = not_begun s refl h
  start_policy-Begun (pos n) s h = elim (ℕ_discrete n cpu_measure) [
    | yes e ↦ rw e (begun s refl h)
    | no not_cpu ↦ elim (ℕ_discrete n exclusive_measure) [
      | yes e ↦ rw e (exclusive-Begun s h)
      | no not_excl ↦ elim (ℕ_discrete n shared_measure) [
        | yes e ↦ rw e (begun _ refl (P.sh_starts s h))
        | no not_sh ↦ not_begun s (ground (arith, not_cpu, not_excl, not_sh)) h
      ]
    ]
  ]

  stop_policy-idle :
      (tm : ℤ) (s : P.State) → P.Runs (policy_of tm) s → P.Runs idle (stop_policy P tm s)
  unfolding stop_policy
  stop_policy-idle (negsuc n) s h = h
  stop_policy-idle (pos n) s h = elim (ℕ_discrete n exclusive_measure) [
    | yes e ↦ rw e (P.excl_stops s (subst (λ m. P.Runs (policy_of (pos m)) s) e h))
    | no not_excl ↦ elim (ℕ_discrete n shared_measure) [
      | yes e ↦ rw e (P.sh_stops s (subst (λ m. P.Runs (policy_of (pos m)) s) e h))
      | no not_sh ↦
          let runs : policy_of (pos n) ≡ idle = ground (arith, not_excl, not_sh) in
          let stays : stop_policy P (pos n) s ≡ s = ground (arith, not_excl, not_sh) in
          rw stays (subst (λ r. P.Runs r s) runs h)
    ]
  ]

  -- How loading ends.
  data Loaded (tm : ℤ) (base size : ℕ) (out : ℤ × Module BenchmarkData P.State) : Type 0 where
    loaded :
        (s : P.State)
        → out ≡ (pos 0, complete (data_of base size) s)
        → P.Runs (policy_of tm) s
        → Loaded tm base size out
    stopped :
        (e : ℕ) (s : P.State) → out ≡ (negsuc e, bare s) → P.Runs idle s → Loaded tm base size out
    left_running :
        (e : ℕ) (s : P.State)
        → out ≡ (negsuc e, bare s)
        → P.Runs (policy_of tm) s
        → Loaded tm base size out

  module _ (k : Answers) (tm : ℤ) (base size : ℕ) (p : P.State) where
    no_memory :
        (base == 0 || size == 0) ≡ true
        → micro_benchmark_init P k tm base size (bare p) ≡ (enomem, bare p)
    unfolding micro_benchmark_init
    no_memory none_there = ground (arith, none_there)

    refuses :
        (s : P.State)
        → (base == 0 || size == 0) ≡ false
        → start_policy P tm p ≡ (eperm, s)
        → micro_benchmark_init P k tm base size (bare p) ≡ (eperm, bare s)
    unfolding micro_benchmark_init
    refuses s there z = ground (arith, there, z)

    installs :
        (s : P.State)
        → (base == 0 || size == 0) ≡ false
        → start_policy P tm p ≡ (pos 0, s)
        → micro_benchmark_init P k tm base size (bare p) ≡ install k (data_of base size) (bare s)
    unfolding micro_benchmark_init
    installs s there z = ground (arith, there, z)

    -- Loading where no policy runs and the module holds nothing: everything is in place and the policy
    -- runs; or nothing is held, and either no policy runs, or the one that was started still does.
    micro_benchmark_init-Loaded :
        P.Runs idle p → Loaded tm base size (micro_benchmark_init P k tm base size (bare p))
    micro_benchmark_init-Loaded h = elim (Bool-cases (base == 0 || size == 0)) [
      | inl none_there ↦ stopped 11 p (no_memory none_there) h
      | inr there ↦ elim (start_policy-Begun tm p h) [
        | not_begun s z off ↦ stopped 0 s (refuses s there z) off
        | begun s z on ↦ elim (install-Installed k (data_of base size) s) [
          | installed e ↦ loaded s (installs s there z ∙ e) on
          | not_installed n e ↦ left_running n s (installs s there z ∙ e) on
        ]
      ]
    ]

  -- How unloading ends.
  pub data Unloaded (out : Module BenchmarkData P.State) : Type 0 where
    unloaded : (s : P.State) → out ≡ bare s → P.Runs idle s → Unloaded out

  exit-complete :
      (tm : ℤ) (d : ℕ → BenchmarkData) (s : P.State)
      → P.Runs (policy_of tm) s
      → Unloaded (micro_benchmark_exit P tm (complete d s))
  unfolding micro_benchmark_exit
  exit-complete tm d s h =
      unloaded (stop_policy P tm s) (uninstall-complete d (stop_policy P tm s))
        (stop_policy-idle tm s h)

  -- Unloading after a load that returned 0 gives back all that the module held and stops the policy.
  pub exit-after_init :
      (k : Answers) (tm : ℤ) (base size : ℕ) (p : P.State)
      → P.Runs idle p
      → (micro_benchmark_init P k tm base size (bare p)).0 ≡ pos 0
      → Unloaded (micro_benchmark_exit P tm (micro_benchmark_init P k tm base size (bare p)).1)
  exit-after_init k tm base size p h ok = elim (micro_benchmark_init-Loaded k tm base size p h) [
    | loaded s e on ↦ rw e (exit-complete tm (data_of base size) s on)
    | stopped n s e off ↦ absurd (ground (arith, e, ok))
    | left_running n s e on ↦ absurd (ground (arith, e, ok))
  ]
