-- ===== src/Bench/Installing.antt =====
-- What installing and removing the devices of a benchmark leaves
-- (micro-benchmark_Band/driver/micro_benchmark.c).
use dmacftu.Prelude.{
  ℕ, ◌≡◌, refl, true, List, [], ◌∷◌, Option, none, some, ℤ, pos, negsuc, arith, Bool-cases,
  is_neg-cases, inl, inr,
}
use dmacftu.Trace.Module.{Holdings, Answers, enomem}
use dmacftu.Trace.Loading.{nothing_held, four, all_added, none_added, add_loop-Added}
use dmacftu.Bench.Devices.{
  Module, init_all_micro_bench, micro_bench_register_driver, install, uninstall,
}

-- The driver with its four devices.
abbrev pub driver_held : Holdings
driver_held = record {
  regions = [];
  has_range = true;
  has_class = true;
  cdevs = four;
  devices = four;
}

abbrev pub no_data : {D : Type 0} → List (Option D)
no_data = none ∷ none ∷ none ∷ none ∷ []

abbrev pub all_data : {D : Type 0} → (ℕ → D) → List (Option D)
all_data d = some (d 0) ∷ some (d 1) ∷ some (d 2) ∷ some (d 3) ∷ []

-- The driver: everything, or nothing.
data Registered (out : ℤ × Holdings) : Type 0 where
  registered : out ≡ (pos 0, driver_held) → Registered out
  not_registered : (e : ℕ) → out ≡ (negsuc e, nothing_held) → Registered out

micro_bench_register_driver-Registered :
    (k : Answers) → Registered (micro_bench_register_driver k nothing_held)
unfolding micro_bench_register_driver
micro_bench_register_driver-Registered k = elim (is_neg-cases k.alloc_chrdev_region) [
  | inl (e, z) ↦ not_registered e (ground (arith, z))
  | inr range ↦ elim (is_neg-cases k.class_create) [
    | inl (e, z) ↦ not_registered e (ground (arith, z, range))
    | inr class ↦ elim (add_loop-Added k.cdev_add) [
      | none_added e z ↦ not_registered e (ground (arith, z, range, class))
      | all_added added ↦ elim (add_loop-Added k.device_create) [
        | none_added e z ↦ not_registered e (ground (arith, z, range, class, added))
        | all_added created ↦ registered (ground (arith, range, class, added, created))
      ]
    ]
  ]
]

module _ {D : Type 0} (k : Answers) (d : ℕ → D) where
  -- The data: all four, or none.
  data Prepared (out : ℤ × List (Option D)) : Type 0 where
    prepared : out ≡ (pos 0, all_data d) → Prepared out
    not_prepared : out ≡ (enomem, no_data) → Prepared out

  init_all_micro_bench-Prepared : Prepared (init_all_micro_bench k d no_data)
  unfolding init_all_micro_bench
  init_all_micro_bench-Prepared = elim (Bool-cases (k.kzalloc 0)) [
    | inr no0 ↦ not_prepared (ground (arith, no0))
    | inl ok0 ↦ elim (Bool-cases (k.kzalloc 1)) [
      | inr no1 ↦ not_prepared (ground (arith, no1, ok0))
      | inl ok1 ↦ elim (Bool-cases (k.kzalloc 2)) [
        | inr no2 ↦ not_prepared (ground (arith, no2, ok0, ok1))
        | inl ok2 ↦ elim (Bool-cases (k.kzalloc 3)) [
          | inr no3 ↦ not_prepared (ground (arith, no3, ok0, ok1, ok2))
          | inl ok3 ↦ prepared (ground (arith, ok0, ok1, ok2, ok3))
        ]
      ]
    ]
  ]

-- A module with nothing but the policies.
abbrev pub bare : {D P : Type 0} → P → Module D P
bare p = record { vector_mb = no_data; held = nothing_held; policy = p }

abbrev pub complete : {D P : Type 0} → (ℕ → D) → P → Module D P
complete d p = record { vector_mb = all_data d; held = driver_held; policy = p }

-- How installing ends.
pub data Installed {D P : Type 0} (d : ℕ → D) (p : P) (out : ℤ × Module D P) : Type 0 where
  installed : out ≡ (pos 0, complete d p) → Installed d p out
  not_installed : (e : ℕ) → out ≡ (negsuc e, bare p) → Installed d p out

pub install-Installed :
    {D P : Type 0} (k : Answers) (d : ℕ → D) (p : P) → Installed d p (install k d (bare p))
unfolding install
install-Installed k d p = elim (init_all_micro_bench-Prepared k d) [
  | not_prepared e ↦ not_installed 11 (ground (arith, e))
  | prepared e ↦ elim (micro_bench_register_driver-Registered k) [
    | not_registered n z ↦ not_installed n (ground (arith, e, z))
    | registered z ↦ installed (ground (arith, e, z))
  ]
]

pub uninstall-complete : {D P : Type 0} (d : ℕ → D) (p : P) → uninstall (complete d p) ≡ bare p
unfolding uninstall
uninstall-complete d p = refl
