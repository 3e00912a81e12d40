-- ===== src/Bench/Devices.antt =====
-- The devices of a benchmark's module: the data of each, their registration with its unwinding, and
-- their removal. This is the code of micro-benchmark_Band/driver/micro_benchmark.c,
-- micro-benchmark_Band/driver/core_benchmark.c and the end of
-- micro-benchmark_Band/driver/driverops.c, which the other two benchmarks repeat.
use dmacftu.Prelude.{
  ℕ, zero, suc, Bool, true, List, Option, none, some, if◌then◌else◌, ℤ, pos, is_neg, set, not,
}
use dmacftu.Trace.Module.{
  Holdings, Answers, enomem, add_loop, remove_from, drop_class, drop_range, is_zero,
}

-- MB_MINOR.
abbrev pub mb_minor : ℕ
mb_minor = 4

-- `vector_mb` by the data of its elements, what the module holds of the kernel, and the policies.
pub record Module (D P : Type 0) : Type 0 where
  pub vector_mb : List (Option D)
  pub held : Holdings
  pub policy : P

unfoldable pub mb_driver_add_chardev : Answers → ℕ → Holdings → ℤ × Holdings
unfolding add_loop
mb_driver_add_chardev k size h =
    let (ret, xs) = add_loop k.cdev_add size 0 h.cdevs in (ret, record h { cdevs = xs })

unfoldable pub mb_device_create : Answers → ℕ → Holdings → ℤ × Holdings
unfolding add_loop
mb_device_create k size h =
    let (ret, xs) = add_loop k.device_create size 0 h.devices in (ret, record h { devices = xs })

unfoldable pub all_mb_driver_del_chardev : ℕ → Holdings → Holdings
all_mb_driver_del_chardev size h = record h { cdevs = remove_from size 0 h.cdevs }

unfoldable pub all_mb_device_destroy : ℕ → Holdings → Holdings
all_mb_device_destroy size h = record h { devices = remove_from size 0 h.devices }

-- micro_bench_register_driver, with its labels err_dev_create, err_cdev, err_class and err_dev.
unfoldable pub micro_bench_register_driver : Answers → Holdings → ℤ × Holdings
unfolding mb_driver_add_chardev mb_device_create all_mb_driver_del_chardev
micro_bench_register_driver k h =
    let h1 = record h { has_range = true } in
    let h2 = record h1 { has_class = true } in
    let (r3, h3) = mb_driver_add_chardev k mb_minor h2 in
    let (r4, h4) = mb_device_create k mb_minor h3 in
    if is_neg k.alloc_chrdev_region
    then (k.alloc_chrdev_region, h)
    else if is_neg k.class_create
    then (k.class_create, drop_range h1)
    else if is_neg r3
    then (r3, drop_class h3)
    else if is_neg r4
    then (r4, drop_class (all_mb_driver_del_chardev mb_minor h4))
    else (pos 0, h4)

module _ {D : Type 0} where
  -- clean_mb_data of one device.
  abbrev pub clean_mb_data : ℕ → List (Option D) → List (Option D)
  clean_mb_data i v = set v i none

  -- init_micro_bench of device i: whether the memory is found, and the data stored in it.
  abbrev pub init_micro_bench : Bool → ℕ → D → List (Option D) → ℤ × List (Option D)
  init_micro_bench found i d v = if found then (pos 0, set v i (some d)) else (enomem, set v i none)

  abbrev pub err_mb1 : List (Option D) → List (Option D)
  err_mb1 v = clean_mb_data 0 v

  abbrev pub err_mb2 : List (Option D) → List (Option D)
  err_mb2 v = err_mb1 (clean_mb_data 1 v)

  abbrev pub err_mb3 : List (Option D) → List (Option D)
  err_mb3 v = err_mb2 (clean_mb_data 2 v)

  -- init_all_micro_bench, with the data of the four devices.
  unfoldable pub init_all_micro_bench : Answers → (ℕ → D) → List (Option D) → ℤ × List (Option D)
  init_all_micro_bench k d v =
      let (r0, v0) = init_micro_bench (k.kzalloc 0) 0 (d 0) v in
      let (r1, v1) = init_micro_bench (k.kzalloc 1) 1 (d 1) v0 in
      let (r2, v2) = init_micro_bench (k.kzalloc 2) 2 (d 2) v1 in
      let (r3, v3) = init_micro_bench (k.kzalloc 3) 3 (d 3) v2 in
      if is_neg r0
      then (enomem, v0)
      else if is_neg r1
      then (enomem, err_mb1 v1)
      else if is_neg r2
      then (enomem, err_mb2 v2)
      else if is_neg r3
      then (enomem, err_mb3 v3)
      else (pos 0, v3)

  abbrev clean_all : ℕ → ℕ → List (Option D) → List (Option D)
  clean_all zero i v = v
  clean_all (suc n) i v = clean_all n (suc i) (clean_mb_data i v)

  -- The end of micro_benchmark_init, from init_all_micro_bench on.
  unfoldable pub install : {P : Type 0} → Answers → (ℕ → D) → Module D P → ℤ × Module D P
  unfolding init_all_micro_bench micro_bench_register_driver
  install k d m =
      let (r, v) = init_all_micro_bench k d m.vector_mb in
      let (ret, h) = micro_bench_register_driver k m.held in
      if not (is_zero r)
      then (enomem, record m { vector_mb = v })
      else if is_zero ret
      then (pos 0, record m { vector_mb = v; held = h })
      else (ret, record m { vector_mb = clean_all mb_minor 0 v; held = h })

  -- The end of micro_benchmark_exit, once the policy has stopped.
  unfoldable pub uninstall : {P : Type 0} → Module D P → Module D P
  unfolding all_mb_device_destroy all_mb_driver_del_chardev
  uninstall m = record m {
    vector_mb = clean_all mb_minor 0 m.vector_mb;
    held = drop_class (all_mb_driver_del_chardev mb_minor (all_mb_device_destroy mb_minor m.held));
  }
