-- ===== src/Trace/Module.antt =====
-- Loading and unloading the trace driver: trace/driver/trace_copy.c, with trace_driver_add_chardev,
-- trace_device_create and the two removals of trace/driver/driverops.c, and init_trace_dev of
-- trace/driver/core_trace_copy.c. The state is what the module holds of the kernel.
use dmacftu.Prelude.{
  ℕ, zero, suc, Bool, true, false, List, [], ◌∷◌, ◌++◌, ◌==◌, if◌then◌else◌, ℤ, pos, negsuc, is_neg,
}

-- The regions allocated, the range of device numbers, the class, the character devices added and the
-- devices created, each device by its minor number.
pub record Holdings : Type 0 where
  pub regions : List ℕ
  pub has_range : Bool
  pub has_class : Bool
  pub cdevs : List ℕ
  pub devices : List ℕ

-- What the kernel answers: whether the memory of a region is found, and the results of
-- alloc_chrdev_region, class_create, cdev_add and device_create, negative for an error.
pub record Answers : Type 0 where
  pub kzalloc : ℕ → Bool
  pub alloc_chrdev_region : ℤ
  pub class_create : ℤ
  pub cdev_add : ℕ → ℤ
  pub device_create : ℕ → ℤ

abbrev pub trace_minor : ℕ
trace_minor = 4

abbrev pub enomem : ℤ
enomem = negsuc 11

-- Giving back one of a kind.
abbrev pub remove : ℕ → List ℕ → List ℕ
remove i [] = []
remove i (x ∷ xs) = if x == i then xs else x ∷ remove i xs

-- The loops `while (i >= 0)` after an error, for the numbers below i.
unfoldable pub undo : ℕ → List ℕ → List ℕ
undo zero xs = xs
undo (suc i) xs = undo i (remove i xs)

-- The loop that trace_driver_add_chardev and trace_device_create share: `n` devices are left, and the
-- next is number i.
unfoldable pub add_loop : (ℕ → ℤ) → ℕ → ℕ → List ℕ → ℤ × List ℕ
unfolding undo
add_loop answer zero i xs = (pos 0, xs)
add_loop answer (suc n) i xs =
    let rest = add_loop answer n (suc i) (xs ++ i ∷ []) in
    if is_neg (answer i) then (answer i, undo i xs) else rest

unfoldable pub trace_driver_add_chardev : Answers → ℕ → Holdings → ℤ × Holdings
unfolding add_loop
trace_driver_add_chardev k size h =
    let (ret, xs) = add_loop k.cdev_add size 0 h.cdevs in (ret, record h { cdevs = xs })

unfoldable pub trace_device_create : Answers → ℕ → Holdings → ℤ × Holdings
unfolding add_loop
trace_device_create k size h =
    let (ret, xs) = add_loop k.device_create size 0 h.devices in (ret, record h { devices = xs })

-- The loops over all numbers from i on.
abbrev pub remove_from : ℕ → ℕ → List ℕ → List ℕ
remove_from zero i xs = xs
remove_from (suc n) i xs = remove_from n (suc i) (remove i xs)

unfoldable pub all_trace_driver_del_chardev : ℕ → Holdings → Holdings
all_trace_driver_del_chardev size h = record h { cdevs = remove_from size 0 h.cdevs }

unfoldable pub all_trace_device_destroy : ℕ → Holdings → Holdings
all_trace_device_destroy size h = record h { devices = remove_from size 0 h.devices }

abbrev pub clean_trace_region_mem : ℕ → Holdings → Holdings
clean_trace_region_mem i h = record h { regions = remove i h.regions }

abbrev pub init_trace_dev : Answers → ℕ → Holdings → ℤ × Holdings
init_trace_dev k i h =
    if k.kzalloc i then (pos 0, record h { regions = h.regions ++ i ∷ [] }) else (enomem, h)

abbrev pub err_trace1 : Holdings → Holdings
err_trace1 h = clean_trace_region_mem 0 h

abbrev pub err_trace2 : Holdings → Holdings
err_trace2 h = err_trace1 (clean_trace_region_mem 1 h)

abbrev pub err_trace3 : Holdings → Holdings
err_trace3 h = err_trace2 (clean_trace_region_mem 2 h)

-- init_all_trace, with its labels err_trace1 to err_trace3.
unfoldable pub init_all_trace : Answers → Holdings → ℤ × Holdings
init_all_trace k h =
    let (r0, h0) = init_trace_dev k 0 h in
    let (r1, h1) = init_trace_dev k 1 h0 in
    let (r2, h2) = init_trace_dev k 2 h1 in
    let (r3, h3) = init_trace_dev k 3 h2 in
    if is_neg r0
    then (enomem, h0)
    else if is_neg r1
    then (enomem, err_trace1 h1)
    else if is_neg r2
    then (enomem, err_trace2 h2)
    else if is_neg r3
    then (enomem, err_trace3 h3)
    else (pos 0, h3)

abbrev pub drop_range : Holdings → Holdings
drop_range h = record h { has_range = false }

abbrev pub drop_class : Holdings → Holdings
drop_class h = drop_range (record h { has_class = false })

-- trace_register_driver, with its labels err_dev_create, err_cdev and err_class.
unfoldable pub trace_register_driver : Answers → Holdings → ℤ × Holdings
unfolding trace_driver_add_chardev trace_device_create all_trace_driver_del_chardev
trace_register_driver k h =
    let h1 = record h { has_range = true } in
    let h2 = record h1 { has_class = true } in
    let (r3, h3) = trace_driver_add_chardev k trace_minor h2 in
    let (r4, h4) = trace_device_create k trace_minor h3 in
    if is_neg k.alloc_chrdev_region
    then (k.alloc_chrdev_region, h)
    else if is_neg k.class_create
    then (k.class_create, drop_range h1)
    else if is_neg r3
    then (r3, drop_class h3)
    else if is_neg r4
    then (r4, drop_class (all_trace_driver_del_chardev trace_minor h4))
    else (pos 0, h4)

abbrev pub clean_regions : ℕ → ℕ → Holdings → Holdings
clean_regions zero i h = h
clean_regions (suc n) i h = clean_regions n (suc i) (clean_trace_region_mem i h)

abbrev pub is_zero : ℤ → Bool
is_zero (pos n) = n == 0
is_zero (negsuc n) = false

-- mem_trace_init.
unfoldable pub mem_trace_init : Answers → Holdings → ℤ × Holdings
unfolding init_all_trace trace_register_driver
mem_trace_init k h =
    let (r, h') = init_all_trace k h in
    let (ret, h'') = trace_register_driver k h' in
    if is_neg r
    then (r, h')
    else if is_zero ret
    then (pos 0, h'')
    else (ret, clean_regions trace_minor 0 h'')

-- mem_trace_exit.
unfoldable pub mem_trace_exit : Holdings → Holdings
unfolding all_trace_device_destroy all_trace_driver_del_chardev
mem_trace_exit h =
    clean_regions trace_minor 0 (
      drop_class
        (all_trace_driver_del_chardev trace_minor (all_trace_device_destroy trace_minor h)))
