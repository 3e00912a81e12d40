-- ===== src/Trace/Loading.antt =====
-- What loading and unloading the trace driver leave held
-- (trace/driver/trace_copy.c).
use dmacftu.Prelude.{
  ℕ, ◌≡◌, refl, true, false, List, [], ◌∷◌, ℤ, pos, negsuc, arith, Bool-cases, inl, inr,
  is_neg-cases,
}
use dmacftu.Trace.Module.{
  Holdings, Answers, enomem, undo, add_loop, init_all_trace, trace_register_driver, mem_trace_init,
  mem_trace_exit,
}

abbrev pub nothing_held : Holdings
nothing_held = record {
  regions = [];
  has_range = false;
  has_class = false;
  cdevs = [];
  devices = [];
}

abbrev pub four : List ℕ
four = 0 ∷ 1 ∷ 2 ∷ 3 ∷ []

abbrev pub all_held : Holdings
all_held = record {
  regions = four;
  has_range = true;
  has_class = true;
  cdevs = four;
  devices = four;
}

-- How the loop over the four devices ends.
pub data Added (out : ℤ × List ℕ) : Type 0 where
  all_added : out ≡ (pos 0, four) → Added out
  none_added : (e : ℕ) → out ≡ (negsuc e, []) → Added out

pub add_loop-Added : (answer : ℕ → ℤ) → Added (add_loop answer 4 0 [])
unfolding add_loop undo
add_loop-Added answer = elim (is_neg-cases (answer 0)) [
  | inl (e, z) ↦ none_added e (ground (arith, z))
  | inr ok0 ↦ elim (is_neg-cases (answer 1)) [
    | inl (e, z) ↦ none_added e (ground (arith, z, ok0))
    | inr ok1 ↦ elim (is_neg-cases (answer 2)) [
      | inl (e, z) ↦ none_added e (ground (arith, z, ok0, ok1))
      | inr ok2 ↦ elim (is_neg-cases (answer 3)) [
        | inl (e, z) ↦ none_added e (ground (arith, z, ok0, ok1, ok2))
        | inr ok3 ↦ all_added (ground (arith, ok0, ok1, ok2, ok3))
      ]
    ]
  ]
]

-- The regions: all four, or none.
data Prepared (out : ℤ × Holdings) : Type 0 where
  prepared : out ≡ (pos 0, record nothing_held { regions = four }) → Prepared out
  not_prepared : out ≡ (enomem, nothing_held) → Prepared out

init_all_trace-Prepared : (k : Answers) → Prepared (init_all_trace k nothing_held)
unfolding init_all_trace
init_all_trace-Prepared k = elim (Bool-cases (k.kzalloc 0)) [
  | inr no0 ↦ not_prepared (ground (arith, no0))
  | inl ok0 ↦ elim (Bool-cases (k.kzalloc 1)) [
    | inr no1 ↦ not_prepared (ground (arith, no1, ok0))
    | inl ok1 ↦ elim (Bool-cases (k.kzalloc 2)) [
      | inr no2 ↦ not_prepared (ground (arith, no2, ok0, ok1))
      | inl ok2 ↦ elim (Bool-cases (k.kzalloc 3)) [
        | inr no3 ↦ not_prepared (ground (arith, no3, ok0, ok1, ok2))
        | inl ok3 ↦ prepared (ground (arith, ok0, ok1, ok2, ok3))
      ]
    ]
  ]
]

-- The driver: everything, or nothing besides the regions.
data Registered (out : ℤ × Holdings) : Type 0 where
  registered : out ≡ (pos 0, all_held) → Registered out
  not_registered :
      (e : ℕ) → out ≡ (negsuc e, record nothing_held { regions = four }) → Registered out

trace_register_driver-Registered :
    (k : Answers) → Registered (trace_register_driver k (record nothing_held { regions = four }))
unfolding trace_register_driver
trace_register_driver-Registered k = elim (is_neg-cases k.alloc_chrdev_region) [
  | inl (e, z) ↦ not_registered e (ground (arith, z))
  | inr range ↦ elim (is_neg-cases k.class_create) [
    | inl (e, z) ↦ not_registered e (ground (arith, z, range))
    | inr class ↦ elim (add_loop-Added k.cdev_add) [
      | none_added e z ↦ not_registered e (ground (arith, z, range, class))
      | all_added added ↦ elim (add_loop-Added k.device_create) [
        | none_added e z ↦ not_registered e (ground (arith, z, range, class, added))
        | all_added created ↦ registered (ground (arith, range, class, added, created))
      ]
    ]
  ]
]

-- How loading ends.
pub data Loaded (out : ℤ × Holdings) : Type 0 where
  loaded : out ≡ (pos 0, all_held) → Loaded out
  not_loaded : (e : ℕ) → out ≡ (negsuc e, nothing_held) → Loaded out

-- Whatever the kernel answers, loading the trace driver from nothing held either returns 0 with the four
-- regions, the range of numbers, the class, the four character devices and the four devices held, or
-- returns a negative number with nothing held.
pub mem_trace_init-Loaded : (k : Answers) → Loaded (mem_trace_init k nothing_held)
unfolding mem_trace_init
mem_trace_init-Loaded k = elim (init_all_trace-Prepared k) [
  | not_prepared e ↦ not_loaded 11 (ground (arith, e))
  | prepared e ↦ elim (trace_register_driver-Registered k) [
    | not_registered n z ↦ not_loaded n (ground (arith, e, z))
    | registered z ↦ loaded (ground (arith, e, z))
  ]
]

-- Unloading the trace driver after it was loaded from nothing held gives back all that it held.
pub mem_trace_exit-after_init :
    (k : Answers)
    → (mem_trace_init k nothing_held).0 ≡ pos 0
    → mem_trace_exit (mem_trace_init k nothing_held).1 ≡ nothing_held
unfolding mem_trace_exit
mem_trace_exit-after_init k ok = elim (mem_trace_init-Loaded k) [
  | loaded e ↦ rw e refl
  | not_loaded n e ↦ ground (arith, e, ok)
]
