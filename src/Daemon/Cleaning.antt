-- ===== src/Daemon/Cleaning.antt =====
-- Discarding old measures: clean_kernel_buffer of trace/daemon/core_daemon.c, and the device file as
-- the trace driver serves it (trace/driver/driverops.c).
use dmacftu.Prelude.{
  ℕ, zero, suc, ◌+◌, ◌-◌, ◌*◌, ◌/◌, ◌≤◌, ◌<◌, ◌≡◌, refl, ap, true, List, [], ◌∷◌, map, Option, none,
  some, length, if◌then◌else◌, arith, ℤ, pos, IsDistinct, elem, length-drop, sym, ◌∙◌, subst, All,
}
use dmacftu.CircularBuffer.{CircularBuffer, circ_buff_size, UnitBuff}
use dmacftu.CircularBuffer.Contents.{IsValid, contents, length-window}
use dmacftu.Pin.{int_eq}
use dmacftu.Trace.{RegionMem, TraceData, trace_driver_read, trace_driver_lseek}
use dmacftu.Trace.Drained.{
  HaveRegions, read_all, read_all-count_region, read_all-Drained, read_all-IsValid,
  trace_driver_read-some,
}
use dmacftu.Daemon.{Device, n_unit, kernel_unit_buffer, efault}

module _ (dev : Device) where
  -- The loop of clean_kernel_buffer, with this many rounds left.
  unfoldable pub clean_loop : ℕ → dev.State → ℤ × dev.State
  clean_loop zero s = (pos 0, s)
  clean_loop (suc n) s =
      let (got, s') = dev.read s in
      let rest = clean_loop n s' in elim got [ none ↦ (efault, s') | some rs ↦ rest ]

  unfoldable pub clean_kernel_buffer : dev.State → ℤ × dev.State
  unfolding clean_loop
  clean_kernel_buffer s = clean_loop (kernel_unit_buffer / n_unit + 1) s

pub clean_loop-some :
    (dev : Device) (n : ℕ) (s : dev.State) (rs : List RegionMem)
    → (dev.read s).0 ≡ some rs
    → clean_loop dev (suc n) s ≡ clean_loop dev n (dev.read s).1
unfolding clean_loop
clean_loop-some dev n s rs e = ground (arith, e)

-- The regions, if as many bytes were read as were asked for.
abbrev pub whole_read : ℕ → List ℕ → ℤ × TraceData → Option (List RegionMem)
whole_read size_r cpus (ret, t) =
    if int_eq ret (pos size_r) then some (map t.ptr_region cpus) else none

-- The regions that a read gives, and the state after it. An access past the end of the driver's regions,
-- after which nothing is known, counts as a failed read.
abbrev pub device_answer :
    ℕ → List ℕ → ℕ × TraceData → Option (ℤ × TraceData) → Option (List RegionMem) × (ℕ × TraceData)
device_answer size_r cpus (k, t) none = (none, (suc k, t))
device_answer size_r cpus (k, t) (some (ret, t')) = (whole_read size_r cpus (ret, t'), (suc k, t'))

-- The device file of the trace driver: the present CPUs, the size of the regions in the driver and in
-- the daemon, and what copy_to_user_pure returns in each round. The state has the round and the data.
abbrev pub trace_device : List ℕ → ℕ → ℕ → (ℕ → ℕ) → Device
trace_device cpus size_reg size_r left = record {
  State = ℕ × TraceData;
  read =
      λ s. device_answer size_r cpus s (trace_driver_read true n_unit cpus size_reg (left s.0) s.1);
  lseek = λ s. (trace_driver_lseek 0 (pos 0) 0).0;
}

module _ (cpus : List ℕ) (size_r : ℕ) (left : ℕ → ℕ) (distinct : IsDistinct cpus)
    (copied : (k : ℕ) → left k ≡ 0) where
  -- The data after a read.
  abbrev next : TraceData → TraceData
  next t = read_all n_unit cpus t

  read-next :
      (k : ℕ) (t : TraceData)
      → HaveRegions cpus t
      → (trace_device cpus size_r size_r left).read (k, t)
        ≡ (some (map (next t).ptr_region cpus), (suc k, next t))
  read-next k t a =
      ap (device_answer size_r cpus (k, t)) (trace_driver_read-some n_unit size_r (left k) cpus t a)
      ∙ ground (arith, copied k)

  next-HaveRegions : (t : TraceData) → HaveRegions cpus t → HaveRegions cpus (next t)
  next-HaveRegions t a =
      subst (λ n. All (λ c. c < n) cpus) (sym (read_all-count_region n_unit cpus t)) a

  read-shorter :
      (j : ℕ) (t : TraceData)
      → ((i : ℕ) → IsValid (t.ptr_cb i))
      → elem j cpus ≡ true
      → length (contents ((next t).ptr_cb j)) ≡ length (contents (t.ptr_cb j)) - n_unit
  read-shorter j t v e =
      let d = read_all-Drained n_unit j cpus t distinct v e in
      omega (
        arith,
        ap length d.removed,
        d.counted,
        length-drop ((next t).ptr_region j).count (contents (t.ptr_cb j)),
      )

  clean_loop-next :
      (n k : ℕ) (t : TraceData)
      → HaveRegions cpus t
      → clean_loop (trace_device cpus size_r size_r left) (suc n) (k, t)
        ≡ clean_loop (trace_device cpus size_r size_r left) n (suc k, next t)
  clean_loop-next n k t a =
      let answer = read-next k t a in
      clean_loop-some (trace_device cpus size_r size_r left) n (k, t) (map (next t).ptr_region cpus)
        (ap (λ z. z.0) answer)
      ∙ ap (λ z. clean_loop (trace_device cpus size_r size_r left) n z.1) answer

  -- After n rounds of at most 500 measures.
  clean_loop-empties :
      (n k j : ℕ) (t : TraceData)
      → ((i : ℕ) → IsValid (t.ptr_cb i))
      → HaveRegions cpus t
      → elem j cpus ≡ true
      → ((clean_loop (trace_device cpus size_r size_r left) n (k, t)).0 ≡ pos 0)
        × (length
              (contents ((clean_loop (trace_device cpus size_r size_r left) n (k, t)).1.1.ptr_cb j))
            ≡ length (contents (t.ptr_cb j)) - n * n_unit)
  unfolding clean_loop
  clean_loop-empties zero k j t v a e = (refl, omega arith)
  clean_loop-empties (suc n) k j t v a e =
      let (ret, len) =
        clean_loop-empties n (suc k) j (next t) (read_all-IsValid n_unit cpus t v)
          (next-HaveRegions t a) e in
      rw (clean_loop-next n k t a) (ret, omega (arith, len, read-shorter j t v e))

contents-lt-size : (cb : CircularBuffer) → IsValid cb → length (contents cb) < cb.size
contents-lt-size cb v = ground (
  arith,
  v.storage,
  v.start_in,
  v.end_in,
  length-window cb.array_element cb.start cb.end (omega arith) (omega arith),
)

nil-of_length : (us : List UnitBuff) → length us ≡ 0 → us ≡ []
nil-of_length [] e = refl
nil-of_length (u ∷ us) e = absurd (omega (arith, e))

-- The old measures are discarded: where the buffers of the CPUs are valid with at most 1024 elements,
-- the present CPUs are distinct with numbers below the number of the driver's regions, the daemon's
-- regions have the size of the driver's and reach it in each round, clean_kernel_buffer returns 0 and
-- leaves the buffer of each present CPU empty.
pub clean_kernel_buffer-empties :
    (cpus : List ℕ) (size_r : ℕ) (left : ℕ → ℕ) (k j : ℕ) (t : TraceData)
    → IsDistinct cpus
    → ((n : ℕ) → left n ≡ 0)
    → ((i : ℕ) → IsValid (t.ptr_cb i))
    → All (λ c. c < t.count_region) cpus
    → elem j cpus ≡ true
    → (t.ptr_cb j).size ≤ circ_buff_size
    → ((clean_kernel_buffer (trace_device cpus size_r size_r left) (k, t)).0 ≡ pos 0)
      × (contents ((clean_kernel_buffer (trace_device cpus size_r size_r left) (k, t)).1.1.ptr_cb j)
          ≡ [])
unfolding clean_kernel_buffer
clean_kernel_buffer-empties cpus size_r left k j t d c v a e small =
    let (ret, len) = clean_loop-empties cpus size_r left d c 3 k j t v a e in
    (ret, nil-of_length _ (omega (arith, len, contents-lt-size (t.ptr_cb j) (v j), small)))
