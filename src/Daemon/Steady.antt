-- ===== src/Daemon/Steady.antt =====
-- The device file of the trace driver (trace/driver/driverops.c) gives regions with measures for their
-- counts, as the daemon (trace/daemon/core_daemon.c) expects.
use dmacftu.Prelude.{
  ℕ, suc, ◌*◌, ◌≤◌, ◌<◌, ◌≡◌, refl, ap, true, List, [], ◌∷◌, map, some, length, take, All, arith,
  elem, IsDistinct, length-take, length-append, subst, sym, ◌∙◌, ℤ,
}
use dmacftu.CircularBuffer.Contents.{IsValid, contents}
use dmacftu.Trace.{RegionMem, TraceData}
use dmacftu.Trace.Drained.{
  HaveRegions, read_result, read_all, read_all-count_region, read_all-Drained, read_all-IsValid,
  trace_driver_read-some,
}
use dmacftu.Daemon.{n_unit}
use dmacftu.Daemon.Save.{measures}
use dmacftu.Daemon.Saving.{AreCounted}
use dmacftu.Daemon.Cleaning.{whole_read, device_answer, trace_device}
use dmacftu.Daemon.Rounds.{IsSteady}

-- The buffers of all CPUs are valid, and each present CPU has a region.
abbrev pub AreReady : List ℕ → ℕ × TraceData → Type 0
AreReady cpus s = ((i : ℕ) → IsValid (s.1.ptr_cb i)) × HaveRegions cpus s.1

elem-cons : (c d : ℕ) (cs : List ℕ) → elem c cs ≡ true → elem c (d ∷ cs) ≡ true
elem-cons c d cs e = ground (arith, e)

All-elem_cons :
    (d : ℕ) (cs ds : List ℕ) → All (λ c. elem c cs ≡ true) ds → All (λ c. elem c (d ∷ cs) ≡ true) ds
All-elem_cons d cs [] a = tt
All-elem_cons d cs (e ∷ ds) a = (elem-cons e d cs a.0, All-elem_cons d cs ds a.1)

pub All-elem : (cs : List ℕ) → All (λ c. elem c cs ≡ true) cs
All-elem [] = tt
All-elem (c ∷ cs) = (ground arith, All-elem_cons c cs cs (All-elem cs))

-- A region with at most 500 measures, all of them there.
abbrev IsFilled : RegionMem → Type 0
IsFilled r = (r.count ≤ length r.buffer) × (r.count ≤ n_unit)

pub measures-few :
    (rs : List RegionMem) → All IsFilled rs → length (measures rs) ≤ n_unit * length rs
unfolding measures
measures-few [] a = omega arith
measures-few (r ∷ rs) a = omega (
  arith,
  a.0,
  length-append (take r.count r.buffer) (measures rs),
  length-take r.count r.buffer,
  measures-few rs a.1,
)

All-stored : (rs : List RegionMem) → All IsFilled rs → All (λ r. r.count ≤ length r.buffer) rs
All-stored [] a = tt
All-stored (r ∷ rs) a = (a.0.0, All-stored rs a.1)

pub length-map : (f : ℕ → RegionMem) (cs : List ℕ) → length (map f cs) ≡ length cs
length-map f [] = refl
length-map f (c ∷ cs) = ap suc (length-map f cs)

module _ (cpus : List ℕ) (distinct : IsDistinct cpus) where
  abbrev after : TraceData → TraceData
  after t = read_all n_unit cpus t

  region-IsFilled :
      (c : ℕ) (t : TraceData)
      → ((i : ℕ) → IsValid (t.ptr_cb i))
      → elem c cpus ≡ true
      → IsFilled ((after t).ptr_region c)
  region-IsFilled c t v e =
      let d = read_all-Drained n_unit c cpus t distinct v e in
      let reg : RegionMem = (after t).ptr_region c in
      let copied = ap length d.copied in
      (
        omega (
          arith,
          copied,
          d.counted,
          length-take reg.count reg.buffer,
          length-take reg.count (contents (t.ptr_cb c)),
        ),
        omega (arith, d.counted),
      )

  pub regions-AreFilled :
      (t : TraceData) (cs : List ℕ)
      → ((i : ℕ) → IsValid (t.ptr_cb i))
      → All (λ c. elem c cpus ≡ true) cs
      → All IsFilled (map (after t).ptr_region cs)
  regions-AreFilled t [] v a = tt
  regions-AreFilled t (c ∷ cs) v a = (region-IsFilled c t v a.0, regions-AreFilled t cs v a.1)

AreCounted-filled : (rs : List RegionMem) → All IsFilled rs → length rs < 20_000 → AreCounted rs
AreCounted-filled rs a few = record {
  stored = All-stored rs a;
  few = omega (arith, measures-few rs a);
}

pub device_answer-some :
    (cpus : List ℕ) (size_reg size_r : ℕ) (left : ℕ → ℕ) (s : ℕ × TraceData)
    → HaveRegions cpus s.1
    → (trace_device cpus size_reg size_r left).read s ≡ (
      whole_read size_r cpus (read_result size_reg (left s.0), read_all n_unit cpus s.1),
      (suc s.0, read_all n_unit cpus s.1),
    )
device_answer-some cpus size_reg size_r left s a =
    ap (device_answer size_r cpus s) (trace_driver_read-some n_unit size_reg (left s.0) cpus s.1 a)

pub whole-eq :
    (cpus : List ℕ) (size_r : ℕ) (ret : ℤ) (t : TraceData) (rs : List RegionMem)
    → whole_read size_r cpus (ret, t) ≡ some rs
    → map t.ptr_region cpus ≡ rs
whole-eq cpus size_r ret t rs e = ground (arith, e)

-- The device file keeps the buffers valid and gives counted regions, for fewer than 20000 present CPUs
-- that are distinct and have a region each.
pub trace_device-IsSteady :
    (cpus : List ℕ) (size_reg size_r : ℕ) (left : ℕ → ℕ)
    → IsDistinct cpus
    → length cpus < 20_000
    → IsSteady (trace_device cpus size_reg size_r left) (AreReady cpus)
trace_device-IsSteady cpus size_reg size_r left distinct few = record {
  keeps = λ s g.
      subst (λ z. AreReady cpus z.1) (sym (device_answer-some cpus size_reg size_r left s g.1))
        (
          read_all-IsValid n_unit cpus s.1 g.0,
          subst (λ n. All (λ c. c < n) cpus) (sym (read_all-count_region n_unit cpus s.1)) g.1,
        );
  counts = λ s rs g e.
      let given =
        whole-eq cpus size_r (read_result size_reg (left s.0)) (read_all n_unit cpus s.1) rs
          (sym (ap (λ z. z.0) (device_answer-some cpus size_reg size_r left s g.1)) ∙ e) in
      subst AreCounted given (
        AreCounted-filled (map (read_all n_unit cpus s.1).ptr_region cpus)
          (regions-AreFilled cpus distinct s.1 cpus g.0 (All-elem cpus))
          (rw (length-map (read_all n_unit cpus s.1).ptr_region cpus) few));
}
