-- ===== src/Uaccess/Boot.antt =====
-- The buffers of the traces at boot, source/init/boot_trace_copy_tofrom.c (boot_init_trace_copy).
use dmacftu.Prelude.{
  ℕ, ◌≡◌, refl, Bool, true, false, List, [], ◌∷◌, ◌==◌, if◌then◌else◌, elem, arith, ℕ_discrete,
}
use dmacftu.CircularBuffer.{cb_init}
use dmacftu.CircularBuffer.Contents.{IsValid, contents}
use dmacftu.CircularBuffer.Refine.{cb_init-IsValid}
use dmacftu.Uaccess.{Kind, checked_from, checked_to, raw_from, raw_to, Traces, buffers, set_buffer}

-- The turn of one CPU in boot_init_trace_copy; the function says where kzalloc finds the memory.
abbrev pub boot_cpu : (Kind → ℕ → Bool) → ℕ → Traces → Traces
boot_cpu allocated i t =
    let t1 = set_buffer checked_to t i (cb_init (allocated checked_to i)) in
    let t2 = set_buffer checked_from t1 i (cb_init (allocated checked_from i)) in
    let t3 = set_buffer raw_to t2 i (cb_init (allocated raw_to i)) in
    set_buffer raw_from t3 i (cb_init (allocated raw_from i))

-- boot_init_trace_copy, over the present CPUs.
unfoldable pub boot_init_trace_copy : (Kind → ℕ → Bool) → List ℕ → Traces → Traces
boot_init_trace_copy allocated [] t = t
boot_init_trace_copy allocated (i ∷ cpus) t =
    boot_init_trace_copy allocated cpus (boot_cpu allocated i t)

boot_cpu-buffers :
    (allocated : Kind → ℕ → Bool) (kind : Kind) (i j : ℕ) (t : Traces)
    → buffers kind (boot_cpu allocated i t) j
      ≡ (if j == i then cb_init (allocated kind i) else buffers kind t j)
boot_cpu-buffers allocated checked_from i j t = refl
boot_cpu-buffers allocated checked_to i j t = refl
boot_cpu-buffers allocated raw_from i j t = refl
boot_cpu-buffers allocated raw_to i j t = refl

boot_buffers :
    (allocated : Kind → ℕ → Bool) (kind : Kind) (j : ℕ) (cpus : List ℕ) (t : Traces)
    → buffers kind (boot_init_trace_copy allocated cpus t) j
      ≡ (if elem j cpus then cb_init (allocated kind j) else buffers kind t j)
unfolding boot_init_trace_copy
boot_buffers allocated kind j [] t = refl
boot_buffers allocated kind j (i ∷ cpus) t =
    let turn = boot_cpu-buffers allocated kind i j t in
    let rest = boot_buffers allocated kind j cpus (boot_cpu allocated i t) in
    elim (ℕ_discrete j i) [
      | yes here ↦ ground (arith, turn, rest, here)
      | no away ↦ ground (arith, turn, rest, away)
    ]

-- After boot_init_trace_copy, each buffer of a present CPU whose memory was found is valid and holds no
-- measure, and each buffer of another CPU is as it was.
pub boot_init_trace_copy-IsValid :
    (allocated : Kind → ℕ → Bool) (kind other : Kind) (j k : ℕ) (cpus : List ℕ) (t : Traces)
    → elem j cpus ≡ true
    → allocated kind j ≡ true
    → elem k cpus ≡ false
    → IsValid (buffers kind (boot_init_trace_copy allocated cpus t) j)
      × (contents (buffers kind (boot_init_trace_copy allocated cpus t) j) ≡ [])
      × (buffers other (boot_init_trace_copy allocated cpus t) k ≡ buffers other t k)
boot_init_trace_copy-IsValid allocated kind other j k cpus t present found absent =
    let fresh : buffers kind (boot_init_trace_copy allocated cpus t) j ≡ cb_init true =
      ground (arith, present, found, boot_buffers allocated kind j cpus t) in
    let kept : buffers other (boot_init_trace_copy allocated cpus t) k ≡ buffers other t k =
      ground (arith, absent, boot_buffers allocated other k cpus t) in
    rw fresh (cb_init-IsValid.0, cb_init-IsValid.1, kept)
