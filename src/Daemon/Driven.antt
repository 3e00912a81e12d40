-- ===== src/Daemon/Driven.antt =====
-- The daemon of trace/daemon/core_daemon.c on the device file of the trace driver, with the size of the
-- sparse file that init_daemon (trace/daemon/daemon_operation.c) computes.
use dmacftu.Prelude.{
  ℕ, zero, suc, ◌+◌, ◌*◌, ◌^◌, ◌≤◌, ◌<◌, ◌≡◌, ap, true, false, List, [], ◌++◌, map, none, some,
  length, arith, is_neg, IsDistinct, length-append, subst, sym, ◌∙◌, Option-cases, inl, inr,
}
use dmacftu.Trace.{RegionMem, TraceData}
use dmacftu.Trace.Drained.{read_result, read_all}
use dmacftu.Daemon.{Device, World, Host, n_unit, n_char_line, plus_char_line, init_daemon}
use dmacftu.Daemon.Copied.{IsDocumented}
use dmacftu.Daemon.Record.{record_measures}
use dmacftu.Daemon.Ending.{IsClosed, Finished}
use dmacftu.Daemon.Session.{report, clean_kernel_buffer-keeps, record_measures-Finished}
use dmacftu.Daemon.Save.{measures}
use dmacftu.Daemon.Cleaning.{trace_device, clean_kernel_buffer}
use dmacftu.Daemon.Rounds.{measured}
use dmacftu.Daemon.Steady.{
  AreReady, All-elem, measures-few, regions-AreFilled, length-map, device_answer-some, whole-eq,
  trace_device-IsSteady,
}

measured-none :
    (dev : Device) (n : ℕ) (s : dev.State) → (dev.read s).0 ≡ none → measured dev (suc n) s ≡ []
measured-none dev n s e = ground (arith, e)

measured-some :
    (dev : Device) (n : ℕ) (s : dev.State) (rs : List RegionMem)
    → (dev.read s).0 ≡ some rs
    → measured dev (suc n) s ≡ measures rs ++ measured dev n (dev.read s).1
measured-some dev n s rs e = ground (arith, e)

module _ (cpus : List ℕ) (size_reg size_r : ℕ) (left : ℕ → ℕ) (distinct : IsDistinct cpus)
    (few : length cpus < 20_000) where
  regions-few :
      (s : ℕ × TraceData) (rs : List RegionMem)
      → AreReady cpus s
      → ((trace_device cpus size_reg size_r left).read s).0 ≡ some rs
      → length (measures rs) ≤ n_unit * length cpus
  regions-few s rs g e =
      let rs' = map (read_all n_unit cpus s.1).ptr_region cpus in
      let given : rs' ≡ rs =
        whole-eq cpus size_r (read_result size_reg (left s.0)) (read_all n_unit cpus s.1) rs
          (sym (ap (λ z. z.0) (device_answer-some cpus size_reg size_r left s g.1)) ∙ e) in
      let filled =
        measures-few rs' (regions-AreFilled cpus distinct s.1 cpus g.0 (All-elem cpus)) in
      subst (λ xs. length (measures xs) ≤ n_unit * length cpus) given
        (omega (arith, filled, length-map (read_all n_unit cpus s.1).ptr_region cpus))

  -- At most 500 measures for each CPU and read.
  measured-few :
      (n : ℕ) (s : ℕ × TraceData)
      → AreReady cpus s
      → length (measured (trace_device cpus size_reg size_r left) n s) ≤ n * (n_unit * length cpus)
  measured-few zero s g = omega arith
  measured-few (suc n) s g =
      let dev = trace_device cpus size_reg size_r left in
      let steady = trace_device-IsSteady cpus size_reg size_r left distinct few in
      elim (Option-cases (dev.read s).0) [
        | inl e ↦ rw (measured-none dev n s e) (omega arith)
        | inr (rs, e) ↦
            let later = measured dev n (dev.read s).1 in
            let rest = measured-few n (dev.read s).1 (steady.keeps s g) in
            let step : suc n * (n_unit * length cpus)
                ≡ n_unit * length cpus + n * (n_unit * length cpus) =
              grind arith in
            rw (measured-some dev n s rs e)
              (omega (arith, length-append (measures rs) later, regions-few s rs g e, rest, step))
      ]

-- The size that init_daemon computes, where the `int` does not overflow.
size_max-exact :
    (n_cpu n : ℕ)
    → (n + plus_char_line) * n_unit * n_char_line * n_cpu < 2 ^ 31
    → (init_daemon n_cpu n).size_max ≡ (n + plus_char_line) * n_unit * n_char_line * n_cpu
unfolding init_daemon
size_max-exact n_cpu n h = ground (arith, h)

size_max-room :
    (l n k : ℕ)
    → 0 < l
    → k ≤ n * (n_unit * l)
    → n_char_line + n_char_line * k ≤ (n + plus_char_line) * n_unit * n_char_line * l
size_max-room l n k some_cpu h =
    let spread : (n + 5) * 500 * 200 * l ≡ 200 * (n * (500 * l)) + 500_000 * l = grind arith in
    omega (arith, some_cpu, h, spread)

-- A run of the daemon, for n reads, on the device file of the trace driver with valid buffers, where the
-- present CPUs are distinct, at least one and fewer than 20000, have a region of the driver each, and are
-- so few that the size of the sparse file, computed in an `int` by init_daemon for these CPUs and reads,
-- does not overflow. Where `read` and `write` of the copy are as documented, nothing is open before, and
-- neither the memory of the region, nor that of the copy, nor the opening of the device, nor the `lseek`
-- before the copy fails: the run ends, writes nothing outside its mappings and the sparse file, closes and
-- frees once all that it has opened and allocated, and returns 0 with the first row and a line for each
-- measure that the reads give in the regular file, or a negative number.
pub trace_session-Finished :
    (cpus : List ℕ) (size_reg size_r : ℕ) (left : ℕ → ℕ) (host : Host) (n : ℕ)
    (w : World (ℕ × TraceData))
    → IsDistinct cpus
    → 0 < length cpus
    → length cpus < 20_000
    → (n + plus_char_line) * n_unit * n_char_line * length cpus < 2 ^ 31
    → AreReady cpus w.device
    → IsClosed w
    → IsDocumented host
    → host.malloc_page ≡ true
    → host.malloc_region ≡ true
    → is_neg host.open_dev ≡ false
    → is_neg host.seek_start ≡ false
    → Finished (report (trace_device cpus size_reg size_r left) n w.device) (
        record_measures
          (trace_device cpus size_reg size_r left)
          host
          n
          (init_daemon (length cpus) n)
          w)
trace_session-Finished cpus size_reg size_r left host n w distinct some_cpu few small ready =
    let dev = trace_device cpus size_reg size_r left in
    let steady = trace_device-IsSteady cpus size_reg size_r left distinct few in
    let start = (clean_kernel_buffer dev w.device).1 in
    let count =
      measured-few cpus size_reg size_r left distinct few n start
        (clean_kernel_buffer-keeps dev steady w.device ready) in
    let exact = size_max-exact (length cpus) n small in
    let room = size_max-room (length cpus) n (length (measured dev n start)) some_cpu count in
    record_measures-Finished dev host n (init_daemon (length cpus) n) w steady ready
      (subst (λ m. n_char_line + n_char_line * length (measured dev n start) ≤ m) (sym exact) room)
