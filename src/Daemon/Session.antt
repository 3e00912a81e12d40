-- ===== src/Daemon/Session.antt =====
-- What a run of the daemon leaves in the regular file, and that it closes what it opened
-- (trace/daemon/core_daemon.c, record_measures).
use dmacftu.Prelude.{
  ℕ, zero, suc, ◌+◌, ◌-◌, ◌≡◌, refl, ap, true, false, List, [], ◌++◌, Option, none, ℤ, pos, negsuc,
  is_neg, length, take, take-all, replicate, subst, ◌*◌, ◌≤◌, arith, Bool-cases, is_neg-cases,
  Option-cases, inl, inr,
}
use dmacftu.Daemon.{n_char_line, efault, DaemonTrace, take_one, Device, World, Host}
use dmacftu.Daemon.Text.{first_row, lines_of}
use dmacftu.Daemon.Lines.{first_row-IsText}
use dmacftu.Daemon.Mapping.{holds}
use dmacftu.Daemon.Save.{Outcome, daemon_create_sparse_file, sparse_first_row}
use dmacftu.Daemon.Saving.{Records}
use dmacftu.Daemon.Copied.{IsDocumented}
use dmacftu.Daemon.Cleaning.{clean_kernel_buffer, clean_loop, clean_loop-some}
use dmacftu.Daemon.Record.{
  after_loop, after_clean, with_sparse, after_first_row, after_create, record_measures, close_sp,
}
use dmacftu.Daemon.Rounds.{IsSteady, measured, Looped, looped, not_looped, record_loop-Looped}
use dmacftu.Daemon.Ending.{
  IsClosed, IsRunning, Finished, not_finished, err_rec4-IsClosed, copy_out-Finished,
}

first_row-short : length first_row ≤ n_char_line
first_row-short = omega arith

-- How the discarding ends.
data Cleaned (dev : Device) (Good : dev.State → Type 0) (out : ℤ × dev.State) : Type 0 where
  cleaned : (s : dev.State) → out ≡ (pos 0, s) → Good s → Cleaned dev Good out
  not_cleaned : (s : dev.State) (e : ℕ) → out ≡ (negsuc e, s) → Cleaned dev Good out

module _ (dev : Device) {Good : dev.State → Type 0} (steady : IsSteady dev Good) where
  clean_loop-Cleaned : (n : ℕ) (s : dev.State) → Good s → Cleaned dev Good (clean_loop dev n s)
  unfolding clean_loop
  clean_loop-Cleaned zero s g = cleaned s refl g
  clean_loop-Cleaned (suc n) s g = elim (Option-cases (dev.read s).0) [
    | inl e ↦ not_cleaned (dev.read s).1 13 (ground (arith, e))
    | inr (rs, e) ↦
        rw (clean_loop-some dev n s rs e) (clean_loop-Cleaned n (dev.read s).1 (steady.keeps s g))
  ]

  clean_loop-none :
      (n : ℕ) (s : dev.State)
      → (dev.read s).0 ≡ none
      → clean_loop dev (suc n) s ≡ (efault, (dev.read s).1)
  unfolding clean_loop
  clean_loop-none n s e = ground (arith, e)

  clean_loop-keeps : (n : ℕ) (s : dev.State) → Good s → Good (clean_loop dev n s).1
  unfolding clean_loop
  clean_loop-keeps zero s g = g
  clean_loop-keeps (suc n) s g = elim (Option-cases (dev.read s).0) [
    | inl e ↦ rw (clean_loop-none n s e) (steady.keeps s g)
    | inr (rs, e) ↦
        rw (clean_loop-some dev n s rs e) (clean_loop-keeps n (dev.read s).1 (steady.keeps s g))
  ]

  pub clean_kernel_buffer-keeps : (s : dev.State) → Good s → Good (clean_kernel_buffer dev s).1
  unfolding clean_kernel_buffer
  clean_kernel_buffer-keeps s g = clean_loop-keeps 3 s g

  clean_kernel_buffer-Cleaned :
      (s : dev.State) → Good s → Cleaned dev Good (clean_kernel_buffer dev s)
  unfolding clean_kernel_buffer
  clean_kernel_buffer-Cleaned s g = clean_loop-Cleaned 3 s g

module _ (dev : Device) (host : Host) (doc : IsDocumented host) (page : host.malloc_page ≡ true)
    (rewound : is_neg host.seek_start ≡ false) where
  after_loop-Finished :
      (text : List ℕ) (d : DaemonTrace) (w : World dev.State) (out : Option (Outcome dev.State))
      → IsRunning w
      → Looped text d w out
      → Finished text (after_loop dev host out)
  after_loop-Finished text d w out u (looped offset sparse s e r) = rw e (
      copy_out-Finished host doc page rewound text (record d { offset_map = offset })
        (record w { sparse = sparse; device = s }) r
        (record { sp = u.sp; fl = u.fl; dev = u.dev; memory = u.memory }))
  after_loop-Finished text d w out u (not_looped err offset sparse s e) = rw e (
      not_finished err _ _ refl (
        err_rec4-IsClosed err (record d { offset_map = offset })
          (record w { sparse = sparse; device = s })
          (record { sp = u.sp; fl = u.fl; dev = u.dev; memory = u.memory })))

  after_clean-Finished :
      (n : ℕ) (text : List ℕ) (d : DaemonTrace) (w : World dev.State) {Good : dev.State → Type 0}
      (out : ℤ × dev.State)
      → IsSteady dev Good
      → Records text d w.sparse
      → length text + 200 * length (measured dev n out.1) ≤ w.size
      → IsRunning w
      → Cleaned dev Good out
      → Finished (text ++ lines_of (measured dev n out.1)) (after_clean dev host n d w out)
  after_clean-Finished n text d w out steady r room u (cleaned s e good) = rw e (
      after_loop-Finished (text ++ lines_of (measured dev n s)) d (record w { device = s }) _
        (record { sp = u.sp; fl = u.fl; dev = u.dev; memory = u.memory })
        (record_loop-Looped dev host n 0 text d (record w { device = s }) steady good r
          (subst (λ z. length text + 200 * length (measured dev n z.1) ≤ w.size) e room)))
  after_clean-Finished n text d w out steady r room u (not_cleaned s err e) = rw e (
      not_finished err _ _ refl (
        err_rec4-IsClosed err d (record w { device = s })
          (record { sp = u.sp; fl = u.fl; dev = u.dev; memory = u.memory })))

-- How sparse_first_row ends on a file with no bytes but zeros; the row is there if it has room.
pub data FirstRow {S : Type 0} (d : DaemonTrace) (w : World S) (out : Outcome S) : Type 0 where
  row_written :
      (offset : ℕ) (sparse : List ℕ)
      → out ≡ (pos 0, record d { offset_map = offset }, record w { sparse = sparse })
      → (n_char_line ≤ w.size → Records first_row (record d { offset_map = offset }) sparse)
      → FirstRow d w out
  row_failed :
      (e offset : ℕ) (sparse : List ℕ)
      → out ≡ (negsuc e, record d { offset_map = offset }, record w { sparse = sparse })
      → FirstRow d w out

row-kept :
    (n : ℕ)
    → n_char_line ≤ n
    → take n (first_row ++ replicate (n_char_line - length first_row) 0 ++ [])
      ≡ first_row ++ replicate (n_char_line - length first_row) 0
row-kept n room = take-all n (first_row ++ replicate (n_char_line - length first_row) 0 ++ []) room

pub sparse_first_row-FirstRow :
    {S : Type 0} (host : Host) (d : DaemonTrace) (w : World S)
    → w.sparse ≡ []
    → FirstRow d w (sparse_first_row host d w)
unfolding sparse_first_row
sparse_first_row-FirstRow host d w e = elim (Bool-cases host.mmap_first) [
  | inr failed ↦ rw failed (row_failed 21 d.offset_map w.sparse refl)
  | inl mapped ↦ elim (Bool-cases host.munmap_first) [
    | inr failed ↦ rw (mapped, failed) (row_failed 21 _ _ refl)
    | inl ok ↦
        rw (mapped, ok)
          (row_written _ _ refl (λ room. record {
            chars = first_row-IsText;
            bytes = holds (n_char_line - length first_row) (rw e (row-kept w.size room));
            offset = refl;
          }))
  ]
]

-- What the daemon writes for n reads of a device in this state: the first row and a line for each
-- measure, after the old measures are discarded.
abbrev pub report : (dev : Device) → ℕ → dev.State → List ℕ
report dev n s = first_row ++ lines_of (measured dev n (clean_kernel_buffer dev s).1)

-- The sparse file has 200 bytes for the first row and for each measure that is written.
abbrev pub HasRoom : (dev : Device) → ℕ → dev.State → ℕ → Type 0
HasRoom dev n s size =
    n_char_line + n_char_line * length (measured dev n (clean_kernel_buffer dev s).1) ≤ size

-- The sparse file once it is created: zeros, and in use.
abbrev pub created : {S : Type 0} → DaemonTrace → World S → World S
created d w = record w {
  sparse = [];
  size = d.size_max + 1;
  position = d.size_max + 1;
  has_sparse = true;
  sp = take_one w.sp;
}

module _ (dev : Device) (host : Host) (doc : IsDocumented host) (page : host.malloc_page ≡ true)
    (rewound : is_neg host.seek_start ≡ false) (region : host.malloc_region ≡ true)
    (opened : is_neg host.open_dev ≡ false) where
  with_sparse-runs :
      (n : ℕ) (d : DaemonTrace) (w : World dev.State)
      → with_sparse dev host n (pos 0) d w
        ≡ after_clean dev host n d
            (record w { memory = take_one w.memory; dev = take_one w.dev })
            (clean_kernel_buffer dev w.device)
  unfolding with_sparse
  with_sparse-runs n d w = ground (arith, region, opened)

  with_sparse-Finished :
      (n : ℕ) (d : DaemonTrace) (w : World dev.State) {Good : dev.State → Type 0}
      → IsSteady dev Good
      → Good w.device
      → Records first_row d w.sparse
      → HasRoom dev n w.device w.size
      → IsClosed (close_sp w)
      → Finished (report dev n w.device) (with_sparse dev host n (pos 0) d w)
  with_sparse-Finished n d w steady good r room u = rw (with_sparse-runs n d w) (
      after_clean-Finished dev host doc page rewound n first_row d
        (record w { memory = take_one w.memory; dev = take_one w.dev })
        (clean_kernel_buffer dev w.device) steady r (omega (arith, room, first_row-short))
        (record {
          sp = u.sp;
          fl = u.fl;
          dev = ap (λ (m : ℕ). m + 1) u.dev;
          memory = ap (λ (m : ℕ). m + 1) u.memory;
        })
        (clean_kernel_buffer-Cleaned dev steady w.device good))

  after_first_row-Finished :
      (n : ℕ) (d : DaemonTrace) (w : World dev.State) {Good : dev.State → Type 0}
      (out : Outcome dev.State)
      → IsSteady dev Good
      → Good w.device
      → HasRoom dev n w.device w.size
      → IsClosed (close_sp w)
      → FirstRow d w out
      → Finished (report dev n w.device) (after_first_row dev host n out)
  after_first_row-Finished n d w out steady good room u (row_written offset sparse e r) = rw e (
      with_sparse-Finished n (record d { offset_map = offset }) (record w { sparse = sparse })
        steady good (r (omega (arith, room))) room
        (record { sp = u.sp; fl = u.fl; dev = u.dev; memory = u.memory }))
  after_first_row-Finished n d w out steady good room u (row_failed err offset sparse e) =
      rw e (
        not_finished err _ _ refl (record { sp = u.sp; fl = u.fl; dev = u.dev; memory = u.memory }))

  after_create-Finished :
      (n : ℕ) (d : DaemonTrace) (w : World dev.State) {Good : dev.State → Type 0}
      → IsSteady dev Good
      → Good w.device
      → HasRoom dev n w.device (d.size_max + 1)
      → IsClosed w
      → Finished
          (report dev n w.device)
          (after_create dev host n (daemon_create_sparse_file host d w))
  unfolding daemon_create_sparse_file
  after_create-Finished n d w steady good room u = elim (is_neg-cases host.open_sp) [
    | inl (e, z) ↦ rw z (not_finished e _ _ refl u)
    | inr ok ↦
        let v : (k p : ℕ) → IsClosed (record (close_sp (created d w)) { size = k; position = p }) =
          λ k p. record {
            sp = ap (λ (m : ℕ). m + 1) u.sp;
            fl = u.fl;
            dev = u.dev;
            memory = u.memory;
          } in
        elim (is_neg-cases host.seek_end) [
          | inl (e, z) ↦ rw (ok, z) (not_finished e _ _ refl (v 0 0))
          | inr found ↦ elim (is_neg-cases host.write_end) [
            | inl (e, z) ↦ rw (ok, found, z) (not_finished e _ _ refl (v 0 d.size_max))
            | inr wrote ↦
                rw (ok, found, wrote)
                  (after_first_row-Finished n (record d { fd_sp = host.open_sp }) (created d w) _
                    steady good room (v (d.size_max + 1) (d.size_max + 1))
                    (sparse_first_row-FirstRow host (record d { fd_sp = host.open_sp })
                      (created d w) refl))
          ]
        ]
  ]

-- A run of the daemon from a state where nothing is open, for n reads of a device that gives regions
-- with measures for their counts, and a size_max with 200 bytes for the first row and for each measure that
-- the n reads give. Where `read` gives an error or at least one byte and `write` an error
-- or all bytes, and neither the memory of the region, nor the memory of the copy, nor the opening of
-- the device, nor the `lseek` before the copy fails: the run ends, writes nothing outside its mappings
-- and the sparse file,
-- and closes and frees once all that it has opened and allocated. If it returns 0, the regular file
-- holds the first row and a line for each measure of the n reads, in order, without those that were
-- discarded first; else it returns a negative number.
pub record_measures-Finished :
    (dev : Device) (host : Host) (n : ℕ) (d : DaemonTrace) (w : World dev.State)
    {Good : dev.State → Type 0}
    → IsSteady dev Good
    → Good w.device
    → HasRoom dev n w.device d.size_max
    → IsClosed w
    → IsDocumented host
    → host.malloc_page ≡ true
    → host.malloc_region ≡ true
    → is_neg host.open_dev ≡ false
    → is_neg host.seek_start ≡ false
    → Finished (report dev n w.device) (record_measures dev host n d w)
unfolding record_measures
record_measures-Finished dev host n d w steady good room u doc page region opened rewound =
    after_create-Finished dev host doc page rewound region opened n d w steady good
      (omega (arith, room)) u
