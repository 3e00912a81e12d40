-- ===== src/Daemon/Save.antt =====
-- The operations on the sparse file: daemon_create_sparse_file and sparse_first_row of
-- trace/daemon/daemon_operation.c, and save_measure of trace/daemon/core_daemon.c.
use dmacftu.Prelude.{
  ℕ, ◌+◌, ◌-◌, ◌*◌, ◌%◌, ◌^◌, true, not, ◌&&◌, List, [], ◌∷◌, ◌++◌, Option, none, some, length, min,
  take, drop, replicate, ltb, if◌then◌else◌, ℤ, pos, negsuc, is_neg,
}
use dmacftu.Request.{page_size}
use dmacftu.CircularBuffer.{UnitBuff}
use dmacftu.Trace.{RegionMem}
use dmacftu.Daemon.{
  n_char_line, efault, einval, DaemonTrace, to_size, take_one, give_back, Device, World, Host,
}
use dmacftu.Daemon.Text.{first_row}
use dmacftu.Daemon.Mapping.{strlen, write_lines}

-- What an operation returns, and the state that it leaves.
abbrev pub Outcome : Type 0 → Type 0
Outcome S = ℤ × DaemonTrace × World S

module _ {S : Type 0} where
  -- The label err_file.
  abbrev pub err_file : ℤ → DaemonTrace → World S → Outcome S
  err_file ret d w = (ret, d, record w { sp = give_back w.sp })

  -- daemon_create_sparse_file. The flags truncate the file; the byte that is written size_max bytes on is
  -- a zero, and makes the file end after it.
  unfoldable pub daemon_create_sparse_file : Host → DaemonTrace → World S → Outcome S
  daemon_create_sparse_file host d0 w0 =
      let d = record d0 { fd_sp = host.open_sp } in
      let w1 = record w0 {
        sparse = [];
        size = 0;
        position = 0;
        has_sparse = true;
        sp = take_one w0.sp;
      } in
      let w2 = record w1 { position = d.size_max } in
      let w3 = record w2 { size = d.size_max + 1; position = d.size_max + 1 } in
      if is_neg host.open_sp
      then (host.open_sp, d, w0)
      else if is_neg host.seek_end
      then err_file host.seek_end d w1
      else if is_neg host.write_end
      then err_file host.write_end d w2
      else (pos 0, d, w3)

  -- sparse_first_row: `strncpy` of N_CHAR_LINE bytes over the start of the file. What goes past the end of
  -- the file, which is not empty here, stays in its last page and is lost with the mapping.
  unfoldable pub sparse_first_row : Host → DaemonTrace → World S → Outcome S
  unfolding strlen
  sparse_first_row host d w =
      let map =
        first_row ++ replicate (n_char_line - length first_row) 0 ++ drop n_char_line w.sparse in
      let d' = record d { offset_map = strlen map } in
      let w' = record w { sparse = take w.size map } in
      if not host.mmap_first
      then (einval, d, w)
      else if not host.munmap_first
      then (einval, d', w')
      else (pos 0, d', w')

-- The loop that sums up the counts, in an `int`.
unfoldable pub count_region : List RegionMem → ℕ → ℕ
count_region [] n = n
count_region (r ∷ rs) n = count_region rs ((n + r.count) % 2 ^ 32)

-- The measures in the order of the two loops.
unfoldable pub measures : List RegionMem → List UnitBuff
measures [] = []
measures (r ∷ rs) = take r.count r.buffer ++ measures rs

-- `offset_to_page` and `size_map`.
abbrev pub offset_to_page : ℕ → ℕ
offset_to_page o = o - o % page_size

abbrev pub size_map : ℕ → ℕ → ℕ
size_map o n = (o % page_size + to_size (n_char_line * n)) % 2 ^ 64

-- The file after the part mapped from a position on was written.
abbrev pub write_back : ℕ → List ℕ → List ℕ → List ℕ
write_back start bytes map = take start (bytes ++ replicate start 0) ++ map

module _ (dev : Device) (host : Host) where
  -- The `lseek` to the device and the end of save_measure.
  unfoldable pub rewind : DaemonTrace → World dev.State → Outcome dev.State
  rewind d w = if is_neg (dev.lseek w.device) then (einval, d, w) else (pos 0, d, w)

  -- The offset and the sparse file with the lines written, and what follows.
  abbrev pub unmap :
      ℕ → DaemonTrace → World dev.State → Option (List ℕ) → Option (Outcome dev.State)
  unmap i d w none = none
  unmap i d w (some map) =
      let start = offset_to_page d.offset_map in
      let d' = record d { offset_map = start + strlen map } in
      let w' = record w { sparse = write_back start w.sparse map } in
      if not (host.munmap i) then some (einval, d', w') else some (rewind d' w')

  -- The branch of save_measure where there are measures. A write past the end of the mapping, or of the
  -- file, where it faults or is lost, gives none.
  unfoldable pub save_lines :
      ℕ → List RegionMem → DaemonTrace → World dev.State → Option (Outcome dev.State)
  unfolding write_lines strlen rewind measures count_region
  save_lines i rs d w =
      if not (host.mmap i)
      then some (negsuc 0, d, w)
      else unmap i d w (
          write_lines
            (min (size_map d.offset_map (count_region rs 0)) (w.size - offset_to_page d.offset_map))
            (measures rs) (drop (offset_to_page d.offset_map) w.sparse))

  abbrev pub after_read :
      ℕ
      → DaemonTrace
      → World dev.State
      → Option (List RegionMem) × dev.State
      → Option (Outcome dev.State)
  after_read i d w (none, s) = some (efault, d, record w { device = s })
  after_read i d w (some rs, s) =
      let n = count_region rs 0 in
      if ltb 0 n && ltb n (2 ^ 31)
      then save_lines i rs d (record w { device = s })
      else some (rewind d (record w { device = s }))

  -- save_measure in round i; `none` is a write outside the mapping or the file.
  unfoldable pub save_measure : ℕ → DaemonTrace → World dev.State → Option (Outcome dev.State)
  unfolding save_lines rewind count_region
  save_measure i d w = after_read i d w (dev.read w.device)
