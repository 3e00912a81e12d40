-- ===== src/Daemon/Record.antt =====
-- A whole run of the daemon: record_measures of trace/daemon/core_daemon.c, with its labels err_rec1 to
-- err_rec5. The number of rounds is below 2^31, the range of its counter; the delay between the rounds
-- is left out.
use dmacftu.Prelude.{
  ℕ, zero, suc, ◌+◌, Bool, true, false, not, [], Option, none, some, if◌then◌else◌, ℤ, pos, negsuc,
  is_neg,
}
use dmacftu.Daemon.{DaemonTrace, einval, take_one, give_back, Device, World, Host}
use dmacftu.Daemon.Save.{Outcome, daemon_create_sparse_file, sparse_first_row, save_measure}
use dmacftu.Daemon.Copying.{copy_normal_file}
use dmacftu.Daemon.Cleaning.{clean_kernel_buffer}

module _ {S : Type 0} where
  -- del_region.
  abbrev pub del_region : World S → World S
  del_region w = record w { memory = give_back w.memory }

  -- init_region: whether the memory is found.
  abbrev pub init_region : Host → World S → Bool × World S
  init_region host w =
      if host.malloc_region then (true, record w { memory = take_one w.memory }) else (false, w)

  abbrev pub close_sp : World S → World S
  close_sp w = record w { sp = give_back w.sp }

  abbrev pub close_fl : World S → World S
  close_fl w = record w { fl = give_back w.fl }

  abbrev pub close_dev : World S → World S
  close_dev w = record w { dev = give_back w.dev }

  -- The labels; each falls through to the next.
  abbrev pub err_rec2 : Outcome S → Outcome S
  err_rec2 (ret, d, w) = (ret, d, close_sp w)

  abbrev pub err_rec3 : Outcome S → Outcome S
  err_rec3 (ret, d, w) = err_rec2 (ret, d, del_region w)

  abbrev pub err_rec4 : Outcome S → Outcome S
  err_rec4 (ret, d, w) = err_rec3 (ret, d, close_dev w)

  abbrev pub err_rec5 : Outcome S → Outcome S
  err_rec5 (ret, d, w) = err_rec4 (ret, d, close_fl w)

  -- The end of a run that went well; the result of `remove` is only printed.
  abbrev pub finish : Host → DaemonTrace → World S → Outcome S
  finish host d w =
      let w' = close_sp (del_region (close_dev (close_fl w))) in
      (pos 0, d, record w' { has_sparse = if is_neg host.remove then w'.has_sparse else false })

  abbrev pub after_copy : Host → Option (Outcome S) → Option (Outcome S)
  after_copy host none = none
  after_copy host (some (negsuc e, d, w)) = some (err_rec5 (negsuc e, d, w))
  after_copy host (some (pos n, d, w)) = some (finish host d w)

  -- From the opening of the regular file on; the copy gets fuel for each byte.
  unfoldable pub copy_out : Host → DaemonTrace → World S → Option (Outcome S)
  copy_out host d0 w0 =
      let d = record d0 { fd_fl = host.open_fl } in
      let w = record w0 { regular = []; fl = take_one w0.fl } in
      if is_neg host.open_fl
      then some (err_rec4 (einval, d, w0))
      else if is_neg host.seek_start
      then some (err_rec4 (host.seek_start, d, w))
      else after_copy host (copy_normal_file host (d.offset_map + 1) d (record w { position = 0 }))

module _ (dev : Device) (host : Host) where
  -- The loop of save_measure: this many rounds are left, and the next is number i.
  unfoldable pub record_loop : ℕ → ℕ → DaemonTrace → World dev.State → Option (Outcome dev.State)
  record_loop zero i d w = some (pos 0, d, w)
  record_loop (suc n) i d w = elim (save_measure dev host i d w) [
    | none ↦ none
    | some (ret, d', w') ↦ elim ret [
      | negsuc e ↦ some (negsuc e, d', w')
      | pos r ↦ record_loop n (suc i) d' w'
    ]
  ]

  abbrev pub after_loop : Option (Outcome dev.State) → Option (Outcome dev.State)
  after_loop none = none
  after_loop (some (negsuc e, d, w)) = some (err_rec4 (negsuc e, d, w))
  after_loop (some (pos n, d, w)) = copy_out host d w

  -- From the discarding of old measures on.
  abbrev pub after_clean :
      ℕ → DaemonTrace → World dev.State → ℤ × dev.State → Option (Outcome dev.State)
  after_clean n d w (negsuc e, s) = some (err_rec4 (negsuc e, d, record w { device = s }))
  after_clean n d w (pos r, s) = after_loop (record_loop n 0 d (record w { device = s }))

  -- From init_region on; `ret` is what sparse_first_row has returned.
  unfoldable pub with_sparse : ℕ → ℤ → DaemonTrace → World dev.State → Option (Outcome dev.State)
  with_sparse n ret d w =
      let (found, w1) = init_region host w in
      let w2 = record w1 { dev = take_one w1.dev } in
      if not found
      then some (err_rec2 (ret, d, w1))
      else if is_neg host.open_dev
      then some (err_rec3 (ret, d, w1))
      else after_clean n d w2 (clean_kernel_buffer dev w2.device)

  abbrev pub after_first_row : ℕ → Outcome dev.State → Option (Outcome dev.State)
  after_first_row n (negsuc e, d, w) = some (err_rec2 (negsuc e, d, w))
  after_first_row n (pos r, d, w) = with_sparse n (pos r) d w

  abbrev pub after_create : ℕ → Outcome dev.State → Option (Outcome dev.State)
  after_create n (negsuc e, d, w) = some (negsuc e, d, w)
  after_create n (pos r, d, w) = after_first_row n (sparse_first_row host d w)

  -- record_measures with this many reads of the device.
  unfoldable pub record_measures : ℕ → DaemonTrace → World dev.State → Option (Outcome dev.State)
  record_measures n d w = after_create n (daemon_create_sparse_file host d w)
