-- ===== src/Daemon/Missed.antt =====
-- Errors that record_measures (trace/daemon/core_daemon.c) returns no error for.
use dmacftu.Prelude.{
  ℕ, ◌≡◌, refl, true, false, Option, some, pos, negsuc, is_neg, arith, ◌⊎◌, Bool-cases, inl, inr,
}
use dmacftu.Daemon.{DaemonTrace, take_one, Device, World, Host}
use dmacftu.Daemon.Save.{Outcome, daemon_create_sparse_file, sparse_first_row}
use dmacftu.Daemon.Record.{with_sparse, record_measures, after_first_row, err_rec2, err_rec3}
use dmacftu.Daemon.Session.{FirstRow, row_written, row_failed, sparse_first_row-FirstRow, created}

-- The answers up to the first row are good.
pub record Prepares (host : Host) : Type 0 where
  pub created : is_neg host.open_sp ≡ false
  pub extended : is_neg host.seek_end ≡ false
  pub wrote : is_neg host.write_end ≡ false
  pub mapped : host.mmap_first ≡ true
  pub unmapped : host.munmap_first ≡ true

-- A run that returns 0 and leaves the regular file alone.
pub data DidNothing {S : Type 0} (w : World S) (out : Option (Outcome S)) : Type 0 where
  did_nothing :
      (d : DaemonTrace) (w' : World S)
      → out ≡ some (pos 0, d, w')
      → w'.regular ≡ w.regular
      → w'.device ≡ w.device
      → DidNothing w out

DidNothing-created :
    {S : Type 0} (d : DaemonTrace) (w : World S) (out : Option (Outcome S))
    → DidNothing (created d w) out
    → DidNothing w out
DidNothing-created d w out (did_nothing d' w' e r s) = did_nothing d' w' e r s

module _ (dev : Device) (host : Host) (prepares : Prepares host) where
  first_row-runs : (d : DaemonTrace) (w : World dev.State) → (sparse_first_row host d w).0 ≡ pos 0
  unfolding sparse_first_row
  first_row-runs d w = ground (arith, prepares.mapped, prepares.unmapped)

  create-runs :
      (n : ℕ) (d : DaemonTrace) (w : World dev.State)
      → record_measures dev host n d w
        ≡ after_first_row dev host n
            (sparse_first_row host (record d { fd_sp = host.open_sp }) (created d w))
  unfolding record_measures daemon_create_sparse_file
  create-runs n d w = ground (arith, prepares.created, prepares.extended, prepares.wrote)

  -- Whatever the device would have given.
  not_opened :
      (n e : ℕ) (d : DaemonTrace) (w : World dev.State)
      → host.malloc_region ≡ true
      → host.open_dev ≡ negsuc e
      → with_sparse dev host n (pos 0) d w
        ≡ some (err_rec3 (pos 0, d, record w { memory = take_one w.memory }))
  unfolding with_sparse
  not_opened n e d w m o = ground (arith, m, o)

  no_region :
      (n : ℕ) (d : DaemonTrace) (w : World dev.State)
      → host.malloc_region ≡ false
      → with_sparse dev host n (pos 0) d w ≡ some (err_rec2 (pos 0, d, w))
  unfolding with_sparse
  no_region n d w m = ground (arith, m)

  after_first_row-DidNothing :
      (n : ℕ) (d : DaemonTrace) (w : World dev.State) (out : Outcome dev.State)
      → (host.malloc_region ≡ false) ⊎ ((e : ℕ) × (host.open_dev ≡ negsuc e))
      → FirstRow d w out
      → out.0 ≡ pos 0
      → DidNothing w (after_first_row dev host n out)
  after_first_row-DidNothing n d w out why (row_failed e offset sparse z) ok =
      absurd (ground (arith, z, ok))
  after_first_row-DidNothing n d w out (inl m) (row_written offset sparse z r) ok =
      rw (z, no_region n (record d { offset_map = offset }) (record w { sparse = sparse }) m)
        (did_nothing _ _ refl refl refl)
  after_first_row-DidNothing n d w out (inr (e, o)) (row_written offset sparse z r) ok =
      elim (Bool-cases host.malloc_region) [
        | inr m ↦
            rw (z, no_region n (record d { offset_map = offset }) (record w { sparse = sparse }) m)
              (did_nothing _ _ refl refl refl)
        | inl m ↦
            rw
              (
                z,
                not_opened n e (record d { offset_map = offset }) (record w { sparse = sparse }) m
                    o,
              )
              (did_nothing _ _ refl refl refl)
      ]

-- Once the sparse file has its first row: if the memory of the region is not found, or the device file
-- cannot be opened, record_measures returns 0 all the same, whatever the device would give, with no
-- read of the device and nothing written to the regular file.
pub record_measures-DidNothing :
    (dev : Device) (host : Host) (n : ℕ) (d : DaemonTrace) (w : World dev.State)
    → Prepares host
    → (host.malloc_region ≡ false) ⊎ ((e : ℕ) × (host.open_dev ≡ negsuc e))
    → DidNothing w (record_measures dev host n d w)
record_measures-DidNothing dev host n d w prepares why = rw (create-runs dev host prepares n d w) (
    DidNothing-created d w _ (
      after_first_row-DidNothing dev host prepares n (record d { fd_sp = host.open_sp })
        (created d w) _ why (sparse_first_row-FirstRow host _ (created d w) refl)
        (first_row-runs dev host prepares _ (created d w))))
