-- ===== src/Daemon/Ending.antt =====
-- The end of a run of the daemon, from the opening of the regular file on
-- (trace/daemon/core_daemon.c, record_measures).
use dmacftu.Prelude.{
  ℕ, zero, suc, ◌+◌, ◌≡◌, refl, ap, ◌∙◌, true, false, List, [], ◌∷◌, ◌++◌, Option, some, pos,
  negsuc, is_neg, length, replicate, arith, Bool-cases, inl, inr,
}
use dmacftu.Daemon.{DaemonTrace, take_one, World, Host}
use dmacftu.Daemon.Mapping.{Holds, holds}
use dmacftu.Daemon.Save.{Outcome}
use dmacftu.Daemon.Saving.{Records}
use dmacftu.Daemon.Copying.{byte_at, bytes_from}
use dmacftu.Daemon.Copied.{IsDocumented, copied, stopped, copy_normal_file-CopyEnded}
use dmacftu.Daemon.Record.{err_rec4, copy_out}

-- Everything opened or allocated has been closed or freed, once.
pub record IsClosed {S : Type 0} (w : World S) : Type 0 where
  pub sp : w.sp.opened ≡ w.sp.closed
  pub fl : w.fl.opened ≡ w.fl.closed
  pub dev : w.dev.opened ≡ w.dev.closed
  pub memory : w.memory.opened ≡ w.memory.closed

-- The state while the rounds run: the sparse file, the device and the region are in use.
pub record IsRunning {S : Type 0} (w : World S) : Type 0 where
  pub sp : w.sp.opened ≡ w.sp.closed + 1
  pub fl : w.fl.opened ≡ w.fl.closed
  pub dev : w.dev.opened ≡ w.dev.closed + 1
  pub memory : w.memory.opened ≡ w.memory.closed + 1

-- How a run ends: it returns 0 and the regular file holds the text, or it returns a negative number;
-- in both cases everything is closed.
pub data Finished (text : List ℕ) {S : Type 0} (out : Option (Outcome S)) : Type 0 where
  finished :
      (d : DaemonTrace) (w : World S)
      → out ≡ some (pos 0, d, w)
      → w.regular ≡ text
      → IsClosed w
      → Finished text out
  not_finished :
      (e : ℕ) (d : DaemonTrace) (w : World S)
      → out ≡ some (negsuc e, d, w)
      → IsClosed w
      → Finished text out

bytes_from-shift :
    (p n c : ℕ) (bytes : List ℕ) → bytes_from (suc p) n (c ∷ bytes) ≡ bytes_from p n bytes
bytes_from-shift p zero c bytes = refl
bytes_from-shift p (suc n) c bytes =
    ap (λ xs. byte_at p bytes ∷ xs) (bytes_from-shift (suc p) n c bytes)

bytes_from-text : (text rest : List ℕ) → bytes_from 0 (length text) (text ++ rest) ≡ text
bytes_from-text [] rest = refl
bytes_from-text (c ∷ cs) rest =
    ap (λ xs. c ∷ xs) (bytes_from-shift 0 (length cs) c (cs ++ rest) ∙ bytes_from-text cs rest)

-- The label err_rec4 closes everything.
pub err_rec4-IsClosed :
    {S : Type 0} (e : ℕ) (d : DaemonTrace) (w : World S)
    → IsRunning w
    → IsClosed (err_rec4 (negsuc e, d, w)).2
err_rec4-IsClosed e d w u = record {
  sp = omega arith;
  fl = omega arith;
  dev = omega arith;
  memory = omega arith;
}

file-text : (text sparse : List ℕ) → Holds text sparse → bytes_from 0 (length text) sparse ≡ text
file-text text sparse (holds k e) = rw e (bytes_from-text text (replicate k 0))

module _ {S : Type 0} (host : Host) (doc : IsDocumented host) (page : host.malloc_page ≡ true)
    (rewound : is_neg host.seek_start ≡ false) where
  pub copy_out-Finished :
      (text : List ℕ) (d : DaemonTrace) (w : World S)
      → Records text d w.sparse
      → IsRunning w
      → Finished text (copy_out host d w)
  unfolding copy_out
  copy_out-Finished text d w r u = elim (Bool-cases (is_neg host.open_fl)) [
    | inl failed ↦
        rw failed
          (not_finished 21 _ _ refl (err_rec4-IsClosed 21 (record d { fd_fl = host.open_fl }) w u))
    | inr ok ↦
        let d' : DaemonTrace = record d { fd_fl = host.open_fl } in
        let w' : World S = record w { regular = []; fl = take_one w.fl; position = 0 } in
        rw (ok, rewound)
          (elim (copy_normal_file-CopyEnded host (d.offset_map + 1) d' w' doc page (omega arith)) [
            | copied p e ↦ rw e (
                finished _ _ refl
                  (ap (λ n. bytes_from 0 n w.sparse) r.offset ∙ file-text text w.sparse r.bytes)
                  (record {
                    sp = omega arith;
                    fl = omega arith;
                    dev = omega arith;
                    memory = omega arith;
                  }))
            | stopped err n p le e ↦ rw e (
                not_finished err _ _ refl (record {
                  sp = omega arith;
                  fl = omega arith;
                  dev = omega arith;
                  memory = omega arith;
                }))
          ])
  ]
