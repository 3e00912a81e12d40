-- ===== src/Daemon/Copying.antt =====
-- The copy of the sparse file into the regular file: copy_normal_file of
-- trace/daemon/daemon_operation.c.
use dmacftu.Prelude.{
  ℕ, zero, suc, ◌+◌, ◌-◌, not, List, [], ◌∷◌, ◌++◌, Option, none, some, take, ltb, leb,
  if◌then◌else◌, ℤ, pos, negsuc, is_neg, get_elem?,
}
use dmacftu.Request.{page_size}
use dmacftu.Daemon.{DaemonTrace, World, Host, take_one, give_back}
use dmacftu.Daemon.Save.{Outcome}

abbrev pub byte_at : ℕ → List ℕ → ℕ
byte_at p bytes = elim (get_elem? bytes p) [ none ↦ 0 | some b ↦ b ]

-- The n bytes from a position on, of a file that is zero after those listed.
abbrev pub bytes_from : ℕ → ℕ → List ℕ → List ℕ
bytes_from p zero bytes = []
bytes_from p (suc n) bytes = byte_at p bytes ∷ bytes_from (suc p) n bytes

module _ {S : Type 0} (host : Host) where
  -- `ret = write(...)` of the k bytes that were read at the position.
  abbrev pub after_write : ℕ → ℤ → DaemonTrace → World S → Outcome S
  after_write k (negsuc e) d w = (negsuc e, d, record w { position = w.position + k })
  after_write k (pos m) d w = (
    pos m,
    record d { offset_map = d.offset_map - m },
    record w {
      position = w.position + k;
      regular = w.regular ++ take m (bytes_from w.position k w.sparse);
    },
  )

  abbrev pub after_read : ℕ → ℤ → DaemonTrace → World S → Outcome S
  after_read i (negsuc e) d w = (negsuc e, d, w)
  after_read i (pos k) d w = after_write k (host.write i k) d w

  -- One turn, which is the same in both branches of the loop but for the bytes asked for.
  unfoldable pub copy_turn : ℕ → DaemonTrace → World S → Outcome S
  copy_turn i d w =
      let asked = if leb page_size d.offset_map then page_size else d.offset_map in
      after_read i (host.read i asked) d w

  -- The loop; `none` means that it still runs when the fuel ends. `i` counts the turns.
  unfoldable pub copy_file_loop : ℕ → ℕ → DaemonTrace → World S → Option (Outcome S)
  unfolding copy_turn
  copy_file_loop zero i d w = none
  copy_file_loop (suc f) i d w =
      let (ret, d', w') = copy_turn i d w in
      let rest = copy_file_loop f (suc i) d' w' in
      if ltb 0 d.offset_map
      then if is_neg ret then some (ret, d', w') else rest
      else some (pos 0, d, w)

  -- Both ends of copy_normal_file free the buffer.
  abbrev pub free_buffer : Option (Outcome S) → Option (Outcome S)
  free_buffer none = none
  free_buffer (some (ret, d, w)) = some (ret, d, record w { memory = give_back w.memory })

  -- copy_normal_file; after a failed `malloc` it returns `ret` as it is.
  unfoldable pub copy_normal_file : ℕ → DaemonTrace → World S → Option (Outcome S)
  unfolding copy_file_loop
  copy_normal_file fuel d w =
      if not host.malloc_page
      then some (host.stale, d, w)
      else free_buffer (copy_file_loop fuel 0 d (record w { memory = take_one w.memory }))
