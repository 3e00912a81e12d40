-- ===== src/Daemon/Copied.antt =====
-- When copy_normal_file of trace/daemon/daemon_operation.c ends, and what it has copied.
use dmacftu.Prelude.{
  ℕ, zero, suc, ◌+◌, ◌-◌, ◌≤◌, ◌<◌, ◌≡◌, refl, ap, sym, ◌∙◌, true, List, [], ◌∷◌, ◌++◌, Option,
  some, length, ltb, leb, if◌then◌else◌, arith, ℤ, pos, negsuc, Bool-cases, inl, inr, take-all,
  ltb→lt,
}
use mathlib.Core.List.{append_assoc, append-nil}
use dmacftu.Request.{page_size}
use dmacftu.Daemon.{DaemonTrace, World, Host, take_one, give_back}
use dmacftu.Daemon.Save.{Outcome}
use dmacftu.Daemon.Copying.{
  byte_at, bytes_from, after_write, after_read, copy_turn, copy_file_loop, free_buffer,
  copy_normal_file,
}

-- What `read` of n bytes before the end of a file answers: an error, or at least one byte.
pub data Transfers (n : ℕ) : ℤ → Type 0 where
  failed : (e : ℕ) → Transfers n (negsuc e)
  moved : (k : ℕ) → 0 < k → k ≤ n → Transfers n (pos k)

-- What `write` of n bytes to a regular file answers: an error, or all of them.
pub data Completes (n : ℕ) : ℤ → Type 0 where
  refused : (e : ℕ) → Completes n (negsuc e)
  complete : Completes n (pos n)

-- Documented behaviour of the two calls.
pub record IsDocumented (host : Host) : Type 0 where
  pub reads : (i n : ℕ) → 0 < n → Transfers n (host.read i n)
  pub writes : (i n : ℕ) → Completes n (host.write i n)

-- How the copy ends: with all bytes up to the offset copied, or with an error after the first n.
pub data CopyEnded {S : Type 0} (d : DaemonTrace) (w : World S) (out : Option (Outcome S))
    : Type 0 where
  copied :
      (p : ℕ)
      → out
        ≡ some (
          pos 0,
          record d { offset_map = 0 },
          record w {
            position = p;
            regular = w.regular ++ bytes_from w.position d.offset_map w.sparse;
          },
        )
      → CopyEnded d w out
  stopped :
      (e n p : ℕ)
      → n ≤ d.offset_map
      → out
        ≡ some (
          negsuc e,
          record d { offset_map = d.offset_map - n },
          record w { position = p; regular = w.regular ++ bytes_from w.position n w.sparse },
        )
      → CopyEnded d w out

-- How a turn with bytes left ends.
data Turned {S : Type 0} (d : DaemonTrace) (w : World S) (out : Outcome S) : Type 0 where
  went_on :
      (k : ℕ)
      → 0 < k
      → k ≤ d.offset_map
      → out ≡ (
        pos k,
        record d { offset_map = d.offset_map - k },
        record w {
          position = w.position + k;
          regular = w.regular ++ bytes_from w.position k w.sparse;
        },
      )
      → Turned d w out
  gave_up : (e p : ℕ) → out ≡ (negsuc e, d, record w { position = p }) → Turned d w out

length-bytes_from : (p n : ℕ) (bytes : List ℕ) → length (bytes_from p n bytes) ≡ n
length-bytes_from p zero bytes = refl
length-bytes_from p (suc n) bytes = ap suc (length-bytes_from (suc p) n bytes)

bytes_from-add :
    (p m n : ℕ) (bytes : List ℕ)
    → bytes_from p m bytes ++ bytes_from (p + m) n bytes ≡ bytes_from p (m + n) bytes
bytes_from-add p zero n bytes =
    let e : p + 0 ≡ p = omega arith in let z : 0 + n ≡ n = omega arith in rw (e, z)
bytes_from-add p (suc m) n bytes =
    let e : p + suc m ≡ suc p + m = omega arith in
    let z : suc m + n ≡ suc (m + n) = omega arith in
    rw (e, z) (ap (λ xs. byte_at p bytes ∷ xs) (bytes_from-add (suc p) m n bytes))

module _ {S : Type 0} (host : Host) where
  write-Turned :
      (k : ℕ) (ret : ℤ) (d : DaemonTrace) (w : World S)
      → 0 < k
      → k ≤ d.offset_map
      → Completes k ret
      → Turned d w (after_write host k ret d w)
  write-Turned k ret d w l h (refused e) = gave_up e (w.position + k) refl
  write-Turned k ret d w l h complete = went_on k l h (
      ap
        (λ bytes.
          let w' : World S = record w { position = w.position + k; regular = w.regular ++ bytes } in
          let out : Outcome S = (pos k, record d { offset_map = d.offset_map - k }, w') in out)
        (take-all k (bytes_from w.position k w.sparse)
          (omega (arith, length-bytes_from w.position k w.sparse))))

  read-Turned :
      (i n : ℕ) (ret : ℤ) (d : DaemonTrace) (w : World S)
      → IsDocumented host
      → n ≤ d.offset_map
      → Transfers n ret
      → Turned d w (after_read host i ret d w)
  read-Turned i n ret d w doc h (failed e) = gave_up e w.position refl
  read-Turned i n ret d w doc h (moved k l le) =
      write-Turned k (host.write i k) d w l (omega arith) (doc.writes i k)

  copy_turn-Turned :
      (i : ℕ) (d : DaemonTrace) (w : World S)
      → IsDocumented host
      → 0 < d.offset_map
      → Turned d w (copy_turn host i d w)
  unfolding copy_turn
  copy_turn-Turned i d w doc l =
      let asked : ℕ = if leb page_size d.offset_map then page_size else d.offset_map in
      read-Turned i asked (host.read i asked) d w doc (ground arith)
        (doc.reads i asked (ground arith))

  copy_file_loop-next :
      (f i k : ℕ) (d d' : DaemonTrace) (w w' : World S)
      → 0 < d.offset_map
      → copy_turn host i d w ≡ (pos k, d', w')
      → copy_file_loop host (suc f) i d w ≡ copy_file_loop host f (suc i) d' w'
  unfolding copy_file_loop
  copy_file_loop-next f i k d d' w w' l e = ground (arith, e)

  copy_file_loop-stop :
      (f i e : ℕ) (d d' : DaemonTrace) (w w' : World S)
      → 0 < d.offset_map
      → copy_turn host i d w ≡ (negsuc e, d', w')
      → copy_file_loop host (suc f) i d w ≡ some (negsuc e, d', w')
  unfolding copy_file_loop
  copy_file_loop-stop f i e d d' w w' l z = ground (arith, z)

  abbrev ended : ℤ → ℕ → ℕ → List ℕ → DaemonTrace → World S → Option (Outcome S)
  ended ret offset p bytes d w =
      some (ret, record d { offset_map = offset }, record w { position = p; regular = bytes })

  -- The bytes of one turn and those of the next ones.
  both :
      (k n : ℕ) (w : World S)
      → (w.regular ++ bytes_from w.position k w.sparse) ++ bytes_from (w.position + k) n w.sparse
        ≡ w.regular ++ bytes_from w.position (k + n) w.sparse
  both k n w =
      append_assoc w.regular (bytes_from w.position k w.sparse)
        (bytes_from (w.position + k) n w.sparse)
      ∙ ap (λ xs. w.regular ++ xs) (bytes_from-add w.position k n w.sparse)

  -- The end after one turn more in front.
  CopyEnded-cons :
      (k : ℕ) (d : DaemonTrace) (w : World S) (out : Option (Outcome S))
      → k ≤ d.offset_map
      → CopyEnded
          (record d { offset_map = d.offset_map - k })
          (record w {
            position = w.position + k;
            regular = w.regular ++ bytes_from w.position k w.sparse;
          })
          out
      → CopyEnded d w out
  CopyEnded-cons k d w out h (copied p e) = copied p (
      e
      ∙ ap (λ xs. ended (pos 0) 0 p xs d w) (both k (d.offset_map - k) w)
      ∙ ap (λ n. ended (pos 0) 0 p (w.regular ++ bytes_from w.position n w.sparse) d w) total)
    where
      total : k + (d.offset_map - k) ≡ d.offset_map
      total = omega arith
  CopyEnded-cons k d w out h (stopped err n p le e) = stopped err (k + n) p (omega arith) (
      e
      ∙ ap (λ xs. ended (negsuc err) (d.offset_map - k - n) p xs d w) (both k n w)
      ∙ ap (λ m. ended (negsuc err) m p (w.regular ++ bytes_from w.position (k + n) w.sparse) d w)
          less)
    where
      less : d.offset_map - k - n ≡ d.offset_map - (k + n)
      less = omega arith

  nothing_left :
      (d : DaemonTrace) (w : World S) → d.offset_map ≡ 0 → CopyEnded d w (some (pos 0, d, w))
  nothing_left d w e = copied w.position (
      ap (λ m. ended (pos 0) m w.position w.regular d w) e
      ∙ ap (λ xs. ended (pos 0) 0 w.position xs d w) (sym (append-nil w.regular))
      ∙ ap (λ m. ended (pos 0) 0 w.position (w.regular ++ bytes_from w.position m w.sparse) d w)
          (sym e))

  copy_file_loop-CopyEnded :
      (f i : ℕ) (d : DaemonTrace) (w : World S)
      → IsDocumented host
      → d.offset_map < f
      → CopyEnded d w (copy_file_loop host f i d w)
  unfolding copy_file_loop
  copy_file_loop-CopyEnded zero i d w doc h = absurd (omega arith)
  copy_file_loop-CopyEnded (suc f) i d w doc h = elim (Bool-cases (ltb 0 d.offset_map)) [
    | inr done ↦ rw done (nothing_left d w (ground (arith, done)))
    | inl more ↦ elim (copy_turn-Turned i d w doc (ltb→lt 0 d.offset_map more)) [
      | gave_up e p z ↦
          rw
            (copy_file_loop-stop f i e d d w (record w { position = p })
              (ltb→lt 0 d.offset_map more) z)
            (stopped e 0 p (omega arith) (
              ap (λ xs. ended (negsuc e) d.offset_map p xs d w) (sym (append-nil w.regular))
              ∙ ap (λ m. ended (negsuc e) m p (w.regular ++ []) d w) (omega arith)))
      | went_on k l le z ↦
          rw (copy_file_loop-next f i k d _ w _ (ltb→lt 0 d.offset_map more) z)
            (CopyEnded-cons k d w _ le (copy_file_loop-CopyEnded f (suc i) _ _ doc (omega arith)))
    ]
  ]

free_buffer-CopyEnded :
    {S : Type 0} (d : DaemonTrace) (w : World S) (out : Option (Outcome S)) (host : Host)
    → CopyEnded d w out
    → CopyEnded d (record w { memory = give_back w.memory }) (free_buffer host out)
free_buffer-CopyEnded d w out host (copied p e) = copied p (rw e)
free_buffer-CopyEnded d w out host (stopped err n p h e) = stopped err n p h (rw e)

-- Where `read` gives an error or at least one byte and `write` gives an error or takes all bytes, and
-- the memory for the buffer is found: copy_normal_file ends, within as many turns as there are bytes
-- up to the offset, and frees the buffer. It returns 0 with exactly these bytes of the sparse file
-- added to the regular file, in order, or the negative result of a call, with the first n of them.
pub copy_normal_file-CopyEnded :
    {S : Type 0} (host : Host) (fuel : ℕ) (d : DaemonTrace) (w : World S)
    → IsDocumented host
    → host.malloc_page ≡ true
    → d.offset_map < fuel
    → CopyEnded d
        (record w { memory = give_back (take_one w.memory) })
        (copy_normal_file host fuel d w)
unfolding copy_normal_file
copy_normal_file-CopyEnded host fuel d w doc m h = rw m (
    free_buffer-CopyEnded d (record w { memory = take_one w.memory }) _ host
      (copy_file_loop-CopyEnded host fuel 0 d (record w { memory = take_one w.memory }) doc h))
