-- ===== src/Daemon/Saving.antt =====
-- save_measure of trace/daemon/core_daemon.c: the lines that it adds to the sparse file.
use dmacftu.Prelude.{
  ℕ, zero, suc, ◌+◌, ◌-◌, ◌%◌, ◌^◌, ◌≤◌, ◌<◌, ◌≡◌, refl, ap, sym, ◌∙◌, ◌&&◌, List, [], ◌∷◌, ◌++◌,
  Option, some, length, take, drop, replicate, ltb, min, ◌*◌, All, arith, pos, negsuc, is_neg,
  length-append, length-drop, drop-append, take-append, length-take, Bool-cases, inl, inr,
}
use mathlib.Core.List.{append_assoc, append-nil}
use dmacftu.CircularBuffer.{UnitBuff}
use dmacftu.Trace.{RegionMem}
use dmacftu.Daemon.{DaemonTrace, Device, World, Host}
use dmacftu.Daemon.Text.{lines_of}
use dmacftu.Daemon.Lines.{IsText, IsText-append, IsText-line_of}
use dmacftu.Daemon.Mapping.{
  strlen, strlen-text, write_lines, Holds, holds, Written, written, write_lines-Written,
}
use dmacftu.Daemon.Save.{
  Outcome, count_region, measures, offset_to_page, size_map, write_back, rewind, unmap, save_lines,
  save_measure,
}

-- The sparse file holds a text, with zeros after it, and the offset is its length.
pub record Records (text : List ℕ) (d : DaemonTrace) (sparse : List ℕ) : Type 0 where
  pub chars : IsText text
  pub bytes : Holds text sparse
  pub offset : d.offset_map ≡ length text

take-drop : (n : ℕ) (xs : List ℕ) → take n xs ++ drop n xs ≡ xs
take-drop zero xs = refl
take-drop (suc n) [] = refl
take-drop (suc n) (x ∷ xs) = ap (λ ys. x ∷ ys) (take-drop n xs)

IsText-drop : (n : ℕ) (xs : List ℕ) → IsText xs → IsText (drop n xs)
IsText-drop zero xs h = h
IsText-drop (suc n) [] h = tt
IsText-drop (suc n) (x ∷ xs) h = IsText-drop n xs h.1

IsText-lines_of : (us : List UnitBuff) → IsText (lines_of us)
IsText-lines_of [] = tt
IsText-lines_of (u ∷ us) = IsText-append _ (lines_of us) (IsText-line_of u) (IsText-lines_of us)

-- Dropping and taking within the text.
drop-within :
    (n k : ℕ) (text : List ℕ)
    → n ≤ length text
    → drop n (text ++ replicate k 0) ≡ drop n text ++ replicate k 0
drop-within n k text h =
    let e : n - length text ≡ 0 = omega arith in rw (drop-append n text (replicate k 0), e)

take-within :
    (n k m : ℕ) (text : List ℕ)
    → n ≤ length text
    → take n ((text ++ replicate k 0) ++ replicate m 0) ≡ take n text
take-within n k m text h =
    let e : n - length text ≡ 0 = omega arith in
    rw
      (
        append_assoc text (replicate k 0) (replicate m 0),
        take-append n text (replicate k 0 ++ replicate m 0),
        e,
      )
      (append-nil (take n text))

-- The region that is mapped from the page of the end of the text on, after lines were added there.
write_back-Holds :
    (start k : ℕ) (text lines map : List ℕ)
    → start ≤ length text
    → Holds (drop start text ++ lines) map
    → Holds (text ++ lines) (write_back start (text ++ replicate k 0) map)
write_back-Holds start k text lines map h (holds k' e) =
    rw (e, take-within start k start text h)
      (holds k' (
        sym (append_assoc (take start text) (drop start text ++ lines) (replicate k' 0))
        ∙ ap (λ xs. xs ++ replicate k' 0)
            (sym (append_assoc (take start text) (drop start text) lines)
              ∙ ap (λ xs. xs ++ lines) (take-drop start text))))

within-both : (n a b : ℕ) → n ≤ a → n ≤ b → n ≤ min a b
within-both n a b h k = ground (arith, h, k)

-- Regions with measures for their counts, few enough for the `int` in which the bytes are computed.
pub record AreCounted (rs : List RegionMem) : Type 0 where
  pub stored : All (λ r. r.count ≤ length r.buffer) rs
  pub few : length (measures rs) < 10_000_000

count_region-measures :
    (rs : List RegionMem) (n : ℕ)
    → All (λ r. r.count ≤ length r.buffer) rs
    → n + length (measures rs) < 2 ^ 32
    → count_region rs n ≡ n + length (measures rs)
unfolding count_region measures
count_region-measures [] n a h = omega arith
count_region-measures (r ∷ rs) n a h =
    let l = length-append (take r.count r.buffer) (measures rs) in
    let t = length-take r.count r.buffer in
    let small : (n + r.count) % 2 ^ 32 ≡ n + r.count = omega (arith, l, t, a.0) in
    rw small (
      count_region-measures rs (n + r.count) a.1 (omega (arith, l, t, a.0))
      ∙ omega (arith, l, t, a.0))

-- How save_measure ends: with the lines of the measures added, or with an error.
pub data Saved (text : List ℕ) (d : DaemonTrace) {S : Type 0} (w : World S) (s : S)
    (out : Option (Outcome S)) : Type 0 where
  saved :
      (offset : ℕ) (sparse : List ℕ)
      → out
        ≡ some (pos 0, record d { offset_map = offset }, record w { sparse = sparse; device = s })
      → Records text (record d { offset_map = offset }) sparse
      → Saved text d w s out
  not_saved :
      (e offset : ℕ) (sparse : List ℕ)
      → out
        ≡ some
            (negsuc e, record d { offset_map = offset }, record w { sparse = sparse; device = s })
      → Saved text d w s out

module _ (dev : Device) (host : Host) where
  rewind-Saved :
      (text : List ℕ) (d : DaemonTrace) (w : World dev.State) (offset : ℕ) (sparse : List ℕ)
      (s : dev.State)
      → Records text (record d { offset_map = offset }) sparse
      → Saved text d w s (
          some (
            rewind dev host
              (record d { offset_map = offset })
              (record w { sparse = sparse; device = s })))
  unfolding rewind
  rewind-Saved text d w offset sparse s r = elim (Bool-cases (is_neg (dev.lseek s))) [
    | inl failed ↦ rw failed (not_saved 21 offset sparse refl)
    | inr ok ↦ rw ok (saved offset sparse refl r)
  ]

  -- After the loop over the measures.
  unmap-Saved :
      (i start : ℕ) (text lines : List ℕ) (d : DaemonTrace) (w : World dev.State) (s : dev.State)
      (out : Option (List ℕ))
      → offset_to_page d.offset_map ≡ start
      → start ≤ length text
      → IsText lines
      → Records text d w.sparse
      → Written (drop start text ++ lines) out
      → Saved (text ++ lines) d w s (unmap dev host i d (record w { device = s }) out)
  unmap-Saved i start text lines d w s out at h l r (written map e holds_map) =
      rw e (elim (Bool-cases (host.munmap i)) [
        | inr failed ↦ rw failed (
            not_saved 21 (offset_to_page d.offset_map + strlen map)
              (write_back (offset_to_page d.offset_map) w.sparse map) refl)
        | inl ok ↦ rw ok (
            rewind-Saved (text ++ lines) d w (offset_to_page d.offset_map + strlen map)
              (write_back (offset_to_page d.offset_map) w.sparse map) s
              (record {
                chars = IsText-append text lines r.chars l;
                bytes = rw at (file-Holds r.bytes holds_map);
                offset = rw at (end-length holds_map);
              }))
      ])
    where
      file-Holds :
          {sparse bytes : List ℕ}
          → Holds text sparse
          → Holds (drop start text ++ lines) bytes
          → Holds (text ++ lines) (write_back start sparse bytes)
      file-Holds {bytes} (holds k z) b = rw z (write_back-Holds start k text lines bytes h b)

      end-length :
          {bytes : List ℕ}
          → Holds (drop start text ++ lines) bytes
          → start + strlen bytes ≡ length (text ++ lines)
      end-length (holds k z) =
          rw
            (
              z,
              strlen-text (drop start text ++ lines) k
                  (IsText-append (drop start text) lines (IsText-drop start text r.chars) l),
            )
            (omega (
              arith,
              length-append (drop start text) lines,
              length-append text lines,
              length-drop start text,
            ))

  save_lines-Saved :
      (i : ℕ) (rs : List RegionMem) (text : List ℕ) (d : DaemonTrace) (w : World dev.State)
      (s : dev.State)
      → AreCounted rs
      → Records text d w.sparse
      → length text + 200 * length (measures rs) ≤ w.size
      → Saved
          (text ++ lines_of (measures rs))
          d
          w
          s
          (save_lines dev host i rs d (record w { device = s }))
  unfolding save_lines
  save_lines-Saved i rs text d w s c r room = elim (Bool-cases (host.mmap i)) [
    | inr failed ↦ rw failed (not_saved 0 d.offset_map w.sparse refl)
    | inl ok ↦ rw ok (
        unmap-Saved i (offset_to_page d.offset_map) text (lines_of (measures rs)) d w s _ refl
          (omega (arith, r.offset)) (IsText-lines_of (measures rs)) r (lines-Written r.bytes))
  ]
    where
      lines-Written :
          {sparse : List ℕ}
          → Holds text sparse
          → Written (drop (offset_to_page d.offset_map) text ++ lines_of (measures rs)) (
              write_lines
                (min
                  (size_map d.offset_map (count_region rs 0))
                  (w.size - offset_to_page d.offset_map))
                (measures rs)
                (drop (offset_to_page d.offset_map) sparse))
      lines-Written (holds k z) =
          let n = count_region-measures rs 0 c.stored (omega (arith, c.few)) in
          let within : offset_to_page d.offset_map ≤ length text = omega (arith, r.offset) in
          rw (z, drop-within (offset_to_page d.offset_map) k text within)
            (write_lines-Written
              (min (size_map d.offset_map (count_region rs 0))
                (w.size - offset_to_page d.offset_map))
              k (measures rs) (drop (offset_to_page d.offset_map) text)
              (IsText-drop (offset_to_page d.offset_map) text r.chars)
              (within-both
                (length (drop (offset_to_page d.offset_map) text) + 200 * length (measures rs))
                (size_map d.offset_map (count_region rs 0)) (w.size - offset_to_page d.offset_map)
                (ground (arith, n, c.few, r.offset, length-drop (offset_to_page d.offset_map) text))
                (omega (arith, room, within, length-drop (offset_to_page d.offset_map) text))))

length-zero : (us : List UnitBuff) → length us ≡ 0 → us ≡ []
length-zero [] e = refl
length-zero (u ∷ us) e = absurd (omega (arith, e))

-- A round of save_measure on a sparse file that holds a text with its offset, where the regions read
-- have measures for their counts and fewer than 10^7 of them together, and the file has 200 bytes for
-- each of them after the text: no line is written outside the mapping or the file; it returns 0 with the lines of the measures added to the text, region by region in order,
-- and the offset moved on, or it returns a negative number. In both cases nothing else of the state
-- changes but the device, which was read once.
pub save_measure-Saved :
    (dev : Device) (host : Host) (i : ℕ) (rs : List RegionMem) (text : List ℕ) (d : DaemonTrace)
    (w : World dev.State)
    → (dev.read w.device).0 ≡ some rs
    → AreCounted rs
    → Records text d w.sparse
    → length text + 200 * length (measures rs) ≤ w.size
    → Saved (text ++ lines_of (measures rs)) d w (dev.read w.device).1 (save_measure dev host i d w)
unfolding save_measure
save_measure-Saved dev host i rs text d w e c r room =
    rw e (elim (Bool-cases (ltb 0 (count_region rs 0) && ltb (count_region rs 0) (2 ^ 31))) [
      | inl some_measures ↦
          rw some_measures (save_lines-Saved dev host i rs text d w (dev.read w.device).1 c r room)
      | inr no_measures ↦
          let n = count_region-measures rs 0 c.stored (omega (arith, c.few)) in
          let empty : measures rs ≡ [] = length-zero (measures rs) (ground (arith, n, c.few)) in
          rw (no_measures, empty, append-nil text)
            (rewind-Saved dev host text d w d.offset_map w.sparse (dev.read w.device).1 r)
    ])
