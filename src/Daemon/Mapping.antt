-- ===== src/Daemon/Mapping.antt =====
-- Text in a mapped part of a file that is zero after it: `strlen(map)`, and the loop of `sprintf` over
-- the measures (trace/daemon/core_daemon.c, save_measure).
use dmacftu.Prelude.{
  ℕ, zero, suc, ◌+◌, ◌-◌, ◌*◌, ◌≤◌, ◌≡◌, refl, ap, sym, List, [], ◌∷◌, ◌++◌, Option, none, some,
  length, take, drop, replicate, leb, ◌==◌, if◌then◌else◌, arith, length-append, drop-append,
  drop-all,
}
use mathlib.Core.List.{append_assoc, append-nil}
use dmacftu.CircularBuffer.{UnitBuff}
use dmacftu.Daemon.Text.{line_of, lines_of}
use dmacftu.Daemon.Lines.{IsText, IsText-append, length-line_of, IsText-line_of}

-- The characters before the first NUL; the bytes after those listed are zero.
unfoldable pub strlen : List ℕ → ℕ
strlen [] = 0
strlen (c ∷ cs) = let rest = strlen cs in if c == 0 then 0 else suc rest

-- A write of xs with a NUL after it, at position p.
abbrev pub put_at : ℕ → List ℕ → List ℕ → List ℕ
put_at p xs map = take p map ++ (xs ++ 0 ∷ drop (p + length xs + 1) map)

-- `sprintf` to `&map[strlen(map)]`, in a mapping of the given size; `none` is a write past its end.
unfoldable pub append_line : ℕ → List ℕ → List ℕ → Option (List ℕ)
unfolding strlen
append_line size_map line map =
    if leb (strlen map + length line + 1) size_map
    then some (put_at (strlen map) line map)
    else none

-- The loop over the measures of a region, and over the regions one after the other.
unfoldable pub write_lines : ℕ → List UnitBuff → List ℕ → Option (List ℕ)
unfolding append_line
write_lines size_map [] map = some map
write_lines size_map (u ∷ us) map = elim (append_line size_map (line_of u) map) [
  | none ↦ none
  | some map' ↦ write_lines size_map us map'
]

pub strlen-text :
    (text : List ℕ) (k : ℕ) → IsText text → strlen (text ++ replicate k 0) ≡ length text
unfolding strlen
strlen-text [] zero h = refl
strlen-text [] (suc k) h = refl
strlen-text (c ∷ cs) k h = ground (arith, h, strlen-text cs k h.1)

drop-replicate : (m k : ℕ) → drop m (replicate {A = ℕ} k 0) ≡ replicate (k - m) 0
drop-replicate zero k = let e : k - 0 ≡ k = omega arith in rw e
drop-replicate (suc m) zero = let e : 0 - suc m ≡ 0 = omega arith in rw e
drop-replicate (suc m) (suc k) =
    let e : suc k - suc m ≡ k - m = omega arith in rw (e, drop-replicate m k)

take-length : (xs ys : List ℕ) → take (length xs) (xs ++ ys) ≡ xs
take-length [] ys = refl
take-length (x ∷ xs) ys = ap (λ zs. x ∷ zs) (take-length xs ys)

-- The text with zeros after it: a write at its end extends the text.
put_at-text :
    (text line : List ℕ) (k : ℕ)
    → put_at (length text) line (text ++ replicate k 0)
      ≡ (text ++ line) ++ replicate (suc (k - suc (length line))) 0
put_at-text text line k =
    let t : take (length text) (text ++ replicate k 0) ≡ text = take-length text (replicate k 0) in
    let d : drop (length text + length line + 1) (text ++ replicate k 0)
        ≡ replicate (k - suc (length line)) 0 =
      let n : length text + length line + 1 - length text ≡ suc (length line) = omega arith in
      rw (
        drop-append (length text + length line + 1) text (replicate k 0),
        drop-all (length text + length line + 1) text (omega arith),
        n,
        drop-replicate (suc (length line)) k,
      ) in
    rw (t, d) (sym (append_assoc text line (0 ∷ replicate (k - suc (length line)) 0)))

append_line-text :
    (size_map k : ℕ) (text line : List ℕ)
    → IsText text
    → length text + length line + 1 ≤ size_map
    → append_line size_map line (text ++ replicate k 0)
      ≡ some ((text ++ line) ++ replicate (suc (k - suc (length line))) 0)
unfolding append_line
append_line-text size_map k text line h fits =
    ground (arith, strlen-text text k h, put_at-text text line k)

-- The bytes after a text are zero.
pub data Holds (text : List ℕ) (bytes : List ℕ) : Type 0 where
  holds : (k : ℕ) → bytes ≡ text ++ replicate k 0 → Holds text bytes

-- A write that ends, with text in the bytes that it leaves.
pub data Written (text : List ℕ) (out : Option (List ℕ)) : Type 0 where
  written : (bytes : List ℕ) → out ≡ some bytes → Holds text bytes → Written text out

write_lines-cons :
    (size_map : ℕ) (u : UnitBuff) (us : List UnitBuff) (map map' : List ℕ)
    → append_line size_map (line_of u) map ≡ some map'
    → write_lines size_map (u ∷ us) map ≡ write_lines size_map us map'
unfolding write_lines
write_lines-cons size_map u us map map' e = ground (arith, e)

-- All lines fit a mapping with 200 bytes for each of them after the text.
pub write_lines-Written :
    (size_map k : ℕ) (us : List UnitBuff) (text : List ℕ)
    → IsText text
    → length text + 200 * length us ≤ size_map
    → Written (text ++ lines_of us) (write_lines size_map us (text ++ replicate k 0))
unfolding write_lines
write_lines-Written size_map k [] text h fits =
    written (text ++ replicate k 0) refl
      (holds k (ap (λ t. t ++ replicate k 0) (sym (append-nil text))))
write_lines-Written size_map k (u ∷ us) text h fits =
    let len = length-line_of u in
    let k' : ℕ = suc (k - suc (length (line_of u))) in
    rw
      (
        write_lines-cons size_map u us (text ++ replicate k 0)
            ((text ++ line_of u) ++ replicate k' 0)
            (append_line-text size_map k text (line_of u) h (omega (arith, len))),
        sym (append_assoc text (line_of u) (lines_of us)),
      )
      (write_lines-Written size_map k' us (text ++ line_of u)
        (IsText-append text (line_of u) h (IsText-line_of u))
        (omega (arith, length-append text (line_of u), len)))
