-- ===== src/Daemon/Lines.antt =====
-- The length of a line and the characters in it (trace/daemon/core_daemon.c, save_measure).
use dmacftu.Prelude.{
  ℕ, zero, suc, ◌+◌, ◌-◌, ◌/◌, ◌%◌, ◌≤◌, ◌<◌, List, [], ◌∷◌, ◌++◌, length, replicate, ltb, ◌==◌,
  All, arith, length-append, length-replicate, Bool-cases, inl, inr,
}
use dmacftu.CircularBuffer.{UnitBuff, op_copy_cpu, op_copy_dma}
use dmacftu.Daemon.Text.{
  decimal, hexadecimal, hex_digit, pad, number, pointer, type_name, diff_time, join, fields,
  line_of, first_row,
}

length-decimal : (f n : ℕ) → length (decimal f n) ≤ f
unfolding decimal
length-decimal zero n = omega arith
length-decimal (suc f) n =
    ground
      (arith, length-decimal f (n / 10), length-append (decimal f (n / 10)) ((48 + n % 10) ∷ []))

length-hexadecimal : (f n : ℕ) → length (hexadecimal f n) ≤ f
unfolding hexadecimal
length-hexadecimal zero n = omega arith
length-hexadecimal (suc f) n = ground (
  arith,
  length-hexadecimal f (n / 16),
  length-append (hexadecimal f (n / 16)) (hex_digit (n % 16) ∷ []),
)

length-pad : (w : ℕ) (s : List ℕ) (k : ℕ) → w ≤ k → length s ≤ k → length (pad w s) ≤ k
length-pad w s k h l = omega (
  arith,
  length-append (replicate (w - length s) 32) s,
  length-replicate {A = ℕ} (w - length s) 32,
)

length-number : (w n k : ℕ) → w ≤ k → 20 ≤ k → length (number w n) ≤ k
length-number w n k h l =
    let d = length-decimal 20 n in length-pad w (decimal 20 n) k h (omega arith)

length-pointer : (a : ℕ) → length (pointer a) ≤ 24
length-pointer a = ground (arith, length-hexadecimal 16 a)

length-type_name : (t : ℕ) → length (type_name t) ≤ 13
length-type_name t = ground arith

abbrev sum : List ℕ → ℕ
sum [] = 0
sum (n ∷ ns) = n + sum ns

-- Bounds on the parts, one for each.
abbrev AreWithin : List ℕ → List (List ℕ) → Type 0
AreWithin [] [] = Unit
AreWithin (n ∷ ns) (xs ∷ xss) = (length xs ≤ n) × AreWithin ns xss
AreWithin _ _ = ⊥

length-join : (ns : List ℕ) (xss : List (List ℕ)) → AreWithin ns xss → length (join xss) ≤ sum ns
length-join [] [] h = omega arith
length-join [] (xs ∷ xss) h = absurd h
length-join (n ∷ ns) [] h = absurd h
length-join (n ∷ ns) (xs ∷ xss) h =
    omega (arith, length-append xs (join xss), h.0, length-join ns xss h.1)

-- A line has at most 184 characters.
pub length-line_of : (u : UnitBuff) → length (line_of u) ≤ 184
unfolding line_of
length-line_of u =
    length-join (20 ∷ 4 ∷ 20 ∷ 20 ∷ 20 ∷ 21 ∷ 21 ∷ 20 ∷ 24 ∷ 13 ∷ 1 ∷ []) (fields u) (
      length-number 0 u.index_cpu_event 20 (omega arith) (omega arith),
      (
        omega arith,
        (
          length-number 13 u.count_event 20 (omega arith) (omega arith),
          (
            length-number 17 u.size 20 (omega arith) (omega arith),
            (
              length-number 10 u.index_cpu 20 (omega arith) (omega arith),
              (
                length-number 21 u.clock_cpu_start 21 (omega arith) (omega arith),
                (
                  length-number 21 u.clock_cpu_end 21 (omega arith) (omega arith),
                  (
                    length-number 15 (diff_time u.clock_cpu_start u.clock_cpu_end) 20 (omega arith)
                        (omega arith),
                    (
                      length-pad 24 (pointer u.addr) 24 (omega arith) (length-pointer u.addr),
                      (
                        length-pad 13 (type_name u.type_op) 13 (omega arith)
                            (length-type_name u.type_op),
                        (omega arith, tt),
                      ),
                    ),
                  ),
                ),
              ),
            ),
          ),
        ),
      ),
    )

-- Characters other than NUL.
abbrev pub IsText : List ℕ → Type 0
IsText = All (λ c. 0 < c)

pub IsText-append : (xs ys : List ℕ) → IsText xs → IsText ys → IsText (xs ++ ys)
IsText-append [] ys h k = k
IsText-append (x ∷ xs) ys h k = (h.0, IsText-append xs ys h.1 k)

IsText-replicate : (n : ℕ) → IsText (replicate n 32)
IsText-replicate zero = tt
IsText-replicate (suc n) = (omega arith, IsText-replicate n)

IsText-decimal : (f n : ℕ) → IsText (decimal f n)
unfolding decimal
IsText-decimal zero n = tt
IsText-decimal (suc f) n = elim (Bool-cases (ltb n 10)) [
  | inl one ↦ rw one (omega arith, tt)
  | inr more ↦ rw more (
      IsText-append (decimal f (n / 10)) ((48 + n % 10) ∷ []) (IsText-decimal f (n / 10))
        (omega arith, tt))
]

hex_digit-pos : (d : ℕ) → 0 < hex_digit d
hex_digit-pos d = ground arith

IsText-hexadecimal : (f n : ℕ) → IsText (hexadecimal f n)
unfolding hexadecimal
IsText-hexadecimal zero n = tt
IsText-hexadecimal (suc f) n = elim (Bool-cases (ltb n 16)) [
  | inl one ↦ rw one (hex_digit-pos n, tt)
  | inr more ↦ rw more (
      IsText-append (hexadecimal f (n / 16)) (hex_digit (n % 16) ∷ [])
        (IsText-hexadecimal f (n / 16)) (hex_digit-pos (n % 16), tt))
]

IsText-pad : (w : ℕ) (s : List ℕ) → IsText s → IsText (pad w s)
IsText-pad w s h = IsText-append (replicate (w - length s) 32) s (IsText-replicate (w - length s)) h

IsText-number : (w n : ℕ) → IsText (number w n)
IsText-number w n = IsText-pad w (decimal 20 n) (IsText-decimal 20 n)

IsText-pointer : (a : ℕ) → IsText (pointer a)
IsText-pointer a = elim (Bool-cases (a == 0)) [
  | inl null ↦ rw null (omega arith)
  | inr other ↦ rw other (omega arith, (omega arith, IsText-hexadecimal 16 a))
]

IsText-type_name : (t : ℕ) → IsText (type_name t)
IsText-type_name t = elim (Bool-cases (t == op_copy_cpu)) [
  | inl cpu ↦ rw cpu (omega arith)
  | inr other ↦ elim (Bool-cases (t == op_copy_dma)) [
    | inl dma ↦ rw (other, dma) (omega arith)
    | inr none_of_them ↦ rw (other, none_of_them) (omega arith)
  ]
]

IsText-join : (xss : List (List ℕ)) → All IsText xss → IsText (join xss)
IsText-join [] h = tt
IsText-join (xs ∷ xss) h = IsText-append xs (join xss) h.0 (IsText-join xss h.1)

pub IsText-line_of : (u : UnitBuff) → IsText (line_of u)
unfolding line_of
IsText-line_of u = IsText-join (fields u) (
  IsText-number 0 u.index_cpu_event,
  (
    omega arith,
    (
      IsText-number 13 u.count_event,
      (
        IsText-number 17 u.size,
        (
          IsText-number 10 u.index_cpu,
          (
            IsText-number 21 u.clock_cpu_start,
            (
              IsText-number 21 u.clock_cpu_end,
              (
                IsText-number 15 (diff_time u.clock_cpu_start u.clock_cpu_end),
                (
                  IsText-pad 24 (pointer u.addr) (IsText-pointer u.addr),
                  (
                    IsText-pad 13 (type_name u.type_op) (IsText-type_name u.type_op),
                    (omega arith, tt),
                  ),
                ),
              ),
            ),
          ),
        ),
      ),
    ),
  ),
)

pub first_row-IsText : IsText first_row
first_row-IsText = omega arith
