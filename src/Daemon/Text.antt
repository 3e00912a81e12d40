-- ===== src/Daemon/Text.antt =====
-- The text that the daemon writes for a measure: the format of the `sprintf` of save_measure
-- (trace/daemon/core_daemon.c) and the first row (trace/daemon/daemon_operation.c). Characters are
-- their codes.

use Prim.Native.String.{String}
use Prim.Native.Char.{code}
use dmacftu.Prelude.{
  ℕ, zero, suc, ◌+◌, ◌-◌, ◌/◌, ◌%◌, List, [], ◌∷◌, ◌++◌, length, replicate, ltb, ◌==◌,
  if◌then◌else◌,
}
use dmacftu.CircularBuffer.{UnitBuff, op_copy_cpu, op_copy_dma}

abbrev pub codes : String → List ℕ
codes String.[] = []
codes (String.◌∷◌ c s) = code c ∷ codes s

-- The digits of a number, at most the given count of them: `%llu` and the digits of `%p`.
unfoldable pub decimal : ℕ → ℕ → List ℕ
decimal zero n = []
decimal (suc f) n =
    let front = decimal f (n / 10) in
    if ltb n 10 then (48 + n) ∷ [] else front ++ (48 + n % 10) ∷ []

abbrev pub hex_digit : ℕ → ℕ
hex_digit d = if ltb d 10 then 48 + d else 87 + d

unfoldable pub hexadecimal : ℕ → ℕ → List ℕ
hexadecimal zero n = []
hexadecimal (suc f) n =
    let front = hexadecimal f (n / 16) in
    if ltb n 16 then hex_digit n ∷ [] else front ++ hex_digit (n % 16) ∷ []

-- A field of at least w characters.
abbrev pub pad : ℕ → List ℕ → List ℕ
pad w s = replicate (w - length s) 32 ++ s

-- An `unsigned long long` has at most 20 digits, and an address 16.
abbrev pub number : ℕ → ℕ → List ℕ
number w n = pad w (decimal 20 n)

abbrev pub pointer : ℕ → List ℕ
pointer a = if a == 0 then codes "(nil)" else 48 ∷ 120 ∷ hexadecimal 16 a

-- diff_time.
unfoldable pub diff_time : ℕ → ℕ → ℕ
diff_time start end = if ltb end start then 0 else end - start

-- The `switch` over type_op.
abbrev pub type_name : ℕ → List ℕ
type_name t =
    if t == op_copy_cpu
    then codes "CPU"
    else if t == op_copy_dma
    then codes "DMA"
    else codes "NO DEF"

abbrev pub join : List (List ℕ) → List ℕ
join [] = []
join (xs ∷ xss) = xs ++ join xss

abbrev pub fields : UnitBuff → List (List ℕ)
fields u =
    number 0 u.index_cpu_event
    ∷ (32 ∷ 32 ∷ 32 ∷ 32 ∷ [])
    ∷ number 13 u.count_event
    ∷ number 17 u.size
    ∷ number 10 u.index_cpu
    ∷ number 21 u.clock_cpu_start
    ∷ number 21 u.clock_cpu_end
    ∷ number 15 (diff_time u.clock_cpu_start u.clock_cpu_end)
    ∷ pad 24 (pointer u.addr)
    ∷ pad 13 (type_name u.type_op)
    ∷ (10 ∷ [])
    ∷ []

-- The line of a measure.
unfoldable pub line_of : UnitBuff → List ℕ
line_of u = join (fields u)

-- The lines of several measures.
abbrev pub lines_of : List UnitBuff → List ℕ
lines_of [] = []
lines_of (u ∷ us) = line_of u ++ lines_of us

-- The first row, which sparse_first_row writes.
abbrev pub first_row : List ℕ
first_row =
    codes
      "#[cpu]CounterEvent     Byte Copiati  end[cpu]     StartTime___(ns)       EndTime___(ns)   DiffTime(ns)             ReturnPoint      Type_op\n"
