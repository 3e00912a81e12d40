-- ===== src/Bench/Msg/Sizes.antt =====
-- The sizes that the message benchmark records for its copies
-- (micro-benchmark_Msg/driver/core_benchmark.c, start_measure).
use dmacftu.Prelude.{
  ℕ, suc, ◌+◌, ◌%◌, ◌^◌, ◌≤◌, ◌<◌, ◌≡◌, ap, List, [], ◌∷◌, map, ℤ, pos, negsuc, arith,
}
use dmacftu.Bench.Msg.{size_of}

-- The size recorded for the result of a copy of len bytes: with the bytes that the copy has left it makes
-- len; a result below 0 counts as more than len.
pub record IsSize (len : ℕ) (ret : ℤ) (size : ℕ) : Type 0 where
  pub moved : (n : ℕ) → ret ≡ pos n → n ≤ len → size + n ≡ len
  pub error : (e : ℕ) → ret ≡ negsuc e → size ≡ (len + e + 1) % 2 ^ 64

-- One size for each result.
abbrev pub AreSizes : ℕ → List ℤ → List ℕ → Type 0
AreSizes len [] [] = Unit
AreSizes len (ret ∷ rets) (x ∷ xs) = IsSize len ret x × AreSizes len rets xs
AreSizes len [] (x ∷ xs) = ⊥
AreSizes len (ret ∷ rets) [] = ⊥

size_of-IsSize : (len : ℕ) (ret : ℤ) → len < 2 ^ 64 → IsSize len ret (size_of len ret)
size_of-IsSize len (pos k) small = record {
  moved = λ n e le. let same : k ≡ n = ground (arith, e) in omega (arith, same, le, small);
  error = λ n e. absurd (ground (arith, e));
}
size_of-IsSize len (negsuc k) small = record {
  moved = λ n e le. absurd (ground (arith, e));
  error = λ n e.
      let same : k ≡ n = ground (arith, e) in
      let sum : len + suc k ≡ len + n + 1 = omega (arith, same) in ap (λ (m : ℕ). m % 2 ^ 64) sum;
}

pub map-AreSizes :
    (len : ℕ) (rets : List ℤ) → len < 2 ^ 64 → AreSizes len rets (map (size_of len) rets)
map-AreSizes len [] small = tt
map-AreSizes len (ret ∷ rets) small = (size_of-IsSize len ret small, map-AreSizes len rets small)
