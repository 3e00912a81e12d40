-- ===== src/Bench/Msg/Measuring.antt =====
-- The measures that the message benchmark records (micro-benchmark_Msg/driver/core_benchmark.c,
-- start_measure).
use dmacftu.Prelude.{
  ℕ, zero, suc, ◌+◌, ◌≤◌, ◌<◌, ◌≡◌, refl, ap, sym, ◌∙◌, Bool, List, [], ◌∷◌, ◌++◌, map, Option,
  none, some, ℤ, set, length, take, drop, arith, Option-cases, inl, inr, length-set, take-set_end,
  drop-set_before,
}
use mathlib.Core.List.{append_assoc}
use dmacftu.Request.{RequestCopy}
use dmacftu.Engine.{Engine}
use dmacftu.UserCopy.Policies.{dma_copy_policy-keeps}
use dmacftu.Bench.Msg.{
  UnitBuffUser, BenchmarkOutput, Machine, PtrCopy, cpu_copy, dma_copy, Work, copy_once, flush,
  timed, copy_measure, size_of, unit_at, on_cpu, store, measure_loop,
}

-- The results of n copies, from number k on, without the measures.
unfoldable pub run_copies :
    Machine → PtrCopy → ℕ → ℕ → RequestCopy → Engine → Option (List ℤ × RequestCopy × Engine)
run_copies m ptr zero k q e = some ([], q, e)
run_copies m ptr (suc n) k q e = elim (copy_once m k ptr q e) [
  | none ↦ none
  | some (ret, q', e') ↦ elim (run_copies m ptr n (suc k) q' e') [
    | none ↦ none
    | some (rets, q'', e'') ↦ some (ret ∷ rets, q'', e'')
  ]
]

-- The first of several copies, and the others.
pub data Split (m : Machine) (ptr : PtrCopy) (n k : ℕ) (q : RequestCopy) (e : Engine)
    (rets : List ℤ) (q'' : RequestCopy) (e'' : Engine) : Type 0 where
  split :
      (ret : ℤ) (rest : List ℤ) (q' : RequestCopy) (e' : Engine)
      → rets ≡ ret ∷ rest
      → copy_once m k ptr q e ≡ some (ret, q', e')
      → run_copies m ptr n (suc k) q' e' ≡ some (rest, q'', e'')
      → Split m ptr n k q e rets q'' e''

pub run_copies-Split :
    (m : Machine) (ptr : PtrCopy) (n k : ℕ) (q : RequestCopy) (e : Engine) (rets : List ℤ)
    (q'' : RequestCopy) (e'' : Engine)
    → run_copies m ptr (suc n) k q e ≡ some (rets, q'', e'')
    → Split m ptr n k q e rets q'' e''
unfolding run_copies
run_copies-Split m ptr n k q e rets q'' e'' h = elim (Option-cases (copy_once m k ptr q e)) [
  | inl polls ↦ absurd (ground (arith, polls, h))
  | inr (x, once) ↦ elim (Option-cases (run_copies m ptr n (suc k) x.1 x.2)) [
    | inl polls ↦ absurd (ground (arith, once, polls, h))
    | inr (y, others) ↦
        split x.0 y.0 x.1 x.2 (ground (arith, once, others, h)) once
          (ground (arith, once, others, h))
  ]
]

pub copy_once-keeps :
    (m : Machine) (k : ℕ) (ptr : PtrCopy) (q : RequestCopy) (e : Engine) (ret : ℤ)
    (q' : RequestCopy) (e' : Engine)
    → copy_once m k ptr q e ≡ some (ret, q', e')
    → (q'.pages ≡ q.pages) × (q'.nr_pages ≡ q.nr_pages) × (q'.len ≡ q.len)
copy_once-keeps m k (cpu_copy dir) q e ret q' e' h = ground (arith, h)
copy_once-keeps m k (dma_copy policy dir) q e ret q' e' h =
    dma_copy_policy-keeps policy dir m.channels q e ret q' e' h

pub run_copies-keeps :
    (m : Machine) (ptr : PtrCopy) (n k : ℕ) (q : RequestCopy) (e : Engine) (rets : List ℤ)
    (q' : RequestCopy) (e' : Engine)
    → run_copies m ptr n k q e ≡ some (rets, q', e')
    → (q'.pages ≡ q.pages) × (q'.nr_pages ≡ q.nr_pages)
unfolding run_copies
run_copies-keeps m ptr zero k q e rets q' e' h = ground (arith, h)
run_copies-keeps m ptr (suc n) k q e rets q' e' h =
    elim (run_copies-Split m ptr n k q e rets q' e' h) [
      | split ret rest q1 e1 all once others ↦
          let (p, c, l) = copy_once-keeps m k ptr q e ret q1 e1 once in
          let (ps, cs) = run_copies-keeps m ptr n (suc k) q1 e1 rest q' e' others in
          (ps ∙ p, cs ∙ c)
    ]

-- One measure.
pub copy_measure-runs :
    (m : Machine) (k : ℕ) (c : Bool) (ptr : PtrCopy) (u : UnitBuffUser) (w : Work) (ret : ℤ)
    (q' : RequestCopy) (e' : Engine)
    → copy_once m k ptr w.req w.engine ≡ some (ret, q', e')
    → copy_measure m k c ptr u w
      ≡ some (ret, timed m k u, record (flush c w) { req = q'; engine = e' })
unfolding copy_measure
copy_measure-runs m k c ptr u w ret q' e' h = rw h refl

-- The sizes in the measures that are recorded.
pub sizes : BenchmarkOutput → List ℕ
sizes r = map (λ u. u.size) r.buffer

module _ {A B : Type 0} (f : A → B) where
  map-set : (xs : List A) (i : ℕ) (x : A) → map f (set xs i x) ≡ set (map f xs) i (f x)
  map-set [] i x = refl
  map-set (y ∷ xs) zero x = refl
  map-set (y ∷ xs) (suc i) x = ap (λ r. f y ∷ r) (map-set xs i x)

  length-map : (xs : List A) → length (map f xs) ≡ length xs
  length-map [] = refl
  length-map (x ∷ xs) = ap suc (length-map xs)

sizes-store :
    (i x n : ℕ) (u : UnitBuffUser) (r : BenchmarkOutput)
    → sizes (record (store i (record u { size = x }) r) { count = n }) ≡ set (sizes r) i x
unfolding sizes
sizes-store i x n u r = map-set (λ u. u.size) r.buffer i (record u { size = x })

pub length-sizes : (r : BenchmarkOutput) → length (sizes r) ≡ length r.buffer
unfolding sizes
length-sizes r = length-map (λ u. u.size) r.buffer

take-drop : {A : Type 0} (n : ℕ) (xs : List A) → take n xs ++ drop n xs ≡ xs
take-drop zero xs = refl
take-drop (suc n) [] = refl
take-drop (suc n) (x ∷ xs) = ap (λ r. x ∷ r) (take-drop n xs)

-- One size more, then the others.
sizes-step :
    {A : Type 0} (i n : ℕ) (xs : List A) (x : A) (ys : List A)
    → i < length xs
    → take (suc i) (set xs i x) ++ (ys ++ drop (suc (i + n)) (set xs i x))
      ≡ take i xs ++ ((x ∷ ys) ++ drop (suc (i + n)) xs)
sizes-step i n xs x ys h =
    rw (take-set_end i xs x h, drop-set_before (suc (i + n)) i xs x (omega arith))
      (append_assoc (take i xs) (x ∷ []) (ys ++ drop (suc (i + n)) xs))

-- One turn of the loop.
measure_loop-step :
    (m : Machine) (c : Bool) (ptr : PtrCopy) (n i : ℕ) (ret : ℤ) (q' : RequestCopy) (e' : Engine)
    (r : BenchmarkOutput) (w : Work)
    → copy_once m (suc i) ptr w.req w.engine ≡ some (ret, q', e')
    → measure_loop m c ptr (suc n) i r w
      ≡ measure_loop m c ptr n
          (suc i)
          (record (store i
            (record (timed m (suc i) (on_cpu m (suc i) (unit_at r i))) {
              size = size_of q'.len ret;
            })
            r) { count = r.count + 1 })
          (record (flush c w) { req = q'; engine = e' })
unfolding measure_loop
measure_loop-step m c ptr n i ret q' e' r w once =
    ap
      (λ out. elim out [
        | none ↦ none
        | some (ret, u, w') ↦
            measure_loop m c ptr n (suc i)
              (record (store i (record u { size = size_of w'.req.len ret }) r) {
                count = r.count + 1;
              })
              w'
      ])
      (copy_measure-runs m (suc i) c ptr (on_cpu m (suc i) (unit_at r i)) w ret q' e' once)

-- What the loop leaves after n measures from number i on.
pub record Measures (len n i : ℕ) (rets : List ℤ) (q : RequestCopy) (e : Engine)
    (r : BenchmarkOutput) (w : Work) (out : Option (BenchmarkOutput × Work)) : Type 0 where
  pub results : BenchmarkOutput
  pub work : Work
  pub ends : out ≡ some (results, work)
  pub counted : results.count ≡ r.count + n
  pub recorded :
      sizes results ≡ take i (sizes r) ++ (map (size_of len) rets ++ drop (i + n) (sizes r))
  pub req : work.req ≡ q
  pub engine : work.engine ≡ e

pub measure_loop-Measures :
    (m : Machine) (c : Bool) (ptr : PtrCopy) (n i : ℕ) (rets : List ℤ) (q : RequestCopy)
    (e : Engine) (r : BenchmarkOutput) (w : Work)
    → run_copies m ptr n (suc i) w.req w.engine ≡ some (rets, q, e)
    → i + n ≤ length r.buffer
    → Measures w.req.len n i rets q e r w (measure_loop m c ptr n i r w)
unfolding run_copies measure_loop
measure_loop-Measures m c ptr zero i rets q e r w h le =
    let none_left : rets ≡ [] = ground (arith, h) in
    let here : i + 0 ≡ i = omega arith in
    record {
      results = r;
      work = w;
      ends = refl;
      counted = omega arith;
      recorded = rw (none_left, here) (sym (take-drop i (sizes r)));
      req = ground (arith, h);
      engine = ground (arith, h);
    }
measure_loop-Measures m c ptr (suc n) i rets q e r w h le =
    elim (run_copies-Split m ptr n (suc i) w.req w.engine rets q e h) [
      | split ret rest q' e' all once others ↦
          let u : UnitBuffUser = timed m (suc i) (on_cpu m (suc i) (unit_at r i)) in
          let w' : Work = record (flush c w) { req = q'; engine = e' } in
          let (p, cnt, same) = copy_once-keeps m (suc i) ptr w.req w.engine ret q' e' once in
          let x : ℕ = size_of q'.len ret in
          let r' : BenchmarkOutput = record (store i (record u { size = x }) r) {
            count = r.count + 1;
          } in
          let room = length-set r.buffer i (record u { size = x }) in
          let rest_measured =
            measure_loop-Measures m c ptr n (suc i) rest q e r' w' others
              (omega (arith, le, room)) in
          let next_index : suc i + n ≡ suc (i + n) = omega arith in
          let last_index : i + suc n ≡ suc (i + n) = omega arith in
          let here : i < length (sizes r) = omega (arith, le, length-sizes r) in
          record {
            results = rest_measured.results;
            work = rest_measured.work;
            ends = measure_loop-step m c ptr n i ret q' e' r w once ∙ rest_measured.ends;
            counted = omega (arith, rest_measured.counted);
            recorded =
                rest_measured.recorded
                ∙ rw (all, last_index, next_index, sizes-store i x (r.count + 1) u r, same)
                    (sizes-step i n (sizes r) (size_of w.req.len ret) (map (size_of w.req.len) rest)
                      here);
            req = rest_measured.req;
            engine = rest_measured.engine;
          }
    ]
