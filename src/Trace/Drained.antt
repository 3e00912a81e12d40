-- ===== src/Trace/Drained.antt =====
-- What a read of the trace driver does to the buffers of the CPUs (trace/driver/driverops.c,
-- trace_driver_read).
use dmacftu.Prelude.{
  IsDistinct, elem, length-take, ℕ_discrete, ℕ, zero, suc, ◌≡◌, ◌≢◌, refl, ap, sym, ◌∙◌, subst,
  true, List, [], ◌∷◌, ◌++◌, length, take, drop, ltb, ◌==◌, arith, min, All, ◌<◌, not, some,
  if◌then◌else◌, ℤ, pos,
}
use dmacftu.CircularBuffer.{UnitBuff, CircularBuffer, cb_read_list}
use dmacftu.CircularBuffer.Contents.{IsValid, contents}
use dmacftu.CircularBuffer.Read.{cb_read_list_lem}
use dmacftu.Trace.{
  buff_read, eio, RegionMem, TraceData, region_read_cpu, update, read_cpu, read_cpus,
  trace_driver_read,
}

-- A region that holds the n oldest measures of a buffer, which has lost them.
pub record Drained (n : ℕ) (before after : CircularBuffer) (reg : RegionMem) : Type 0 where
  pub counted : reg.count ≡ min n (length (contents before))
  pub copied : take reg.count reg.buffer ≡ take reg.count (contents before)
  pub removed : contents after ≡ drop reg.count (contents before)
  pub still_valid : IsValid after

take-append : (n : ℕ) (xs ys : List UnitBuff) → n ≡ length xs → take n (xs ++ ys) ≡ xs
take-append zero [] ys e = refl
take-append zero (x ∷ xs) ys e = absurd (omega (arith, e))
take-append (suc n) [] ys e = absurd (omega (arith, e))
take-append (suc n) (x ∷ xs) ys e = ap (λ zs. x ∷ zs) (take-append n xs ys (omega (arith, e)))

region_read_cpu-Drained :
    (len : ℕ) (cb : CircularBuffer) (reg : RegionMem)
    → IsValid cb
    → Drained len cb (region_read_cpu len cb reg).0 (region_read_cpu len cb reg).1
unfolding region_read_cpu
region_read_cpu-Drained len cb reg h =
    let (n, out, rest, valid) = cb_read_list_lem len h in
    let got = cb_read_list cb len in
    let size : got.2 ≡ length got.0 =
      omega (arith, n, ap length out, length-take got.2 (contents cb)) in
    record {
      counted = n;
      copied = take-append got.2 got.0 (drop (length got.0) reg.buffer) size ∙ out;
      removed = rest;
      still_valid = valid;
    }

update-same :
    (f : ℕ → CircularBuffer) (g : ℕ → RegionMem) (i j : ℕ) (a : CircularBuffer) (b : RegionMem)
    → j ≡ i
    → (update f i a j ≡ a) × (update g i b j ≡ b)
update-same f g i j a b e = (ground (arith, e), ground (arith, e))

update-other :
    (f : ℕ → CircularBuffer) (g : ℕ → RegionMem) (i j : ℕ) (a : CircularBuffer) (b : RegionMem)
    → j ≢ i
    → (update f i a j ≡ f j) × (update g i b j ≡ g j)
update-other f g i j a b e = (ground (arith, e), ground (arith, e))

-- The data after the turns of the CPUs, where none is past the end of the regions.
unfoldable pub read_all : ℕ → List ℕ → TraceData → TraceData
read_all len [] t = t
read_all len (j ∷ cpus) t = read_all len cpus (read_cpu len j t)

-- Each of the CPUs has a region.
abbrev pub HaveRegions : List ℕ → TraceData → Type 0
HaveRegions cpus t = All (λ c. c < t.count_region) cpus

read_cpus-read_all :
    (len : ℕ) (cpus : List ℕ) (t : TraceData)
    → HaveRegions cpus t
    → read_cpus len cpus t ≡ some (read_all len cpus t)
unfolding read_cpus read_all
read_cpus-read_all len [] t a = refl
read_cpus-read_all len (c ∷ cpus) t (h, a) =
    let rest = read_cpus-read_all len cpus (read_cpu len c t) a in ground (arith, h, rest)

pub read_all-count_region :
    (len : ℕ) (cpus : List ℕ) (t : TraceData) → (read_all len cpus t).count_region ≡ t.count_region
unfolding read_all
read_all-count_region len [] t = refl
read_all-count_region len (c ∷ cpus) t = read_all-count_region len cpus (read_cpu len c t)

-- What a read returns that reaches every region.
abbrev pub read_result : ℕ → ℕ → ℤ
read_result size_reg left = if not (left == 0) then eio else pos size_reg

pub trace_driver_read-some :
    (len size_reg left : ℕ) (cpus : List ℕ) (t : TraceData)
    → HaveRegions cpus t
    → trace_driver_read true len cpus size_reg left t
      ≡ some (read_result size_reg left, read_all (min len buff_read) cpus t)
unfolding trace_driver_read
trace_driver_read-some len size_reg left cpus t a =
    let n : (if ltb buff_read len then buff_read else len) ≡ min len buff_read = ground arith in
    rw (n, read_cpus-read_all (min len buff_read) cpus t a) refl

read_all-other :
    (len j : ℕ) (cpus : List ℕ) (t : TraceData)
    → All (λ c. c ≢ j) cpus
    → ((read_all len cpus t).ptr_cb j ≡ t.ptr_cb j)
      × ((read_all len cpus t).ptr_region j ≡ t.ptr_region j)
unfolding read_all
read_all-other len j [] t a = (refl, refl)
read_all-other len j (c ∷ cpus) t a =
    let got = region_read_cpu len (t.ptr_cb c) (t.ptr_region c) in
    let (cb, reg) = read_all-other len j cpus (read_cpu len c t) a.1 in
    let (cb', reg') = update-other t.ptr_cb t.ptr_region c j got.0 got.1 (λ e. a.0 (sym e)) in
    (cb ∙ cb', reg ∙ reg')

read_cpu-IsValid :
    (len c : ℕ) (t : TraceData)
    → ((j : ℕ) → IsValid (t.ptr_cb j))
    → (j : ℕ) → IsValid ((read_cpu len c t).ptr_cb j)
read_cpu-IsValid len c t v j =
    let got = region_read_cpu len (t.ptr_cb c) (t.ptr_region c) in
    elim (ℕ_discrete j c) [
      | yes here ↦
          subst IsValid (sym (update-same t.ptr_cb t.ptr_region c j got.0 got.1 here).0)
            ((region_read_cpu-Drained len (t.ptr_cb c) (t.ptr_region c) (v c)).still_valid)
      | no away ↦
          subst IsValid (sym (update-other t.ptr_cb t.ptr_region c j got.0 got.1 away).0) (v j)
    ]

Drained-same :
    (n : ℕ) (before a b : CircularBuffer) (r s : RegionMem)
    → b ≡ a
    → s ≡ r
    → Drained n before a r
    → Drained n before b s
Drained-same n before a b r s e f h = rw (e, f) h

pub read_all-Drained :
    (len j : ℕ) (cpus : List ℕ) (t : TraceData)
    → IsDistinct cpus
    → ((i : ℕ) → IsValid (t.ptr_cb i))
    → elem j cpus ≡ true
    → Drained len (t.ptr_cb j) ((read_all len cpus t).ptr_cb j) ((read_all len cpus t).ptr_region j)
unfolding read_all
read_all-Drained len j [] t d v e = ground (arith, e)
read_all-Drained len j (c ∷ cpus) t d v e =
    let got = region_read_cpu len (t.ptr_cb c) (t.ptr_region c) in
    let t' = read_cpu len c t in
    elim (ℕ_discrete j c) [
      | yes here ↦
          let apart : All (λ i. i ≢ j) cpus = subst (λ k. All (λ i. i ≢ k) cpus) (sym here) d.0 in
          let (cb, reg) = read_all-other len j cpus t' apart in
          let (cb', reg') = update-same t.ptr_cb t.ptr_region c j got.0 got.1 here in
          subst
            (λ k.
              Drained len (t.ptr_cb k) ((read_all len cpus t').ptr_cb j)
                ((read_all len cpus t').ptr_region j))
            (sym here)
            (Drained-same len (t.ptr_cb c) got.0 ((read_all len cpus t').ptr_cb j) got.1
              ((read_all len cpus t').ptr_region j) (cb ∙ cb') (reg ∙ reg')
              (region_read_cpu-Drained len (t.ptr_cb c) (t.ptr_region c) (v c)))
      | no away ↦
          let there : elem j cpus ≡ true = ground (arith, away, e) in
          let (cb', reg') = update-other t.ptr_cb t.ptr_region c j got.0 got.1 away in
          subst
            (λ b.
              Drained len b ((read_all len cpus t').ptr_cb j) ((read_all len cpus t').ptr_region j))
            cb' (read_all-Drained len j cpus t' d.1 (read_cpu-IsValid len c t v) there)
    ]

pub read_all-IsValid :
    (len : ℕ) (cpus : List ℕ) (t : TraceData)
    → ((i : ℕ) → IsValid (t.ptr_cb i))
    → (i : ℕ) → IsValid ((read_all len cpus t).ptr_cb i)
unfolding read_all
read_all-IsValid len [] t v = v
read_all-IsValid len (c ∷ cpus) t v =
    read_all-IsValid len cpus (read_cpu len c t) (read_cpu-IsValid len c t v)

-- A read with a buffer of the user, where the buffers of all CPUs are valid, the present CPUs are
-- distinct, and their numbers are below the number of regions: it touches nothing past the end of the
-- regions, returns their size, or -EIO if they cannot be copied to the user as a whole, and in both cases
-- takes from the buffer of each present CPU its oldest measures, at most `len` and 500, puts them in
-- order at the start of the CPU's region with their number, and leaves the buffers of all CPUs valid.
pub trace_driver_read-Drained :
    (len size_reg left j : ℕ) (cpus : List ℕ) (t : TraceData)
    → IsDistinct cpus
    → ((i : ℕ) → IsValid (t.ptr_cb i))
    → All (λ c. c < t.count_region) cpus
    → elem j cpus ≡ true
    → (t' : TraceData) × (trace_driver_read true len cpus size_reg left t
        ≡ some (if left == 0 then pos size_reg else eio, t'))
      × Drained (min len buff_read) (t.ptr_cb j) (t'.ptr_cb j) (t'.ptr_region j)
      × ((i : ℕ) → IsValid (t'.ptr_cb i))
trace_driver_read-Drained len size_reg left j cpus t d v a e =
    let result : read_result size_reg left ≡ (if left == 0 then pos size_reg else eio) =
      ground arith in
    let t' = read_all (min len buff_read) cpus t in
    (
      t',
      trace_driver_read-some len size_reg left cpus t a ∙ ap (λ r. some (r, t')) result,
      read_all-Drained (min len buff_read) j cpus t d v e,
      read_all-IsValid (min len buff_read) cpus t v,
    )
