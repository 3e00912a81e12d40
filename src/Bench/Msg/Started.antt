-- ===== src/Bench/Msg/Started.antt =====
-- The measures of one request, from the pinned pages to their release
-- (micro-benchmark_Msg/driver/core_benchmark.c, start_measure).
use dmacftu.Prelude.{
  ◌<◌, ◌^◌, ℕ, suc, ◌≡◌, refl, ap, ap₂, sym, ◌∙◌, subst, Bool, true, false, not, List, ◌∷◌, ◌++◌,
  map, none, some, if◌then◌else◌, ℤ, pos, length, arith, Bool-cases, inl, inr, length-set, drop-all,
}
use mathlib.Core.List.{append-nil}
use dmacftu.Request.{RequestCopy, init_req_copy, dma_init}
use dmacftu.Engine.{Engine}
use dmacftu.Pin.{pin_successful, PageLog, dma_pin_user_pages, dma_unpin_user_pages}
use dmacftu.Pin.Balance.{IsDocumented, log_after, pinned_request, success-eq, unpin_pinned}
use dmacftu.Bench.Msg.{
  buff_measure, UnitBuffUser, BenchmarkOutput, Machine, PtrCopy, Work, flush, timed, size_of,
  unit_at, on_cpu, store,
}
use dmacftu.Bench.Msg.Driver.{
  DeviceState, Call, returned, is_from, by_dma, after_loop, after_warm_up, run_measures, after_pin,
  start_measure, with_results,
}
use dmacftu.Bench.Msg.Sizes.{AreSizes, map-AreSizes}
use dmacftu.Bench.Msg.Measuring.{
  run_copies, split, run_copies-Split, copy_once-keeps, copy_measure-runs, sizes, length-sizes,
  measure_loop-Measures, run_copies-keeps,
}

-- The request of a device.
abbrev pub request_of : DeviceState → RequestCopy
request_of s = record {
  chan = none;
  priority = 0;
  user_base = s.b_data.user_buf;
  kernel_base = s.b_data.kernel_buf;
  len = s.b_data.user_size;
  pages = none;
  nr_pages = pos 0;
  dma_cookie = pos 0;
  status = dma_init;
}

-- The request that the copies start with: with the pages pinned for DMA.
abbrev pub measured_request : Machine → DeviceState → RequestCopy
measured_request m s = if by_dma m then pinned_request m.env (request_of s) else request_of s

abbrev pub log_at_end : Machine → DeviceState → PageLog
log_at_end m s =
    if by_dma m then log_after (not (is_from s.b_data.type)) m.env.stored s.log else s.log

-- A device with room for the measures, whose pages can be pinned where the copy is by DMA, and on which
-- the copy that warms the cache and the others end.
pub record CanMeasure (m : Machine) (ptr : PtrCopy) (s : DeviceState) (first : ℤ) (rets : List ℤ)
    (q : RequestCopy) (e : Engine) : Type 0 where
  pub room : length s.b_data.results.buffer ≡ buff_measure
  pub fits : s.b_data.user_size < 2 ^ 64
  pub documented : by_dma m ≡ true → IsDocumented m.env (request_of s)
  pub pinned :
      by_dma m ≡ true
      → (dma_pin_user_pages m.env (not (is_from s.b_data.type)) (request_of s) s.log).0
        ≡ pin_successful
  pub ends :
      run_copies m ptr (suc buff_measure) 0 (measured_request m s) s.engine
      ≡ some (first ∷ rets, q, e)

-- What a write that measures returns and leaves.
pub record Measured (m : Machine) (s : DeviceState) (rets : List ℤ) (e : Engine) (n : ℕ)
    (out : Call) : Type 0 where
  pub results : BenchmarkOutput
  pub flushed : List (ℕ × ℕ)
  pub returns :
      out
      ≡ returned (pos n) (record {
        b_data = record s.b_data { results = results };
        engine = e;
        log = log_at_end m s;
        flushed = flushed;
      })
  pub count : results.count ≡ buff_measure
  pub recorded : AreSizes s.b_data.user_size rets (sizes results)

-- The measures of a request, before the pages are released.
record Run (m : Machine) (rets : List ℤ) (len : ℕ) (q : RequestCopy) (e : Engine) (s : DeviceState)
    (out : Call) : Type 0 where
  results : BenchmarkOutput
  work : Work
  ends : out ≡ after_loop m s (some (results, work))
  count : results.count ≡ buff_measure
  recorded : sizes results ≡ map (size_of len) rets
  req : work.req ≡ q
  engine : work.engine ≡ e

module _ (m : Machine) (c : Bool) (ptr : PtrCopy) (s : DeviceState) where
  run_measures-Run :
      (q : RequestCopy) (first : ℤ) (rets : List ℤ) (q' : RequestCopy) (e : Engine)
      → length s.b_data.results.buffer ≡ buff_measure
      → run_copies m ptr (suc buff_measure) 0 q s.engine ≡ some (first ∷ rets, q', e)
      → Run m rets q.len q' e s (run_measures m c ptr s q)
  run_measures-Run q first rets q' e room h =
      elim (run_copies-Split m ptr buff_measure 0 q s.engine (first ∷ rets) q' e h) [
        | split ret rest q1 e1 all once others ↦
            let r : BenchmarkOutput = record s.b_data.results { count = 0 } in
            let w : Work = record { req = q; engine = s.engine; flushed = s.flushed } in
            let u : UnitBuffUser = timed m 0 (on_cpu m 0 (unit_at r 0)) in
            let w' : Work = record (flush c w) { req = q1; engine = e1 } in
            let (p, n, same) = copy_once-keeps m 0 ptr q s.engine ret q1 e1 once in
            let same_length = length-set r.buffer 0 u in
            let loop =
              measure_loop-Measures m c ptr buff_measure 0 rest q' e (store 0 u r) w' others
                (omega (arith, room, same_length)) in
            let used =
              drop-all buff_measure (sizes (store 0 u r))
                (omega (arith, room, same_length, length-sizes (store 0 u r))) in
            let one : rets ≡ rest = ground (arith, all) in
            record {
              results = loop.results;
              work = loop.work;
              ends =
                  ap (λ out. after_loop m s (after_warm_up m c ptr r out))
                    (copy_measure-runs m 0 c ptr (on_cpu m 0 (unit_at r 0)) w ret q1 e1 once)
                  ∙ ap (after_loop m s) loop.ends;
              count = loop.counted;
              recorded =
                  loop.recorded
                  ∙ ap (λ xs. map (size_of q1.len) rest ++ xs) used
                  ∙ append-nil (map (size_of q1.len) rest)
                  ∙ ap₂ (λ n xs. map (size_of n) xs) same (sym one);
              req = loop.req;
              engine = loop.engine;
            }
      ]

  pins :
      by_dma m ≡ true
      → start_measure m c ptr s
        ≡ after_pin m c ptr s
            (dma_pin_user_pages m.env (not (is_from s.b_data.type)) (request_of s) s.log)
  unfolding start_measure init_req_copy
  pins h = ground (arith, h)

  pins_not : by_dma m ≡ false → start_measure m c ptr s ≡ run_measures m c ptr s (request_of s)
  unfolding start_measure init_req_copy
  pins_not h = ground (arith, h)

  -- The request that the copies start with, by the answer of by_dma.
  abbrev request_by : Bool → RequestCopy
  request_by b = if b then pinned_request m.env (request_of s) else request_of s

  -- What is left of a run, once its log is known.
  Run-Measured :
      (first : ℤ) (rets : List ℤ) (q0 q : RequestCopy) (e : Engine) (out : Call)
      → q0.len ≡ s.b_data.user_size
      → s.b_data.user_size < 2 ^ 64
      → ((w : Work)
          → w.req ≡ q
          → (if by_dma m
              then dma_unpin_user_pages w.req (not (is_from s.b_data.type)) s.log
              else s.log)
            ≡ log_at_end m s)
      → Run m rets q0.len q e s out
      → Measured m s rets e 0 out
  Run-Measured first rets q0 q e out l small log run = record {
    results = run.results;
    flushed = run.work.flushed;
    returns =
        run.ends
        ∙ ap₂
            (λ (e' : Engine) (log : PageLog).
              returned (pos 0) (record (with_results run.results s) {
                engine = e';
                flushed = run.work.flushed;
                log = log;
              }))
            run.engine (log run.work run.req);
    count = run.count;
    recorded =
        subst (AreSizes s.b_data.user_size rets)
          (sym (run.recorded ∙ ap (λ n. map (size_of n) rets) l))
          (map-AreSizes s.b_data.user_size rets small);
  }

  pub start_measure-Measured :
      (first : ℤ) (rets : List ℤ) (q : RequestCopy) (e : Engine)
      → CanMeasure m ptr s first rets q e
      → Measured m s rets e 0 (start_measure m c ptr s)
  start_measure-Measured first rets q e h = elim (Bool-cases (by_dma m)) [
    | inr cpu ↦
        let ends =
          subst
            (λ b.
              run_copies m ptr (suc buff_measure) 0 (request_by b) s.engine
              ≡ some (first ∷ rets, q, e))
            cpu h.ends in
        rw (pins_not cpu) (
          Run-Measured first rets (request_of s) q e (run_measures m c ptr s (request_of s)) refl
            h.fits (λ w r. rw cpu refl)
            (run_measures-Run (request_of s) first rets q e h.room ends))
    | inl dma ↦
        let q0 : RequestCopy = pinned_request m.env (request_of s) in
        let ends =
          subst
            (λ b.
              run_copies m ptr (suc buff_measure) 0 (request_by b) s.engine
              ≡ some (first ∷ rets, q, e))
            dma h.ends in
        let (pin, count) =
          success-eq m.env (not (is_from s.b_data.type)) (request_of s) s.log (h.documented dma)
            (h.pinned dma) in
        let (pages, counted) =
          run_copies-keeps m ptr (suc buff_measure) 0 q0 s.engine (first ∷ rets) q e ends in
        rw (pins dma, pin)
          (Run-Measured first rets q0 q e (run_measures m c ptr s q0) refl h.fits
            (λ w r.
              rw (dma, r) (unpin_pinned m.env (not (is_from s.b_data.type)) q s.log pages counted))
            (run_measures-Run q0 first rets q e h.room ends))
  ]
