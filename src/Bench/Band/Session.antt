-- ===== src/Bench/Band/Session.antt =====
-- The pages of the bandwidth benchmark from MB_LOAD to MB_UNLOAD
-- (micro-benchmark_Band/driver/driverops.c).
use dmacftu.Prelude.{
  ℕ, ◌≡◌, refl, ap, ◌∙◌, sym, List, map, Option, none, some, ltb, if◌then◌else◌, ℤ, pos, negsuc,
  arith, ◌==◌, length, inl, inr, ◌⊎◌, Bool-cases, subst,
}
use dmacftu.Request.{RequestCopy, dma_init}
use dmacftu.Engine.{Direction, Engine}
use dmacftu.Pin.{
  PinEnv, PinResult, pin_failed, pin_no_user, pin_successful, PageLog, dma_pin_user_pages,
}
use dmacftu.Pin.Balance.{IsDocumented, log_after, success-eq, unpin_pinned}
use dmacftu.Channels.{ChannelState}
use dmacftu.UserCopy.{Policy, shared, exclusive, dma_copy_policy}
use dmacftu.Bench.Cache.{einval, efault}
use dmacftu.UserCopy.Policies.{dma_copy_policy-keeps}
use dmacftu.Bench.Band.{
  DeviceState, QueryArg, Call, returned, mb_load, mb_unload, is_write, prepare, after_pin,
  after_copy, benchmark_driver_ioctl, copy_by_type, benchmark_driver_copy, exclusive_measure,
  shared_measure,
}

-- A transfer that returns, with any arguments, channels and answer of the processor's copy.
pub data Step (s t : DeviceState) : Type 0 where
  transfer :
      (dir : Direction) (ch : ChannelState) (left buf len : ℕ) (ret : ℤ)
      → benchmark_driver_copy dir ch left buf len s ≡ returned ret t
      → Step s t

-- Any number of them.
pub data Reach (s : DeviceState) : DeviceState → Type 0 where
  here : Reach s s
  next : {t u : DeviceState} → Reach s t → Step t u → Reach s u

-- The types of measure whose requests stand in req_cpy_local.
abbrev pub IsLocal : ℕ → Type 0
IsLocal tm = (tm ≡ exclusive_measure) ⊎ (tm ≡ shared_measure)

-- The device holds these pages, and the log is as given.
pub record IsLoaded (tm : ℕ) (ps : List ℕ) (log : PageLog) (s : DeviceState) : Type 0 where
  pub type : s.b_data.type ≡ tm
  pub pages : s.b_data.req_cpy_local.pages ≡ some (map some ps)
  pub count : s.b_data.req_cpy_local.nr_pages ≡ pos (length ps)
  pub same_log : s.log ≡ log

-- What a copy of the request leaves.
after_copy-IsLoaded :
    (tm len : ℕ) (ps : List ℕ) (log : PageLog) (s t : DeviceState) (ret : ℤ)
    (out : Option (ℤ × RequestCopy × Engine))
    → IsLoaded tm ps log s
    → ((r : ℤ) (q : RequestCopy) (e : Engine)
        → out ≡ some (r, q, e)
        → (q.pages ≡ s.b_data.req_cpy_local.pages) × (q.nr_pages ≡ s.b_data.req_cpy_local.nr_pages))
    → after_copy len s out ≡ returned ret t
    → IsLoaded tm ps log t
after_copy-IsLoaded tm len ps log s t ret none l keeps e = absurd (ground (arith, e))
after_copy-IsLoaded tm len ps log s t ret (some (negsuc n, q, en)) l keeps e =
    let (p, c) = keeps (negsuc n) q en refl in
    record {
      type = ground (arith, e, l.type);
      pages = ground (arith, e, p, l.pages);
      count = ground (arith, e, c, l.count);
      same_log = ground (arith, e, l.same_log);
    }
after_copy-IsLoaded tm len ps log s t ret (some (pos n, q, en)) l keeps e =
    let (p, c) = keeps (pos n) q en refl in
    record {
      type = ground (arith, e, l.type);
      pages = ground (arith, e, p, l.pages);
      count = ground (arith, e, c, l.count);
      same_log = ground (arith, e, l.same_log);
    }

-- The copy that a device of a local type makes.
local_policy : ℕ → Policy
local_policy tm = if tm == exclusive_measure then exclusive else shared

by_policy :
    (dir : Direction) (ch : ChannelState) (left len tm : ℕ) (s : DeviceState)
    → IsLocal tm
    → s.b_data.type ≡ tm
    → copy_by_type dir ch left len s
      ≡ after_copy len s (dma_copy_policy (local_policy tm) dir ch s.b_data.req_cpy_local s.engine)
unfolding copy_by_type local_policy
by_policy dir ch left len tm s (inl x) t = ground (arith, x, t)
by_policy dir ch left len tm s (inr x) t = ground (arith, x, t)

-- A call that the guards turn down changes nothing.
data Guarded (s : DeviceState) (work out : Call) : Type 0 where
  turned_down : (e : ℤ) → out ≡ returned e s → Guarded s work out
  let_through : out ≡ work → Guarded s work out

benchmark_driver_copy-Guarded :
    (dir : Direction) (ch : ChannelState) (left buf len : ℕ) (s : DeviceState)
    → Guarded s (copy_by_type dir ch left len s) (benchmark_driver_copy dir ch left buf len s)
unfolding benchmark_driver_copy
benchmark_driver_copy-Guarded dir ch left buf len s = elim (Bool-cases (buf == 0)) [
  | inl null ↦ rw null (turned_down einval refl)
  | inr some_buf ↦ elim (Bool-cases (ltb s.b_data.kernel_size len)) [
    | inl long ↦ rw (some_buf, long) (turned_down efault refl)
    | inr fits ↦ rw (some_buf, fits) (let_through refl)
  ]
]

returned-state : {a b : ℤ} {s t : DeviceState} → returned a s ≡ returned b t → s ≡ t
returned-state e = ground (arith, e)

Step-IsLoaded :
    (tm : ℕ) (ps : List ℕ) (log : PageLog) {s t : DeviceState}
    → IsLocal tm
    → IsLoaded tm ps log s
    → Step s t
    → IsLoaded tm ps log t
Step-IsLoaded tm ps log {s} {t} k l (transfer dir ch left buf len ret e) =
    elim (benchmark_driver_copy-Guarded dir ch left buf len s) [
      | turned_down r z ↦ subst (IsLoaded tm ps log) (returned-state (sym z ∙ e)) l
      | let_through z ↦
          after_copy-IsLoaded tm len ps log s t ret
            (dma_copy_policy (local_policy tm) dir ch s.b_data.req_cpy_local s.engine) l
            (λ r q en h.
              let (p, c, len) =
                dma_copy_policy-keeps (local_policy tm) dir ch s.b_data.req_cpy_local s.engine r q
                  en h in
              (p, c))
            (sym (by_policy dir ch left len tm s k l.type) ∙ sym z ∙ e)
    ]

Reach-IsLoaded :
    (tm : ℕ) (ps : List ℕ) (log : PageLog) {s t : DeviceState}
    → IsLocal tm
    → IsLoaded tm ps log s
    → Reach s t
    → IsLoaded tm ps log t
Reach-IsLoaded tm ps log k l here = l
Reach-IsLoaded tm ps log k l (next r st) =
    Step-IsLoaded tm ps log k (Reach-IsLoaded tm ps log k l r) st

-- The request that MB_LOAD makes.
abbrev pub loaded_request : QueryArg → DeviceState → RequestCopy
loaded_request q s = record {
  chan = none;
  priority = 0;
  user_base = q.buf_user;
  kernel_base = s.b_data.kernel_buf;
  len = q.len;
  pages = none;
  nr_pages = pos 0;
  dma_cookie = pos 0;
  status = dma_init;
}

load-pins :
    (tm : ℕ) (env : PinEnv) (q : QueryArg) (s : DeviceState)
    → IsLocal tm
    → benchmark_driver_ioctl tm env 0 mb_load q s
      ≡ after_pin (prepare q s) (dma_pin_user_pages env (is_write q) (loaded_request q s) s.log)
unfolding benchmark_driver_ioctl
load-pins tm env q s (inl x) = ground (arith, x)
load-pins tm env q s (inr x) = ground (arith, x)

after_pin-success :
    (s : DeviceState) (r : PinResult) (q : RequestCopy) (log : PageLog)
    → (after_pin s (r, q, log)).0 ≡ pos 0
    → r ≡ pin_successful
after_pin-success s pin_failed q log e = absurd (ground (arith, e))
after_pin-success s pin_no_user q log e = absurd (ground (arith, e))
after_pin-success s pin_successful q log e = refl

load-IsLoaded :
    (tm : ℕ) (env : PinEnv) (q : QueryArg) (s : DeviceState)
    → IsLocal tm
    → s.b_data.type ≡ tm
    → IsDocumented env (loaded_request q s)
    → (benchmark_driver_ioctl tm env 0 mb_load q s).0 ≡ pos 0
    → IsLoaded tm env.stored s.log (benchmark_driver_ioctl tm env 0 mb_load q s).1
load-IsLoaded tm env q s k t d ok =
    let out = dma_pin_user_pages env (is_write q) (loaded_request q s) s.log in
    let fine : out.0 ≡ pin_successful =
      after_pin-success (prepare q s) out.0 out.1 out.2
        (ap (λ r. r.0) (sym (load-pins tm env q s k)) ∙ ok) in
    let (pin, count) = success-eq env (is_write q) (loaded_request q s) s.log d fine in
    rw (load-pins tm env q s k, pin)
      (record { type = t; pages = refl; count = refl; same_log = refl })

unload-releases :
    (tm : ℕ) (env : PinEnv) (q : QueryArg) (log : PageLog) (t : DeviceState)
    → IsLocal tm
    → IsLoaded tm env.stored log t
    → benchmark_driver_ioctl tm env 0 mb_unload q t
      ≡ (pos 0, record t { log = log_after (is_write q) env.stored log })
unfolding benchmark_driver_ioctl
unload-releases tm env q log t (inl x) l = ground (
  arith,
  x,
  l.same_log,
  unpin_pinned env (is_write q) t.b_data.req_cpy_local t.log l.pages l.count,
)
unload-releases tm env q log t (inr x) l = ground (
  arith,
  x,
  l.same_log,
  unpin_pinned env (is_write q) t.b_data.req_cpy_local t.log l.pages l.count,
)

-- For the exclusive and the shared policy: after an MB_LOAD that returns 0, and any number of transfers
-- of any kind and result, MB_UNLOAD returns 0 and releases exactly the pages that MB_LOAD has pinned,
-- each once, marked dirty if its flag says so, and nothing was released before.
pub mb_load-mb_unload :
    (tm : ℕ) (env : PinEnv) (q q' : QueryArg) (s t : DeviceState)
    → IsLocal tm
    → s.b_data.type ≡ tm
    → IsDocumented env (loaded_request q s)
    → (benchmark_driver_ioctl tm env 0 mb_load q s).0 ≡ pos 0
    → Reach (benchmark_driver_ioctl tm env 0 mb_load q s).1 t
    → (t.log ≡ s.log)
      × (benchmark_driver_ioctl tm env 0 mb_unload q' t
          ≡ (pos 0, record t { log = log_after (is_write q') env.stored s.log }))
mb_load-mb_unload tm env q q' s t k ty d ok r =
    let l = Reach-IsLoaded tm env.stored s.log k (load-IsLoaded tm env q s k ty d ok) r in
    (l.same_log, unload-releases tm env q' s.log t k l)
