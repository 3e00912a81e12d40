-- ===== src/UserCopy/Refused.antt =====
-- Copies to and from the user that copy nothing, source/drivers/dma/dma_policy_ex_sh.c.
use dmacftu.Prelude.{ℕ, ◌<◌, ◌≡◌, refl, ap, sym, ◌∙◌, none, some, arith, ℤ, pos}
use dmacftu.Request.{RequestCopy, to_int}
use dmacftu.Engine.{Direction, Engine}
use dmacftu.Pin.{PinEnv, pin_failed, PageLog, dma_pin_user_pages}
use dmacftu.Pin.Balance.{dma_pin_user_pages-keeps}
use dmacftu.Channels.{ChannelState, copy_dma_get_channel_boot}
use dmacftu.UserCopy.{Outcome, is_to_user, dma_copy_user, ebusy}

-- Why a call copies nothing, with what it then returns.
pub data Refusal (dir : Direction) (s : ChannelState) (env : PinEnv) (q : RequestCopy)
    (log : PageLog) (r : ℤ) : Type 0 where
  no_bytes : q.len ≡ 0 → r ≡ pos 0 → Refusal dir s env q log r
  no_channel :
      0 < q.len → copy_dma_get_channel_boot s ≡ none → r ≡ ebusy → Refusal dir s env q log r
  no_pages :
      (c : ℕ)
      → 0 < q.len
      → copy_dma_get_channel_boot s ≡ some c
      → (dma_pin_user_pages env (is_to_user dir) (record q { chan = some c }) log).0 ≡ pin_failed
      → r ≡ to_int q.len
      → Refusal dir s env q log r

-- Where there is no byte to copy, no channel or a failure to pin, the call returns 0, -EBUSY or the
-- whole length. It submits no copy then, and leaves the status of the request as it was.
pub dma_copy_user-refused :
    (dir : Direction) (s : ChannelState) (env : PinEnv) (q : RequestCopy) (e : Engine)
    (log : PageLog) (r : ℤ)
    → Refusal dir s env q log r
    → (o : Outcome) × (dma_copy_user dir s env q e log ≡ some o)
      × (o.ret ≡ r)
      × (o.engine ≡ e)
      × (o.request.status ≡ q.status)
unfolding dma_copy_user
dma_copy_user-refused dir s env q e log r (no_bytes z v) =
    (record { ret = pos 0; request = q; engine = e; log = log }, ground arith, sym v, refl, refl)
dma_copy_user-refused dir s env q e log r (no_channel l free v) = (
  record { ret = ebusy; request = record q { chan = none }; engine = e; log = log },
  ground arith,
  sym v,
  refl,
  refl,
)
dma_copy_user-refused dir s env q e log r (no_pages c l chan failed v) =
    let pin = dma_pin_user_pages env (is_to_user dir) (record q { chan = some c }) log in
    let (same_len, same_status) =
      dma_pin_user_pages-keeps env (is_to_user dir) (record q { chan = some c }) log in
    (
      record { ret = to_int pin.1.len; request = pin.1; engine = e; log = pin.2 },
      ground (arith, chan, failed),
      ap to_int same_len ∙ sym v,
      refl,
      same_status,
    )
