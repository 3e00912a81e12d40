-- ===== src/UserCopy.antt =====
-- The copies to and from the user by DMA as a whole, source/drivers/dma/dma_policy_ex_sh.c: the
-- channel is chosen, the pages are pinned, the copy runs and the pages are released
-- (dma_copy_to_user, dma_copy_from_user); a kernel address is copied in one piece
-- (dma_copy_to_kernel, dma_copy_from_kernel); and the copies of the dynamic policies, whose caller
-- pins the pages (_dma_copy_to_user_sh and its like, and those of dma_policy_prio.c).
pub mod Delivery
pub mod Refused
pub mod Policies
pub mod Cases
mod Tests
use dmacftu.Prelude.{
  ℕ, zero, suc, ◌+◌, ◌-◌, ◌%◌, ◌^◌, Bool, true, false, not, List, [], ◌∷◌, Option, none, some, ltb,
  ◌==◌, if◌then◌else◌, ℤ, pos, negsuc, is_neg,
}
use dmacftu.Request.{DmaStatus, RequestCopy, to_int}
use dmacftu.Engine.{
  Direction, from_user, to_user, Reply, Engine, dma_async_memcpy_buf_to_buf,
  dma_async_issue_pending, dma_sync_wait,
}
use dmacftu.Copy.{dma_copy_pages}
use dmacftu.Pin.{
  PinEnv, PinResult, pin_failed, pin_successful, pin_no_user, PageLog, dma_pin_user_pages,
  dma_unpin_user_pages,
}
use dmacftu.Channels.{
  ChannelState, copy_dma_get_channel_boot, copy_dma_get_channel_sh, copy_dma_get_channel_excl,
  copy_dma_get_channel_prio,
}

-- `-EBUSY`.
abbrev pub ebusy : ℤ
ebusy = negsuc 15

-- What a copy leaves behind.
pub record Outcome : Type 0 where
  pub ret : ℤ
  pub request : RequestCopy
  pub engine : Engine
  pub log : PageLog

-- The loop of dma_copy_to_kernel and dma_copy_from_kernel: the cookie and the engine.
unfoldable pub kernel_loop : RequestCopy → ℕ → ℕ → List Reply → Engine → Option (ℤ × Engine)
unfolding dma_async_memcpy_buf_to_buf dma_async_issue_pending
kernel_loop q dest src [] e = none
kernel_loop q dest src (r ∷ rs) e =
    let (cookie, e') = dma_async_memcpy_buf_to_buf r q.chan dest src q.len e in
    let again = kernel_loop q dest src rs (dma_async_issue_pending e') in
    if is_neg cookie then again else some (cookie, record e' { replies = rs })

abbrev pub dest_of : Direction → RequestCopy → ℕ
dest_of from_user q = q.kernel_base
dest_of to_user q = q.user_base

abbrev pub src_of : Direction → RequestCopy → ℕ
src_of from_user q = q.user_base
src_of to_user q = q.kernel_base

-- dma_copy_from_kernel and dma_copy_to_kernel, by direction; both return 0.
unfoldable pub dma_copy_kernel :
    Direction → RequestCopy → Engine → Option (ℤ × RequestCopy × Engine)
unfolding kernel_loop dma_sync_wait
dma_copy_kernel dir q e = elim (kernel_loop q (dest_of dir q) (src_of dir q) e.replies e) [
  | none ↦ none
  | some (cookie, e') ↦ elim (dma_sync_wait e') [
    | none ↦ none
    | some (status, e'') ↦ some (pos 0, record q { dma_cookie = cookie; status = status }, e'')
  ]
]

-- The result of a copy with the log of the pages.
abbrev pub with_log : PageLog → Option (ℤ × RequestCopy × Engine) → Option Outcome
with_log log none = none
with_log log (some (ret, q, e)) = some (record { ret = ret; request = q; engine = e; log = log })

-- After the copy, the pages are released; those written to are marked dirty.
abbrev pub unpin_after : Bool → PageLog → Option (ℤ × RequestCopy × Engine) → Option Outcome
unpin_after dirty log none = none
unpin_after dirty log (some (ret, q, e)) =
    some (record { ret = ret; request = q; engine = e; log = dma_unpin_user_pages q dirty log })

abbrev pub is_to_user : Direction → Bool
is_to_user from_user = false
is_to_user to_user = true

-- What follows the call of dma_pin_user_pages.
abbrev pub after_pin : Direction → Engine → PinResult × RequestCopy × PageLog → Option Outcome
after_pin dir e (pin_failed, q, log) =
    some (record { ret = to_int q.len; request = q; engine = e; log = log })
after_pin dir e (pin_no_user, q, log) = with_log log (dma_copy_kernel dir q e)
after_pin dir e (pin_successful, q, log) = unpin_after (is_to_user dir) log (dma_copy_pages dir q e)

-- What follows the choice of the channel.
abbrev pub after_channel :
    Direction → PinEnv → RequestCopy → Engine → PageLog → Option ℕ → Option Outcome
after_channel dir env q e log none =
    some (record { ret = ebusy; request = record q { chan = none }; engine = e; log = log })
after_channel dir env q e log (some c) =
    after_pin dir e (dma_pin_user_pages env (is_to_user dir) (record q { chan = some c }) log)

-- dma_copy_to_user and dma_copy_from_user; `none` while the channel is polled.
unfoldable pub dma_copy_user :
    Direction → ChannelState → PinEnv → RequestCopy → Engine → PageLog → Option Outcome
dma_copy_user dir s env q e log =
    if ltb 0 q.len
    then after_channel dir env q e log (copy_dma_get_channel_boot s)
    else some (record { ret = pos 0; request = q; engine = e; log = log })

-- Which dynamic policy chooses the channel.
pub data Policy : Type 0 where
  shared exclusive by_priority : Policy

unfoldable pub policy_channel : Policy → ChannelState → RequestCopy → Option ℕ
policy_channel shared s q = copy_dma_get_channel_sh s
policy_channel exclusive s q = copy_dma_get_channel_excl s
policy_channel by_priority s q = copy_dma_get_channel_prio s q.priority

abbrev pub after_choice :
    Direction → RequestCopy → Engine → Option ℕ → Option (ℤ × RequestCopy × Engine)
after_choice dir q e none = some (ebusy, record q { chan = none }, e)
after_choice dir q e (some c) = dma_copy_pages dir (record q { chan = some c }) e

-- _dma_copy_from_user_sh, _dma_copy_from_user_excl and those to the user; and for the priority policy
-- _dma_copy_from_user_prio and _dma_copy_to_user_prio, whose loop is the same.
unfoldable pub dma_copy_policy :
    Policy → Direction → ChannelState → RequestCopy → Engine → Option (ℤ × RequestCopy × Engine)
dma_copy_policy policy dir s q e =
    if ltb 0 q.len then after_choice dir q e (policy_channel policy s q) else some (pos 0, q, e)

-- The copies of the priority policy, source/drivers/dma/dma_policy_prio.c.
abbrev pub dma_copy_prio :
    Direction → ChannelState → RequestCopy → Engine → Option (ℤ × RequestCopy × Engine)
dma_copy_prio dir s q e = dma_copy_policy by_priority dir s q e
