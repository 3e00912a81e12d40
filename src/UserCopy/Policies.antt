-- ===== src/UserCopy/Policies.antt =====
-- The copies of the dynamic policies, whose caller pins the pages: _dma_copy_from_user_sh and its like of
-- source/drivers/dma/dma_policy_ex_sh.c and source/drivers/dma/dma_policy_prio.c.
use dmacftu.Prelude.{
  ℕ, ◌<◌, ◌^◌, ◌≡◌, List, some, arith, ℤ, Option-cases, Bool-cases, inl, inr, ltb,
}
use dmacftu.Request.{RequestCopy}
use dmacftu.Engine.{Direction, Engine, Poll, dma_sync_wait}
use dmacftu.Engine.Wait.{verdict}
use dmacftu.Copy.{dma_copy_pages, copy_loop, first_cursor}
use dmacftu.Copy.Whole.{IsReady, Copied, dma_copy_pages-Copied}
use dmacftu.Channels.{ChannelState}
use dmacftu.UserCopy.{Policy, policy_channel, dma_copy_policy}

policy-runs :
    (policy : Policy) (dir : Direction) (s : ChannelState) (q : RequestCopy) (e : Engine) (c : ℕ)
    → 0 < q.len
    → policy_channel policy s q ≡ some c
    → dma_copy_policy policy dir s q e ≡ dma_copy_pages dir (record q { chan = some c }) e
unfolding dma_copy_policy
policy-runs policy dir s q e c l found = ground (arith, l, found)

-- A copy of between 1 and 2^31 - 1 bytes under a dynamic policy that finds a channel, where the channel
-- is ready, ends and returns 0 with the status at which the wait stops, and has submitted the pieces of
-- the request to that channel, each once and in order.
pub dma_copy_policy-Copied :
    (policy : Policy) (dir : Direction) (s : ChannelState) (q : RequestCopy) (e : Engine) (c : ℕ)
    (busy : List Poll) (p : Poll) (ps : List Poll)
    → 0 < q.len
    → q.len < 2 ^ 31
    → policy_channel policy s q ≡ some c
    → IsReady dir (record q { chan = some c }) e busy p ps
    → Copied dir (record q { chan = some c }) e (verdict p) ps (dma_copy_policy policy dir s q e)
dma_copy_policy-Copied policy dir s q e c busy p ps l small found ready =
    rw (policy-runs policy dir s q e c l found)
      (dma_copy_pages-Copied dir (record q { chan = some c }) e busy p ps l small ready)

dma_copy_pages-keeps :
    (dir : Direction) (q : RequestCopy) (e : Engine) (ret : ℤ) (q' : RequestCopy) (e' : Engine)
    → dma_copy_pages dir q e ≡ some (ret, q', e')
    → (q'.pages ≡ q.pages) × (q'.nr_pages ≡ q.nr_pages) × (q'.len ≡ q.len)
unfolding dma_copy_pages
dma_copy_pages-keeps dir q e ret q' e' h =
    elim (Option-cases (copy_loop dir q e.replies (first_cursor q) e)) [
      | inl polls ↦ absurd (ground (arith, polls, h))
      | inr (x, done) ↦ elim (Option-cases (dma_sync_wait x.2)) [
        | inl polls ↦ absurd (ground (arith, done, polls, h))
        | inr (y, waited) ↦ ground (arith, done, waited, h)
      ]
    ]

-- A copy that ends leaves the pages and the length of its request alone.
pub dma_copy_policy-keeps :
    (policy : Policy) (dir : Direction) (s : ChannelState) (q : RequestCopy) (e : Engine) (ret : ℤ)
    (q' : RequestCopy) (e' : Engine)
    → dma_copy_policy policy dir s q e ≡ some (ret, q', e')
    → (q'.pages ≡ q.pages) × (q'.nr_pages ≡ q.nr_pages) × (q'.len ≡ q.len)
unfolding dma_copy_policy
dma_copy_policy-keeps policy dir s q e ret q' e' h = elim (Bool-cases (ltb 0 q.len)) [
  | inr empty ↦ ground (arith, empty, h)
  | inl more ↦ elim (Option-cases (policy_channel policy s q)) [
    | inl no_channel ↦ ground (arith, more, no_channel, h)
    | inr (c, found) ↦
        let same : dma_copy_pages dir (record q { chan = some c }) e ≡ some (ret, q', e') =
          ground (arith, more, found, h) in
        dma_copy_pages-keeps dir (record q { chan = some c }) e ret q' e' same
  ]
]
