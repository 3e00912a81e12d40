-- ===== src/Engine/Wait.antt =====
-- When dma_sync_wait (source/drivers/dma/dmaengine.c) stops, and with what result.
use dmacftu.Prelude.{
  ◌+◌, ◌≡◌, ◌≢◌, ap, ◌∙◌, false, List, [], ◌∷◌, ◌++◌, some, inl, inr, Option-cases, arith, All,
  if◌then◌else◌,
}
use dmacftu.Request.{DmaStatus, dma_in_progress, dma_error}
use dmacftu.Engine.{Poll, Engine, dma_async_issue_pending, wait_loop, dma_sync_wait}

-- A poll that the loop passes by, and the result at one that it stops at.
abbrev pub IsBusy : Poll → Type 0
IsBusy p = (p.expired ≡ false) × (p.status ≡ dma_in_progress)

abbrev pub verdict : Poll → DmaStatus
verdict p = if p.expired then dma_error else p.status

wait_loop-append :
    (busy : List Poll) (p : Poll) (ps : List Poll)
    → All IsBusy busy
    → verdict p ≢ dma_in_progress
    → wait_loop (busy ++ p ∷ ps) ≡ some (verdict p, ps)
unfolding wait_loop
wait_loop-append [] p ps h e = ground arith
wait_loop-append (b ∷ busy) p ps h e = ground (arith, wait_loop-append busy p ps h.1 e)

-- dma_sync_wait flushes the channel once, passes by every poll that is in progress in time, and
-- stops at the first other poll: with DMA_ERROR if the time limit has come, else with the status
-- polled. The polls after it are left, and the submitted copies do not change.
pub dma_sync_wait_lem :
    (e : Engine) (busy : List Poll) (p : Poll) (ps : List Poll)
    → e.polls ≡ busy ++ p ∷ ps
    → All IsBusy busy
    → verdict p ≢ dma_in_progress
    → dma_sync_wait e ≡ some (verdict p, record e { polls = ps; flushes = e.flushes + 1 })
unfolding dma_sync_wait dma_async_issue_pending
dma_sync_wait_lem e busy p ps at h stop =
    ground (arith, ap wait_loop at ∙ wait_loop-append busy p ps h stop)

wait_loop-ne :
    (ps : List Poll) {s : DmaStatus} {rest : List Poll}
    → wait_loop ps ≡ some (s, rest)
    → s ≢ dma_in_progress
unfolding wait_loop
wait_loop-ne [] h = ground arith
wait_loop-ne (p ∷ ps) {s} {rest} h = ground (arith, wait_loop-ne ps {s = s} {rest = rest})

-- What dma_sync_wait returns is never DMA_IN_PROGRESS.
pub dma_sync_wait-ne :
    (e : Engine) {s : DmaStatus} {e' : Engine}
    → dma_sync_wait e ≡ some (s, e')
    → s ≢ dma_in_progress
unfolding dma_sync_wait
dma_sync_wait-ne e {s} h = elim (Option-cases (wait_loop e.polls)) [
  | inl stuck ↦ ground (arith, stuck)
  | inr (x, at) ↦ ground (arith, at, wait_loop-ne e.polls {s = x.0} {rest = x.1} at)
]
