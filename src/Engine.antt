-- ===== src/Engine.antt =====
-- Submitting copies to a DMA channel and waiting for them, source/drivers/dma/dmaengine.c
-- (dma_async_memcpy_*, dma_sync_wait) and dma_async_issue_pending of source/include/linux/dmaengine.h.
-- What the hardware driver and the DMA mapping layer answer comes as lists that the calls consume.
pub mod Wait
use dmacftu.Prelude.{
  ℕ, ◌+◌, ◌%◌, ◌^◌, Bool, true, false, not, ◌&&◌, List, [], ◌∷◌, ◌++◌, Option, none, some,
  if◌then◌else◌, ℤ, pos, negsuc,
}
use dmacftu.Request.{DmaStatus, dma_success, dma_in_progress, dma_paused, dma_error, dma_init}

pub data Direction : Type 0 where
  from_user to_user : Direction

-- The ends of a copy that a channel carries out.
pub data Ends : Type 0 where
  page_buf : Direction → Option ℕ → ℕ → ℕ → Ends  -- page, offset in it, kernel address
  buf_buf : ℕ → ℕ → Ends  -- destination and source address

-- A copy handed to the hardware; `mapped` is false where a bus address is that of a failed mapping.
pub record Transfer : Type 0 where
  pub chan : Option ℕ
  pub ends : Ends
  pub len : ℕ
  pub mapped : Bool

-- The answers to one attempt: whether the buffer and the page are mapped, and the cookie that
-- `tx_submit` returns, or `none` where `device_prep_dma_memcpy` has no descriptor.
pub record Reply : Type 0 where
  pub buf_mapped : Bool
  pub page_mapped : Bool
  pub tx : Option ℕ

-- One turn of the wait: the status that `device_tx_status` reports, and whether `jiffies` has
-- reached the time limit after it.
pub record Poll : Type 0 where
  pub status : DmaStatus
  pub expired : Bool

-- The channel's side: the answers to come, and what has been done.
pub record Engine : Type 0 where
  pub replies : List Reply
  pub polls : List Poll
  pub submitted : List Transfer
  pub flushes : ℕ
  pub bytes_transferred : ℕ
  pub memcpy_count : ℕ

-- `-ENOMEM` and `-EFAULT`.
abbrev pub enomem : ℤ
enomem = negsuc 11

abbrev pub efault : ℤ
efault = negsuc 13

-- `tx_submit` and the statistics after it.
abbrev pub sent : Transfer → Engine → Engine
sent t e = record e {
  submitted = e.submitted ++ t ∷ [];
  bytes_transferred = (e.bytes_transferred + t.len) % 2 ^ 64;
  memcpy_count = (e.memcpy_count + 1) % 2 ^ 64;
}

-- `device_prep_dma_memcpy`, and what follows it.
abbrev pub prep_and_submit : Reply → Transfer → Engine → ℤ × Engine
prep_and_submit r t e = elim r.tx [ none ↦ (enomem, e) | some cookie ↦ (pos cookie, sent t e) ]

module _ (r : Reply) (chan : Option ℕ) where
  -- A failed mapping is not tested here.
  unfoldable pub dma_async_memcpy_buf_to_buf : ℕ → ℕ → ℕ → Engine → ℤ × Engine
  dma_async_memcpy_buf_to_buf dest src len = prep_and_submit r (record {
    chan = chan;
    ends = buf_buf dest src;
    len = len;
    mapped = r.buf_mapped && r.page_mapped;
  })

  -- Nor here.
  unfoldable pub dma_async_memcpy_buf_to_pg : Option ℕ → ℕ → ℕ → ℕ → Engine → ℤ × Engine
  dma_async_memcpy_buf_to_pg page offset kdata len = prep_and_submit r (record {
    chan = chan;
    ends = page_buf to_user page offset kdata;
    len = len;
    mapped = r.buf_mapped && r.page_mapped;
  })

  unfoldable pub dma_async_memcpy_pg_to_buf : Option ℕ → ℕ → ℕ → ℕ → Engine → ℤ × Engine
  dma_async_memcpy_pg_to_buf page offset kdata len e =
      if not r.buf_mapped
      then (efault, e)
      else if not r.page_mapped
      then (efault, e)
      else prep_and_submit r
          (record {
            chan = chan;
            ends = page_buf from_user page offset kdata;
            len = len;
            mapped = true;
          })
          e

-- `device_issue_pending`.
unfoldable pub dma_async_issue_pending : Engine → Engine
dma_async_issue_pending e = record e { flushes = e.flushes + 1 }

-- The loop of `dma_sync_wait`: the status returned and the answers left; `none` while it still polls.
unfoldable pub wait_loop : List Poll → Option (DmaStatus × List Poll)
wait_loop [] = none
wait_loop (p ∷ ps) =
    let rest = wait_loop ps in
    if p.expired
    then some (dma_error, ps)
    else elim p.status [ dma_in_progress ↦ rest | _ ↦ some (p.status, ps) ]

unfoldable pub dma_sync_wait : Engine → Option (DmaStatus × Engine)
unfolding wait_loop dma_async_issue_pending
dma_sync_wait e =
    let e' = dma_async_issue_pending e in
    elim (wait_loop e.polls) [
      | none ↦ none
      | some (status, ps) ↦ some (status, record e' { polls = ps })
    ]
