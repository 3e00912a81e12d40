-- ===== src/UserCopy/Tests.antt =====
-- The DMA copies of source/drivers/dma/dma_policy_ex_sh.c at concrete requests.
use dmacftu.Prelude.{
  ℕ, ◌-◌, ◌<◌, ◌≡◌, refl, true, false, List, [], ◌∷◌, ◌++◌, none, some, if◌then◌else◌, arith, pos,
}
use dmacftu.Request.{dma_success}
use dmacftu.Engine.{from_user, to_user, Transfer}
use dmacftu.Engine.Wait.{dma_sync_wait_lem}
use dmacftu.Engine.{dma_sync_wait}
use dmacftu.Copy.{dma_copy_pages}
use dmacftu.Copy.Whole.{Copied, dma_copy_pages-Copied}
use dmacftu.Copy.Bytes.{exec_all, in_range}
use dmacftu.Pin.{pin_successful, dma_pin_user_pages, dma_unpin_user_pages, count_pages}
use dmacftu.Pin.Balance.{Pinned, log_after, count_pages-eq-pages_spanned, pin_then_unpin}
use dmacftu.Channels.{copy_dma_get_channel_prio}
use dmacftu.Channels.Lookup.{prio, get_channel_sound, FromSource}
use dmacftu.UserCopy.{Outcome, dma_copy_user}
use dmacftu.UserCopy.Delivery.{
  user_frame, user_byte, dma_copy_from_user_delivers, dma_copy_to_user_delivers,
}
use dmacftu.UserCopy.Cases.{
  request, last_poll, busy_poll, engine, channels, env, empty_log, memory, env-IsDocumented, ready,
  goes, goes-to_user, stored-distinct,
}

dma_copy_pages-Copied_example :
    Copied from_user request engine dma_success [] (dma_copy_pages from_user request engine)
dma_copy_pages-Copied_example =
    dma_copy_pages-Copied from_user request engine (busy_poll ∷ []) last_poll [] (omega arith)
      (omega arith) ready

dma_copy_from_user_delivers_example :
    (o : Outcome) × (ts : List Transfer) × (dma_copy_user from_user channels env request engine
        empty_log
      ≡ some o)
    × (o.ret ≡ pos 0)
    × (o.request.status ≡ dma_success)
    × (o.engine.submitted ≡ [] ++ ts)
    × ((a : ℕ)
        → (exec_all ts memory).kernel a ≡ (
            if in_range 1000 10 a
            then memory.page (user_frame env request (a - 1000)) (user_byte request (a - 1000))
            else memory.kernel a))
    × ((exec_all ts memory).page ≡ memory.page)
    × (o.log ≡ log_after false (40 ∷ 41 ∷ []) empty_log)
dma_copy_from_user_delivers_example =
    dma_copy_from_user_delivers channels env request engine empty_log 3 (busy_poll ∷ []) last_poll
      [] memory goes

-- Byte 4 of the second frame follows the last byte of the request.
outside : (y : ℕ) → y < 10 → ¬ ((user_frame env request y ≡ 41) × (user_byte request y ≡ 4))
outside y h (same, byte) = absurd (omega (arith, byte))

dma_copy_to_user_delivers_example :
    (o : Outcome) × (ts : List Transfer) × (dma_copy_user to_user channels env request engine
        empty_log
      ≡ some o)
    × (o.ret ≡ pos 0)
    × (o.request.status ≡ dma_success)
    × (o.engine.submitted ≡ [] ++ ts)
    × ((exec_all ts memory).page 41 1 ≡ memory.kernel 1007)
    × ((exec_all ts memory).page 41 4 ≡ memory.page 41 4)
    × ((exec_all ts memory).kernel ≡ memory.kernel)
    × (o.log ≡ log_after true (40 ∷ 41 ∷ []) empty_log)
dma_copy_to_user_delivers_example =
    dma_copy_to_user_delivers channels env request engine empty_log 3 (busy_poll ∷ []) last_poll []
      memory goes-to_user stored-distinct 7 (omega arith) 41 4 outside

two_pages_spanned : count_pages request ≡ pos 2
two_pages_spanned = count_pages-eq-pages_spanned request (omega arith) (omega arith)

pin-success : (dma_pin_user_pages env true request empty_log).0 ≡ pin_successful
unfolding dma_pin_user_pages
pin-success = refl

pin_then_unpin_example :
    Pinned env request (dma_pin_user_pages env true request empty_log).1
    × ((dma_pin_user_pages env true request empty_log).2 ≡ empty_log)
    × (dma_unpin_user_pages
          (dma_pin_user_pages env true request empty_log).1
          true
          (dma_pin_user_pages env true request empty_log).2
        ≡ log_after true (40 ∷ 41 ∷ []) empty_log)
pin_then_unpin_example =
    pin_then_unpin env true true request empty_log (env-IsDocumented none) pin-success

prio-first : copy_dma_get_channel_prio channels 1 ≡ some 9
unfolding copy_dma_get_channel_prio
prio-first = refl

get_channel_sound_example : (channels.copy_align 9 ≡ 0) × FromSource channels (prio 1) 9
get_channel_sound_example = get_channel_sound channels (prio 1) 9 prio-first

one_wait : dma_sync_wait engine ≡ some (dma_success, record engine { polls = []; flushes = 1 })
one_wait = dma_sync_wait_lem engine (busy_poll ∷ []) last_poll [] refl ((refl, refl), tt) (λ h. cc)
