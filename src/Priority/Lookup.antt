-- ===== src/Priority/Lookup.antt =====
-- The channels that the priority policy started with, and copy_dma_get_channel_prio
-- (source/drivers/dma/dma_policy_prio.c and source/drivers/dma/dmaengine.c).
use dmacftu.Prelude.{
  ℕ, zero, suc, ◌<◌, ◌≡◌, refl, sym, ◌∙◌, true, List, [], ◌∷◌, some, pos, arith, length, get_elem?,
  IsDistinct,
}
use dmacftu.Pool.{Pool}
use dmacftu.Channels.{
  ChannelState, ListChanPrio, is_dma_copy_aligned, prio_loop, copy_dma_get_channel_prio,
}
use dmacftu.Priority.{PriorityTimer, start_policy_prio2}
use dmacftu.Priority.Start.{running, not_running, start_policy_prio2-PrioStarted, prio_list}

-- The channel of this priority in the list of four, and that the lookup finds it.
record FoundAt (st : ChannelState) (l : ListChanPrio) (p : ℕ) : Type 0 where
  c : ℕ
  entry : get_elem? l.chan_prio p ≡ some (some c)
  found : prio_loop l.size l.priority l.chan_prio p ≡ some c

four-FoundAt :
    (st : ChannelState) (cs : List ℕ) (p : ℕ)
    → length cs ≡ 4
    → p < 4
    → FoundAt st (prio_list cs 0 (0 ∷ 1 ∷ 2 ∷ 3 ∷ [])) p
unfolding prio_loop
four-FoundAt st (a ∷ b ∷ c ∷ d ∷ []) zero e h = record { c = a; entry = refl; found = refl }
four-FoundAt st (a ∷ b ∷ c ∷ d ∷ []) (suc zero) e h = record { c = b; entry = refl; found = refl }
four-FoundAt st (a ∷ b ∷ c ∷ d ∷ []) (suc (suc zero)) e h = record {
  c = c;
  entry = refl;
  found = refl;
}
four-FoundAt st (a ∷ b ∷ c ∷ d ∷ []) (suc (suc (suc zero))) e h = record {
  c = d;
  entry = refl;
  found = refl;
}
four-FoundAt st (a ∷ b ∷ c ∷ d ∷ []) (suc (suc (suc (suc p)))) e h = absurd (omega (arith, h))
four-FoundAt st [] p e h = absurd (omega (arith, e))
four-FoundAt st (a ∷ []) p e h = absurd (omega (arith, e))
four-FoundAt st (a ∷ b ∷ []) p e h = absurd (omega (arith, e))
four-FoundAt st (a ∷ b ∷ c ∷ []) p e h = absurd (omega (arith, e))
four-FoundAt st (a ∷ b ∷ c ∷ d ∷ f ∷ cs) p e h = absurd (omega (arith, e))

-- After a start of the priority policy that returned 4, on an allocator where the distinct channels hs
-- are held, and with channels that copy at any byte offset, copy_dma_get_channel_prio finds for each
-- priority below 4 the channel at that place of the list.
pub copy_dma_get_channel_prio-after_start :
    (pool : Pool) (hs : List ℕ) (t : PriorityTimer) (high low p : ℕ) (s : pool.State)
    (st : ChannelState)
    → pool.Held s hs
    → IsDistinct hs
    → (start_policy_prio2 pool high low t s).0 ≡ pos 4
    → st.list_chan_prio ≡ (start_policy_prio2 pool high low t s).1
    → ((d : ℕ) → is_dma_copy_aligned (st.copy_align d) ≡ true)
    → p < 4
    → (c : ℕ) × (copy_dma_get_channel_prio st p ≡ some c)
      × (get_elem? st.list_chan_prio.chan_prio p ≡ some (some c))
unfolding copy_dma_get_channel_prio
copy_dma_get_channel_prio-after_start pool hs t high low p s st h d r l aligned below =
    elim (start_policy_prio2-PrioStarted pool hs t high low s h d) [
      | running cs four dis r' slots timer held ↦
          let at = four-FoundAt st cs p four below in
          rw (l ∙ slots) (at.c, ground (arith, at.found, aligned at.c), at.entry)
      | not_running r' slots timer held ↦ ground (arith, sym r ∙ r')
    ]
