-- ===== src/Channels.antt =====
-- Choosing the channel of a copy: the copy_dma_get_channel_* functions and
-- init_copy_dmaengine_ref_count of source/drivers/dma/dmaengine.c, with is_dma_copy_aligned and the
-- structures of source/include/linux/dmaengine.h.
pub mod Lookup
use dmacftu.Prelude.{
  ℕ, zero, suc, ◌+◌, ◌-◌, ◌%◌, ◌^◌, Bool, true, false, not, ◌&&◌, List, [], ◌∷◌, Option, none, some,
  ltb, ◌==◌, if◌then◌else◌, ℤ, pos, negsuc,
}

abbrev pub dma_high_prio : ℕ
dma_high_prio = 0

abbrev pub dma_low_prio : ℕ
dma_low_prio = 128

abbrev pub dma_max_chan_prio : ℕ
dma_max_chan_prio = 4

-- `struct list_dma_chan_prio`.
pub record ListChanPrio : Type 0 where
  pub chan_prio : List (Option ℕ)
  pub priority : List ℕ
  pub size : ℕ

-- Which policy the kernel is built with for its own copies to and from the user.
pub data BootPolicy : Type 0 where
  boot_exclusive boot_shared boot_none : BootPolicy

-- What the functions read: the count of the users of the shared policy, this CPU's entry of the
-- channel table for DMA_MEMCPY, this CPU's channel of the exclusive policy, the channels by priority,
-- and the `copy_align` of each channel's device.
pub record ChannelState : Type 0 where
  pub copy_dmaengine_ref_count : ℤ
  pub memcpy_entry : Option ℕ
  pub percpu_chan_copy : Option ℕ
  pub list_chan_prio : ListChanPrio
  pub copy_align : ℕ → ℕ
  pub boot_policy : BootPolicy

-- `x & 1` of dmaengine_check_align at offsets and length 1.
abbrev pub low_bit : ℕ → ℕ
low_bit x = x % 2

-- is_dma_copy_aligned(device, 1, 1, 1).
abbrev pub is_dma_copy_aligned : ℕ → Bool
is_dma_copy_aligned align =
    if align == 0 then true else if not (low_bit (2 ^ align - 1) == 0) then false else true

-- The last lines of each function.
abbrev pub checked : ChannelState → Option ℕ → Option ℕ
checked s none = none
checked s (some c) = if not (is_dma_copy_aligned (s.copy_align c)) then none else some c

abbrev pub is_positive : ℤ → Bool
is_positive (pos n) = ltb 0 n
is_positive (negsuc n) = false

unfoldable pub init_copy_dmaengine_ref_count : ChannelState → ChannelState
init_copy_dmaengine_ref_count s = record s { copy_dmaengine_ref_count = pos 0 }

-- The loop over the first `size` channels; a read outside the arrays finds no channel.
unfoldable pub prio_loop : ℕ → List ℕ → List (Option ℕ) → ℕ → Option ℕ
prio_loop zero ps cs priority = none
prio_loop (suc n) [] cs priority = none
prio_loop (suc n) (p ∷ ps) [] priority = none
prio_loop (suc n) (p ∷ ps) (c ∷ cs) priority =
    if p == priority then c else prio_loop n ps cs priority

unfoldable pub copy_dma_get_channel_prio : ChannelState → ℕ → Option ℕ
unfolding prio_loop
copy_dma_get_channel_prio s priority =
    let list = s.list_chan_prio in
    checked s (prio_loop list.size list.priority list.chan_prio priority)

unfoldable pub copy_dma_get_channel_sh : ChannelState → Option ℕ
copy_dma_get_channel_sh s =
    checked s (if is_positive s.copy_dmaengine_ref_count then s.memcpy_entry else none)

unfoldable pub copy_dma_get_channel_excl : ChannelState → Option ℕ
copy_dma_get_channel_excl s = checked s s.percpu_chan_copy

-- The two parts of copy_dma_get_channel_boot that the configuration switches on.
abbrev pub boot_choice : ChannelState → BootPolicy → Option ℕ
boot_choice s boot_exclusive = s.percpu_chan_copy
boot_choice s boot_shared = if is_positive s.copy_dmaengine_ref_count then s.memcpy_entry else none
boot_choice s boot_none = none

unfoldable pub copy_dma_get_channel_boot : ChannelState → Option ℕ
copy_dma_get_channel_boot s = checked s (boot_choice s s.boot_policy)
