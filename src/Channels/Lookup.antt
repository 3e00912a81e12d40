-- ===== src/Channels/Lookup.antt =====
-- Which channel the copy_dma_get_channel_* functions of source/drivers/dma/dmaengine.c return.
use dmacftu.Prelude.{
  ℕ, zero, suc, ◌*◌, ◌^◌, ◌<◌, ◌≡◌, refl, true, List, [], ◌∷◌, Option, none, some, ◌==◌, get_elem?,
  arith, inl, inr, Bool-cases,
}
use native.Mathlib.Nat.{pow-suc}
use dmacftu.Channels.{
  BootPolicy, boot_exclusive, boot_shared, boot_none, ChannelState, is_dma_copy_aligned, checked,
  boot_choice, is_positive, prio_loop, copy_dma_get_channel_prio, copy_dma_get_channel_sh,
  copy_dma_get_channel_excl, copy_dma_get_channel_boot,
}

two_pow_pos : (n : ℕ) → 0 < 2 ^ n
two_pow_pos zero = omega arith
two_pow_pos (suc n) = omega (arith, pow-suc 2 n, two_pow_pos n)

two_pow_even : (n : ℕ) → (m : ℕ) × (2 ^ suc n ≡ 2 * m) × (0 < m)
two_pow_even n = (2 ^ n, omega (arith, pow-suc 2 n), two_pow_pos n)

-- A byte can be copied at any offset only where the device asks for no alignment.
pub is_dma_copy_aligned_lem : (align : ℕ) → is_dma_copy_aligned align ≡ (align == 0)
is_dma_copy_aligned_lem zero = refl
is_dma_copy_aligned_lem (suc n) = let (m, e, p) = two_pow_even n in ground (arith, e, p)

-- The loop finds the channel of an entry, among the first n, that has the priority.
prio_loop_found :
    (n : ℕ) (ps : List ℕ) (cs : List (Option ℕ)) (priority c : ℕ)
    → prio_loop n ps cs priority ≡ some c
    → (i : ℕ) × (i < n) × (get_elem? ps i ≡ some priority) × (get_elem? cs i ≡ some (some c))
unfolding prio_loop
prio_loop_found zero ps cs priority c h = ground arith
prio_loop_found (suc n) [] cs priority c h = ground arith
prio_loop_found (suc n) (p ∷ ps) [] priority c h = ground arith
prio_loop_found (suc n) (p ∷ ps) (d ∷ cs) priority c h = elim (Bool-cases (p == priority)) [
  | inl e ↦ (0, omega arith, ground arith, ground arith)
  | inr e ↦
      let (i, l, at, ch) = prio_loop_found n ps cs priority c (ground arith) in
      (suc i, omega arith, at, ch)
]

-- A user holds the shared policy.
abbrev pub IsShared : ChannelState → Type 0
IsShared s = is_positive s.copy_dmaengine_ref_count ≡ true

abbrev pub FromPrio : ChannelState → ℕ → ℕ → Type 0
FromPrio s priority c =
    (i : ℕ) × (i < s.list_chan_prio.size)
    × (get_elem? s.list_chan_prio.priority i ≡ some priority)
    × (get_elem? s.list_chan_prio.chan_prio i ≡ some (some c))

abbrev pub FromBoot : ChannelState → BootPolicy → ℕ → Type 0
FromBoot s boot_exclusive c = s.percpu_chan_copy ≡ some c
FromBoot s boot_shared c = IsShared s × (s.memcpy_entry ≡ some c)
FromBoot s boot_none c = ⊥

checked-some :
    (s : ChannelState) (o : Option ℕ) (c : ℕ)
    → checked s o ≡ some c
    → (s.copy_align c ≡ 0) × (o ≡ some c)
checked-some s none c h = ground arith
checked-some s (some d) c h = ground (arith, is_dma_copy_aligned_lem (s.copy_align d))

boot_choice-some :
    (s : ChannelState) (policy : BootPolicy) (c : ℕ)
    → boot_choice s policy ≡ some c
    → FromBoot s policy c
boot_choice-some s boot_exclusive c h = h
boot_choice-some s boot_shared c h = ground arith
boot_choice-some s boot_none c h = ground arith

-- The four functions, and the place that each takes its channel from.
pub data Source : Type 0 where
  prio : ℕ → Source
  sh excl boot : Source

abbrev pub get_channel : Source → ChannelState → Option ℕ
get_channel (prio priority) s = copy_dma_get_channel_prio s priority
get_channel sh s = copy_dma_get_channel_sh s
get_channel excl s = copy_dma_get_channel_excl s
get_channel boot s = copy_dma_get_channel_boot s

abbrev pub FromSource : ChannelState → Source → ℕ → Type 0
FromSource s (prio priority) c = FromPrio s priority c
FromSource s sh c = FromBoot s boot_shared c
FromSource s excl c = FromBoot s boot_exclusive c
FromSource s boot c = FromBoot s s.boot_policy c

-- Each of the functions that choose a channel returns only one whose device copies at any byte
-- offset, from the place that its policy names: an entry of the priority asked for among the first
-- `size`; this CPU's entry of the channel table, while the shared policy has a user; this CPU's
-- exclusive channel; or what the policy of the build names.
pub get_channel_sound :
    (s : ChannelState) (source : Source) (c : ℕ)
    → get_channel source s ≡ some c
    → (s.copy_align c ≡ 0) × FromSource s source c
unfolding copy_dma_get_channel_prio copy_dma_get_channel_sh copy_dma_get_channel_excl
    copy_dma_get_channel_boot
get_channel_sound s (prio priority) c h =
    let (a, o) = checked-some s _ c h in (a, prio_loop_found s.list_chan_prio.size _ _ priority c o)
get_channel_sound s sh c h =
    let (a, o) = checked-some s _ c h in (a, boot_choice-some s boot_shared c o)
get_channel_sound s excl c h = checked-some s _ c h
get_channel_sound s boot c h =
    let (a, o) = checked-some s _ c h in (a, boot_choice-some s s.boot_policy c o)
