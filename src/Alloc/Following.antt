-- ===== src/Alloc/Following.antt =====
-- The client counts of the public channels beside dmaengine_ref_count, in dmaengine_get and
-- dmaengine_put (source/drivers/dma/dmaengine.c).
use dmacftu.Prelude.{
  ◌<◌, ℕ, suc, ◌-◌, ◌≡◌, refl, sym, subst, Bool, true, false, not, ◌||◌, List, [], ◌∷◌, Option,
  none, some, ◌==◌, if◌then◌else◌, arith, Bool-cases, inl, inr, All,
}
use dmacftu.Alloc.{Chan, Device, Drivers, dma_chan_put}
use dmacftu.Alloc.Table.{
  scan_devices, or_least, ChannelTable, Machine, bump_channels, bump, nth_chan, clear_counts,
  undo_distribution, rebalance_cpus, rebalance_caps, set_entry, dma_channel_rebalance,
}
use dmacftu.Alloc.Clients.{
  Dmaengine, get_channels, with_channels, is_public, get_devices, dmaengine_get, put_channels,
  put_devices, dmaengine_put,
}
use dmacftu.Alloc.Balance.{Follows, Guarded, IsBalanced, get_channels-Follows, put-Follows}

public-open : (d : Device) → is_public d ≡ true → d.is_private ≡ false
public-open d e = ground (arith, e)

public-listed : (d : Device) → is_public d ≡ true → d.is_listed ≡ true
public-listed d e = ground (arith, e)

IsBalanced-open :
    (refs : ℕ) (d : Device) → is_public d ≡ true → IsBalanced refs d → All (Follows refs) d.channels
IsBalanced-open refs d e h = subst (λ b. Guarded b (All (Follows refs) d.channels)) e h

IsBalanced-shut : (refs : ℕ) (d : Device) → is_public d ≡ false → IsBalanced refs d
IsBalanced-shut refs d e = subst (λ b. Guarded b (All (Follows refs) d.channels)) (sym e) tt

pub IsBalanced-All :
    (refs : ℕ) (d : Device) (b : Bool)
    → is_public d ≡ b
    → All (Follows refs) d.channels
    → IsBalanced refs d
IsBalanced-All refs d true e h = subst (λ b. Guarded b (All (Follows refs) d.channels)) (sym e) h
IsBalanced-All refs d false e h = IsBalanced-shut refs d e

with_channels-IsBalanced :
    (refs : ℕ) (d : Device) (got : Bool × ℕ × List Chan) (removed : Bool)
    → got.0 ≡ removed
    → (removed ≡ false → All (Follows refs) got.2)
    → IsBalanced refs (with_channels d got)
with_channels-IsBalanced refs d got true e h =
    IsBalanced-shut refs (with_channels d got) (ground (arith, e))
with_channels-IsBalanced refs d got false e h =
    IsBalanced-All refs (with_channels d got) (is_public (with_channels d got)) refl (h refl)

get_devices-IsBalanced :
    (drv : Drivers) (refs : ℕ) (ds : List Device)
    → All (IsBalanced refs) ds
    → All (IsBalanced (suc refs)) (get_devices drv (suc refs) ds)
unfolding get_devices
get_devices-IsBalanced drv refs [] a = tt
get_devices-IsBalanced drv refs (d ∷ ds) (h, a) = elim (Bool-cases (is_public d)) [
  | inr shut ↦ rw shut (IsBalanced-shut (suc refs) d shut, get_devices-IsBalanced drv refs ds a)
  | inl public ↦
      let got = get_channels drv (suc refs) d d.channels in
      let d' = with_channels-IsBalanced (suc refs) d got got.0 refl (λ e.
        get_channels-Follows drv refs d d.channels (public-open d public)
          (IsBalanced-open refs d public h) e) in
      rw public (d', get_devices-IsBalanced drv refs ds a)
]

put_channels-Follows :
    (refs : ℕ) (d : Device) (chs : List Chan)
    → All (Follows (suc refs)) chs
    → All (Follows refs) (put_channels d chs).1
unfolding put_channels
put_channels-Follows refs d [] a = tt
put_channels-Follows refs d (ch ∷ chs) (h, a) = (
  put-Follows refs d ch h,
  put_channels-Follows refs (record d { owner_refs = (dma_chan_put d ch).0 }) chs a,
)

put_devices-IsBalanced :
    (refs : ℕ) (ds : List Device)
    → All (IsBalanced (suc refs)) ds
    → All (IsBalanced refs) (put_devices ds)
unfolding put_devices
put_devices-IsBalanced refs [] a = tt
put_devices-IsBalanced refs (d ∷ ds) (h, a) = elim (Bool-cases (is_public d)) [
  | inr shut ↦ rw shut (IsBalanced-shut refs d shut, put_devices-IsBalanced refs ds a)
  | inl public ↦
      let put = put_channels d d.channels in
      let d' =
        IsBalanced-All refs (record d { owner_refs = put.0; channels = put.1 }) true public
          (put_channels-Follows refs d d.channels (IsBalanced-open (suc refs) d public h)) in
      rw public (d', put_devices-IsBalanced refs ds a)
]

bump_channels-Follows :
    (refs c : ℕ) (chs : List Chan)
    → All (Follows refs) chs
    → All (Follows refs) (bump_channels c chs)
unfolding bump_channels
bump_channels-Follows refs c [] a = tt
bump_channels-Follows refs c (ch ∷ chs) (h, a) = elim (Bool-cases (ch.id == c)) [
  | inl same ↦ rw same (h, bump_channels-Follows refs c chs a)
  | inr other ↦ rw other (h, bump_channels-Follows refs c chs a)
]

clear_counts-Follows :
    (refs : ℕ) (chs : List Chan) → All (Follows refs) chs → All (Follows refs) (clear_counts chs)
clear_counts-Follows refs [] a = tt
clear_counts-Follows refs (ch ∷ chs) (h, a) = (h, clear_counts-Follows refs chs a)

guarded_map : (b : Bool) (P Q : Type 0) → (P → Q) → Guarded b P → Guarded b Q
guarded_map false P Q f h = tt
guarded_map true P Q f h = f h

bump-IsBalanced :
    (refs c : ℕ) (ds : List Device) → All (IsBalanced refs) ds → All (IsBalanced refs) (bump c ds)
unfolding bump
bump-IsBalanced refs c [] a = tt
bump-IsBalanced refs c (d ∷ ds) (h, a) = (
  guarded_map (is_public d) (All (Follows refs) d.channels)
      (All (Follows refs) (bump_channels c d.channels)) (bump_channels-Follows refs c d.channels) h,
  bump-IsBalanced refs c ds a,
)

undo_distribution-IsBalanced :
    (refs : ℕ) (ds : List Device)
    → All (IsBalanced refs) ds
    → All (IsBalanced refs) (undo_distribution ds)
undo_distribution-IsBalanced refs [] a = tt
undo_distribution-IsBalanced refs (d ∷ ds) (h, a) =
    elim (Bool-cases (not d.is_listed || d.is_private)) [
      | inl apart ↦ rw apart (h, undo_distribution-IsBalanced refs ds a)
      | inr cleared ↦ rw cleared (
        guarded_map (is_public d) (All (Follows refs) d.channels)
            (All (Follows refs) (clear_counts d.channels)) (clear_counts-Follows refs d.channels) h,
        undo_distribution-IsBalanced refs ds a,
      )
    ]

chosen-IsBalanced :
    (refs : ℕ) (o : Option Chan) (ds : List Device)
    → All (IsBalanced refs) ds
    → All
        (IsBalanced refs)
        (elim o as (λ x. Option ℕ × List Device) [
          | none ↦ (none, ds)
          | some ch ↦ (some ch.id, bump ch.id ds)
        ]).1
chosen-IsBalanced refs none ds a = a
chosen-IsBalanced refs (some ch) ds a = bump-IsBalanced refs ch.id ds a

nth_chan-IsBalanced :
    (refs cap : ℕ) (n : Option ℕ) (ds : List Device)
    → All (IsBalanced refs) ds
    → All (IsBalanced refs) (nth_chan cap n ds).1
unfolding nth_chan
nth_chan-IsBalanced refs cap n ds a =
    chosen-IsBalanced refs
      (or_least (scan_devices cap ds (record { left = n; least = none; found = none }))) ds a

rebalance_cpus-IsBalanced :
    (refs : ℕ) (multi : Bool) (cap : ℕ) (cpus : List ℕ) (n : ℕ) (t : ChannelTable × List Device)
    → All (IsBalanced refs) t.1
    → All (IsBalanced refs) (rebalance_cpus multi cap cpus n t).2
unfolding rebalance_cpus
rebalance_cpus-IsBalanced refs multi cap [] n t a = a
rebalance_cpus-IsBalanced refs multi cap (cpu ∷ cpus) n t a =
    let k = if multi then some n else none in
    rebalance_cpus-IsBalanced refs multi cap cpus (if multi then suc n else n)
      (set_entry cap cpu (nth_chan cap k t.1).0 t.0, (nth_chan cap k t.1).1)
      (nth_chan-IsBalanced refs cap k t.1 a)

rebalance_caps-IsBalanced :
    (refs : ℕ) (m : Machine) (caps : List ℕ) (n : ℕ) (t : ChannelTable × List Device)
    → All (IsBalanced refs) t.1
    → All (IsBalanced refs) (rebalance_caps m caps n t).1
unfolding rebalance_caps
rebalance_caps-IsBalanced refs m [] n t a = a
rebalance_caps-IsBalanced refs m (cap ∷ caps) n t a =
    let next = rebalance_cpus m.is_multi cap m.online n t in
    rebalance_caps-IsBalanced refs m caps next.0 (next.1, next.2)
      (rebalance_cpus-IsBalanced refs m.is_multi cap m.online n t a)

pub dma_channel_rebalance-IsBalanced :
    (refs k : ℕ) (m : Machine) (ds : List Device)
    → All (IsBalanced refs) ds
    → All (IsBalanced refs) (dma_channel_rebalance m k ds).1
unfolding dma_channel_rebalance
dma_channel_rebalance-IsBalanced refs k m ds a =
    let cleared : ChannelTable × List Device = ((λ cap cpu. none), undo_distribution ds) in
    let ok = undo_distribution-IsBalanced refs ds a in
    elim (Bool-cases (k == 0)) [
      | inl no_clients ↦ rw no_clients ok
      | inr clients ↦ rw clients (rebalance_caps-IsBalanced refs m m.capabilities 0 cleared ok)
    ]

-- Where each channel of a public device has no client or as many as dmaengine_ref_count, it is so
-- again after dmaengine_get.
pub dmaengine_get-IsBalanced :
    (m : Machine) (drv : Drivers) (s : Dmaengine)
    → All (IsBalanced s.ref_count) s.devices
    → All (IsBalanced (dmaengine_get m drv s).ref_count) (dmaengine_get m drv s).devices
unfolding dmaengine_get
dmaengine_get-IsBalanced m drv s a =
    let got = get_devices-IsBalanced drv s.ref_count s.devices a in
    let rebalanced =
      dma_channel_rebalance-IsBalanced (suc s.ref_count) (suc s.ref_count) m
        (get_devices drv (suc s.ref_count) s.devices) got in
    elim (Bool-cases (suc s.ref_count == 1)) [
      | inl first ↦ rw first rebalanced
      | inr later ↦ rw later got
    ]

put-some :
    (s : Dmaengine) (refs : ℕ)
    → s.ref_count ≡ suc refs
    → dmaengine_put s ≡ some (record s { ref_count = refs; devices = put_devices s.devices })
unfolding dmaengine_put
put-some s refs e = ground (arith, e)

-- Where each channel of a public device has no client or as many as dmaengine_ref_count, and that is not
-- 0, dmaengine_put does not stop at its BUG_ON, and it is so again in the state that it leaves.
pub dmaengine_put-IsBalanced :
    (s : Dmaengine)
    → All (IsBalanced s.ref_count) s.devices
    → 0 < s.ref_count
    → (s' : Dmaengine) × (dmaengine_put s ≡ some s') × All (IsBalanced s'.ref_count) s'.devices
dmaengine_put-IsBalanced s a more =
    let refs = s.ref_count - 1 in
    let e : s.ref_count ≡ suc refs = omega (arith, more) in
    (
      record s { ref_count = refs; devices = put_devices s.devices },
      put-some s refs e,
      put_devices-IsBalanced refs s.devices (subst (λ k. All (IsBalanced k) s.devices) e a),
    )
