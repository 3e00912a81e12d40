-- ===== src/Alloc/Listing.antt =====
-- What of the devices stays in their place through dma_channel_rebalance
-- (source/drivers/dma/dmaengine.c).
use dmacftu.Prelude.{
  ℕ, suc, ◌≡◌, refl, ap, ap₂, ◌∙◌, Bool, not, ◌||◌, List, [], ◌∷◌, ◌++◌, map, Option, none, some,
  ◌==◌, if◌then◌else◌, Bool-cases, inl, inr,
}
use dmacftu.Alloc.{Chan, Device}
use dmacftu.Alloc.Table.{
  scan_devices, or_least, ChannelTable, Machine, bump_channels, bump, nth_chan, clear_counts,
  undo_distribution, rebalance_cpus, rebalance_caps, set_entry, dma_channel_rebalance,
}

-- The channels' numbers.
abbrev pub chan_ids : List Chan → List ℕ
chan_ids chs = map (λ ch. ch.id) chs

-- A device in dma_device_list: its number, whether it is listed, whether it is private, and its channels.
pub record Entry : Type 0 where
  pub dev_id : ℕ
  pub is_listed : Bool
  pub is_private : Bool
  pub chans : List ℕ

abbrev pub entry : Device → Entry
entry d = record {
  dev_id = d.dev_id;
  is_listed = d.is_listed;
  is_private = d.is_private;
  chans = chan_ids d.channels;
}

abbrev pub listing : List Device → List Entry
listing ds = map entry ds

pub listing-append :
    (ds : List Device) (d : Device) → listing (ds ++ d ∷ []) ≡ listing ds ++ entry d ∷ []
listing-append [] d = refl
listing-append (x ∷ ds) d = ap (λ es. entry x ∷ es) (listing-append ds d)

bump_channels-chan_ids : (c : ℕ) (chs : List Chan) → chan_ids (bump_channels c chs) ≡ chan_ids chs
unfolding bump_channels
bump_channels-chan_ids c [] = refl
bump_channels-chan_ids c (ch ∷ chs) = elim (Bool-cases (ch.id == c)) [
  | inl same ↦ rw same (ap (λ cs. ch.id ∷ cs) (bump_channels-chan_ids c chs))
  | inr other ↦ rw other (ap (λ cs. ch.id ∷ cs) (bump_channels-chan_ids c chs))
]

clear_counts-chan_ids : (chs : List Chan) → chan_ids (clear_counts chs) ≡ chan_ids chs
clear_counts-chan_ids [] = refl
clear_counts-chan_ids (ch ∷ chs) = ap (λ cs. ch.id ∷ cs) (clear_counts-chan_ids chs)

-- An entry with other channels.
abbrev with_chans : Device → List ℕ → Entry
with_chans d cs = record (entry d) { chans = cs }

bump-listing : (c : ℕ) (ds : List Device) → listing (bump c ds) ≡ listing ds
unfolding bump
bump-listing c [] = refl
bump-listing c (d ∷ ds) =
    ap₂ (λ cs es. with_chans d cs ∷ es) (bump_channels-chan_ids c d.channels) (bump-listing c ds)

undo_distribution-listing : (ds : List Device) → listing (undo_distribution ds) ≡ listing ds
undo_distribution-listing [] = refl
undo_distribution-listing (d ∷ ds) = elim (Bool-cases (not d.is_listed || d.is_private)) [
  | inl apart ↦ rw apart (ap (λ es. entry d ∷ es) (undo_distribution-listing ds))
  | inr cleared ↦ rw cleared (
      ap₂ (λ cs es. with_chans d cs ∷ es) (clear_counts-chan_ids d.channels)
        (undo_distribution-listing ds))
]

chosen-listing :
    (o : Option Chan) (ds : List Device)
    → listing
        (elim o as (λ x. Option ℕ × List Device) [
          | none ↦ (none, ds)
          | some ch ↦ (some ch.id, bump ch.id ds)
        ]).1
      ≡ listing ds
chosen-listing none ds = refl
chosen-listing (some ch) ds = bump-listing ch.id ds

nth_chan-listing :
    (cap : ℕ) (n : Option ℕ) (ds : List Device) → listing (nth_chan cap n ds).1 ≡ listing ds
unfolding nth_chan
nth_chan-listing cap n ds =
    chosen-listing
      (or_least (scan_devices cap ds (record { left = n; least = none; found = none }))) ds

rebalance_cpus-listing :
    (multi : Bool) (cap : ℕ) (cpus : List ℕ) (n : ℕ) (t : ChannelTable × List Device)
    → listing (rebalance_cpus multi cap cpus n t).2 ≡ listing t.1
unfolding rebalance_cpus
rebalance_cpus-listing multi cap [] n t = refl
rebalance_cpus-listing multi cap (cpu ∷ cpus) n t =
    let k = if multi then some n else none in
    rebalance_cpus-listing multi cap cpus (if multi then suc n else n)
      (set_entry cap cpu (nth_chan cap k t.1).0 t.0, (nth_chan cap k t.1).1)
    ∙ nth_chan-listing cap k t.1

rebalance_caps-listing :
    (m : Machine) (caps : List ℕ) (n : ℕ) (t : ChannelTable × List Device)
    → listing (rebalance_caps m caps n t).1 ≡ listing t.1
unfolding rebalance_caps
rebalance_caps-listing m [] n t = refl
rebalance_caps-listing m (cap ∷ caps) n t =
    let next = rebalance_cpus m.is_multi cap m.online n t in
    rebalance_caps-listing m caps next.0 (next.1, next.2)
    ∙ rebalance_cpus-listing m.is_multi cap m.online n t

-- dma_channel_rebalance keeps the devices and their channels in their order.
pub dma_channel_rebalance-listing :
    (m : Machine) (refs : ℕ) (ds : List Device)
    → listing (dma_channel_rebalance m refs ds).1 ≡ listing ds
unfolding dma_channel_rebalance
dma_channel_rebalance-listing m refs ds = elim (Bool-cases (refs == 0)) [
  | inl no_clients ↦ rw no_clients (undo_distribution-listing ds)
  | inr clients ↦ rw clients (
      rebalance_caps-listing m m.capabilities 0 ((λ cap cpu. none), undo_distribution ds)
      ∙ undo_distribution-listing ds)
]
