-- ===== src/Alloc/Table/Rebalance.antt =====
-- What the channel table holds after dma_channel_rebalance (source/drivers/dma/dmaengine.c).
use dmacftu.Prelude.{
  elem, ℕ, suc, ◌≡◌, refl, ap₂, sym, ◌∙◌, Bool, true, false, not, ◌||◌, List, [], ◌∷◌, ◌++◌, Option,
  none, some, ◌==◌, if◌then◌else◌, arith, Bool-cases, inl, inr, subst,
}
use dmacftu.Alloc.{Chan, Device}
use dmacftu.Alloc.Table.{
  is_skipped, scan_devices, or_least, bump, nth_chan, ChannelTable, set_entry, clear_counts,
  undo_distribution, Machine, rebalance_cpus, rebalance_caps, dma_channel_rebalance,
}
use dmacftu.Alloc.Table.Nth.{active, serving, ids, ids-append, nth_chan-serving, ids-serving-bump}

ids-active-clear : (chs : List Chan) → ids (active (clear_counts chs)) ≡ ids (active chs)
ids-active-clear [] = refl
ids-active-clear (ch ∷ chs) = ground (arith, ids-active-clear chs)

undo-cleared :
    (cap : ℕ) (d : Device) (ds : List Device)
    → (not d.is_listed || d.is_private) ≡ false
    → ids (serving cap (undo_distribution ds)) ≡ ids (serving cap ds)
    → ids (serving cap (undo_distribution (d ∷ ds))) ≡ ids (serving cap (d ∷ ds))
undo-cleared cap d ds cleared rest = elim (Bool-cases (is_skipped cap d)) [
  | inl skipped ↦ ground (arith, cleared, skipped, rest)
  | inr not_skipped ↦
      rw
        (
          cleared,
          not_skipped,
          ids-append (active (clear_counts d.channels)) (serving cap (undo_distribution ds)),
          ids-append (active d.channels) (serving cap ds),
        )
        (ap₂ (λ xs ys. xs ++ ys) (ids-active-clear d.channels) rest)
]

ids-serving-undo :
    (cap : ℕ) (ds : List Device) → ids (serving cap (undo_distribution ds)) ≡ ids (serving cap ds)
ids-serving-undo cap [] = refl
ids-serving-undo cap (d ∷ ds) = elim (Bool-cases (not d.is_listed || d.is_private)) [
  | inl apart ↦ ground (arith, apart, ids-serving-undo cap ds)
  | inr cleared ↦ undo-cleared cap d ds cleared (ids-serving-undo cap ds)
]

chosen-serving :
    (cap : ℕ) (o : Option Chan) (ds : List Device)
    → ids (
        serving cap
          (elim o as (λ x. Option ℕ × List Device) [
            | none ↦ (none, ds)
            | some ch ↦ (some ch.id, bump ch.id ds)
          ]).1)
      ≡ ids (serving cap ds)
chosen-serving cap none ds = refl
chosen-serving cap (some ch) ds = ids-serving-bump cap ch.id ds

nth_chan-keeps_serving :
    (cap cap' : ℕ) (n : Option ℕ) (ds : List Device)
    → ids (serving cap (nth_chan cap' n ds).1) ≡ ids (serving cap ds)
unfolding nth_chan
nth_chan-keeps_serving cap cap' n ds =
    chosen-serving cap
      (or_least (scan_devices cap' ds (record { left = n; least = none; found = none }))) ds

-- An entry is NULL, or one of these channels.
abbrev pub Serves : List ℕ → Option ℕ → Type 0
Serves cs none = Unit
Serves cs (some c) = elem c cs ≡ true

Serves-of : (cs : List ℕ) (o : Option ℕ) → ((c : ℕ) → o ≡ some c → elem c cs ≡ true) → Serves cs o
Serves-of cs none h = tt
Serves-of cs (some c) h = h c refl

-- Each entry of the table is a channel that serves its capability.
pub record IsSound (ds : List Device) (t : ChannelTable × List Device) : Type 0 where
  pub entries : (cap cpu : ℕ) → Serves (ids (serving cap ds)) (t.0 cap cpu)
  pub same : (cap : ℕ) → ids (serving cap t.1) ≡ ids (serving cap ds)

set_entry_sound :
    (ds : List Device) (cap cpu : ℕ) (o : Option ℕ) (table : ChannelTable)
    → Serves (ids (serving cap ds)) o
    → ((cap' cpu' : ℕ) → Serves (ids (serving cap' ds)) (table cap' cpu'))
    → (cap' cpu' : ℕ) → Serves (ids (serving cap' ds)) (set_entry cap cpu o table cap' cpu')
set_entry_sound ds cap cpu o table new old cap' cpu' = elim (Bool-cases (cap' == cap)) [
  | inr other ↦ rw other (old cap' cpu')
  | inl same ↦ elim (Bool-cases (cpu' == cpu)) [
    | inr other ↦ rw (same, other) (old cap' cpu')
    | inl here ↦
        let is_cap : cap' ≡ cap = ground (arith, same) in
        rw (same, here) (subst (λ k. Serves (ids (serving k ds)) o) (sym is_cap) new)
  ]
]

rebalance_cpus-IsSound :
    (multi : Bool) (cap : ℕ) (cpus : List ℕ) (n : ℕ) (ds : List Device)
    (t : ChannelTable × List Device)
    → IsSound ds t
    → IsSound ds ((rebalance_cpus multi cap cpus n t).1, (rebalance_cpus multi cap cpus n t).2)
unfolding rebalance_cpus
rebalance_cpus-IsSound multi cap [] n ds t ok = ok
rebalance_cpus-IsSound multi cap (cpu ∷ cpus) n ds t ok =
    let k = if multi then some n else none in
    let found = nth_chan cap k t.1 in
    rebalance_cpus-IsSound multi cap cpus (if multi then suc n else n) ds
      (set_entry cap cpu found.0 t.0, found.1)
      (record {
        entries =
            set_entry_sound ds cap cpu found.0 t.0
              (Serves-of (ids (serving cap ds)) found.0 (λ c e.
                subst (λ cs. elem c cs ≡ true) (ok.same cap) (nth_chan-serving cap c k t.1 e)))
              ok.entries;
        same = λ cap'. nth_chan-keeps_serving cap' cap k t.1 ∙ ok.same cap';
      })

rebalance_caps-IsSound :
    (m : Machine) (caps : List ℕ) (n : ℕ) (ds : List Device) (t : ChannelTable × List Device)
    → IsSound ds t
    → IsSound ds (rebalance_caps m caps n t)
unfolding rebalance_caps
rebalance_caps-IsSound m [] n ds t ok = ok
rebalance_caps-IsSound m (cap ∷ caps) n ds t ok =
    let next = rebalance_cpus m.is_multi cap m.online n t in
    rebalance_caps-IsSound m caps next.0 ds (next.1, next.2)
      (rebalance_cpus-IsSound m.is_multi cap m.online n ds t ok)

-- After dma_channel_rebalance, each entry of the channel table that is not NULL is a channel in use of a
-- listed public device with the entry's capability, and the channels that serve a capability are those
-- that served it before.
pub dma_channel_rebalance-IsSound :
    (m : Machine) (refs : ℕ) (ds : List Device) → IsSound ds (dma_channel_rebalance m refs ds)
unfolding dma_channel_rebalance
dma_channel_rebalance-IsSound m refs ds =
    let cleared : ChannelTable × List Device = ((λ cap cpu. none), undo_distribution ds) in
    let ok : IsSound ds cleared = record {
      entries = λ cap cpu. tt;
      same = λ cap. ids-serving-undo cap ds;
    } in
    elim (Bool-cases (refs == 0)) [
      | inl no_clients ↦ rw no_clients ok
      | inr clients ↦ rw clients (rebalance_caps-IsSound m m.capabilities 0 ds cleared ok)
    ]
