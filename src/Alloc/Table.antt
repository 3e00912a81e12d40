-- ===== src/Alloc/Table.antt =====
-- The table of the channels of each capability and CPU (source/drivers/dma/dmaengine.c, nth_chan and
-- dma_channel_rebalance).
pub mod Nth
pub mod Rebalance
use dmacftu.Prelude.{
  ℕ, zero, suc, ◌+◌, ◌≡◌, refl, ap, sym, ◌∙◌, Bool, true, false, not, ◌||◌, List, [], ◌∷◌, ◌++◌,
  Option, none, some, ltb, ◌==◌, if◌then◌else◌, arith, get_elem?, length, Bool-cases, ◌⊎◌, inl, inr,
  ◌<◌, Option-cases,
}
use dmacftu.Alloc.{Chan, Device, dma_has_cap}

-- The variables of nth_chan: n, which is -1 for none, and min and ret.
pub record Scan : Type 0 where
  pub left : Option ℕ
  pub least : Option Chan
  pub found : Option Chan

abbrev pub lesser : Option Chan → Chan → Option Chan
lesser none ch = some ch
lesser (some m) ch = if ltb ch.table_count m.table_count then some ch else some m

-- `if (n-- == 0)`.
abbrev pub count_down : Option ℕ → Option Chan → Chan → Scan
count_down none least ch = record { left = none; least = least; found = none }
count_down (some zero) least ch = record { left = none; least = least; found = some ch }
count_down (some (suc n)) least ch = record { left = some n; least = least; found = none }

abbrev pub visit : Scan → Chan → Scan
visit st ch = count_down st.left (lesser st.least ch) ch

-- `break` when the channel is found.
abbrev pub unless_found : Option Chan → Scan → Scan → Scan
unless_found none st rest = rest
unless_found (some ch) st rest = st

unfoldable pub scan_channels : List Chan → Scan → Scan
scan_channels [] st = st
scan_channels (ch ∷ chs) st =
    if ch.client_count == 0
    then scan_channels chs st
    else unless_found (visit st ch).found (visit st ch) (scan_channels chs (visit st ch))

abbrev pub is_skipped : ℕ → Device → Bool
is_skipped cap d = not d.is_listed || not (dma_has_cap cap d) || d.is_private

unfoldable pub scan_devices : ℕ → List Device → Scan → Scan
unfolding scan_channels
scan_devices cap [] st = st
scan_devices cap (d ∷ ds) st =
    if is_skipped cap d
    then scan_devices cap ds st
    else unless_found (scan_channels d.channels st).found (scan_channels d.channels st)
        (scan_devices cap ds (scan_channels d.channels st))

abbrev pub or_least : Scan → Option Chan
or_least st = elim st.found [ none ↦ st.least | some ch ↦ some ch ]

-- `ret->table_count++`.
unfoldable pub bump_channels : ℕ → List Chan → List Chan
bump_channels c [] = []
bump_channels c (ch ∷ chs) =
    (if ch.id == c then record ch { table_count = suc ch.table_count } else ch)
    ∷ bump_channels c chs

unfoldable pub bump : ℕ → List Device → List Device
unfolding bump_channels
bump c [] = []
bump c (d ∷ ds) = record d { channels = bump_channels c d.channels } ∷ bump c ds

unfoldable pub nth_chan : ℕ → Option ℕ → List Device → Option ℕ × List Device
unfolding scan_devices bump
nth_chan cap n ds =
    elim (or_least (scan_devices cap ds (record { left = n; least = none; found = none }))) [
      | none ↦ (none, ds)
      | some ch ↦ (some ch.id, bump ch.id ds)
    ]

-- channel_table: an entry for each capability and CPU.
abbrev pub ChannelTable : Type 0
ChannelTable = ℕ → ℕ → Option ℕ

abbrev pub set_entry : ℕ → ℕ → Option ℕ → ChannelTable → ChannelTable
set_entry cap cpu o table cap' cpu' =
    if cap' == cap then (if cpu' == cpu then o else table cap' cpu') else table cap' cpu'

abbrev pub clear_counts : List Chan → List Chan
clear_counts [] = []
clear_counts (ch ∷ chs) = record ch { table_count = 0 } ∷ clear_counts chs

abbrev pub undo_distribution : List Device → List Device
undo_distribution [] = []
undo_distribution (d ∷ ds) =
    (if not d.is_listed || d.is_private then d else record d { channels = clear_counts d.channels })
    ∷ undo_distribution ds

-- The CPUs that are online and whether there can be more than one, and the capabilities of
-- dma_cap_mask_all.
pub record Machine : Type 0 where
  pub online : List ℕ
  pub is_multi : Bool
  pub capabilities : List ℕ

-- The inner loop of dma_channel_rebalance, with its counter n.
unfoldable pub rebalance_cpus :
    Bool → ℕ → List ℕ → ℕ → ChannelTable × List Device → ℕ × ChannelTable × List Device
unfolding nth_chan
rebalance_cpus multi cap [] n (table, ds) = (n, table, ds)
rebalance_cpus multi cap (cpu ∷ cpus) n (table, ds) =
    let (o, ds') = nth_chan cap (if multi then some n else none) ds in
    rebalance_cpus multi cap cpus (if multi then suc n else n) (set_entry cap cpu o table, ds')

unfoldable pub rebalance_caps :
    Machine → List ℕ → ℕ → ChannelTable × List Device → ChannelTable × List Device
unfolding rebalance_cpus
rebalance_caps m [] n t = t
rebalance_caps m (cap ∷ caps) n t =
    let (n', table, ds) = rebalance_cpus m.is_multi cap m.online n t in
    rebalance_caps m caps n' (table, ds)

-- dma_channel_rebalance; all entries are cleared first, those of a capability outside dma_cap_mask_all
-- being NULL at any time.
unfoldable pub dma_channel_rebalance : Machine → ℕ → List Device → ChannelTable × List Device
unfolding rebalance_caps
dma_channel_rebalance m refs ds =
    let cleared : ChannelTable × List Device = ((λ cap cpu. none), undo_distribution ds) in
    if refs == 0 then cleared else rebalance_caps m m.capabilities 0 cleared
