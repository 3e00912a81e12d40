-- ===== src/Alloc/Registered.antt =====
-- What registering a DMA device, and unregistering it, leave (source/drivers/dma/dmaengine.c).
use dmacftu.Prelude.{
  ℕ, zero, suc, ◌+◌, ◌-◌, ◌≡◌, ◌≢◌, ◌<◌, refl, ap, ap₂, sym, ◌∙◌, subst, Bool, true, false, not,
  ◌&&◌, ◌||◌, List, [], ◌∷◌, ◌++◌, Option, none, some, ltb, ◌==◌, if◌then◌else◌, ℤ, pos, negsuc,
  length, arith, Bool-cases, inl, inr, All,
}
use dmacftu.Trace.Module.{enomem}
use dmacftu.Alloc.{Chan, Device, Drivers, enodev, dma_device_satisfies_mask}
use dmacftu.Alloc.Table.{ChannelTable, Machine, dma_channel_rebalance}
use dmacftu.Alloc.Clients.{Dmaengine, get_channels, is_public}
use dmacftu.Alloc.Balance.{Follows, IsBalanced, get_channels-Follows}
use dmacftu.Alloc.Following.{IsBalanced-All, dma_channel_rebalance-IsBalanced}
use dmacftu.Alloc.Table.Rebalance.{Serves, IsSound, dma_channel_rebalance-IsSound}
use dmacftu.Alloc.Registration.{
  ChanMemory, Kernel, Routines, held_after, register_channels, Call, returned, err_out, publish,
  after_get, take_references, after_channels, after_id, with_async_tx, dma_async_tx, lacks,
  asked_for, dma_async_device_register, list_del, dma_async_device_unregister,
}
use dmacftu.Alloc.Listing.{chan_ids, listing, listing-append, dma_channel_rebalance-listing}
use dmacftu.Alloc.Kept.{AreIdle, get_channels-chan_ids, get_channels-kept}
use dmacftu.Alloc.Unwinding.{
  LoopEnded, register_channels-LoopEnded, unregister_all-unwinds, err_out-gives_back, whole_err_out,
  partly_held, nothing_held, all_held, all_there, failed,
}

-- How registering a device ends, which holds nothing before. If it fails, the references on the module of
-- the device's driver are as before, unless a driver answers -ENODEV for a channel.
pub data Registered (drv : Drivers) (d : Device) (s : Dmaengine) (ids : List ℕ) (out : Call)
    : Type 0 where
  registered :
      (id : ℕ) (s' : Dmaengine)
      → out ≡ returned (pos 0) s' (all_held id ids (length d.channels)) none
      → s'.ref_count ≡ s.ref_count
      → listing s'.devices
        ≡ listing s.devices
          ++ record {
            dev_id = id;
            is_listed = true;
            is_private = d.is_private;
            chans = chan_ids d.channels;
          }
            ∷ []
      → All (IsBalanced s'.ref_count) s'.devices
      → IsSound s'.devices (s'.table, s'.devices)
      → Registered drv d s ids out
  not_registered :
      (rc : ℤ) (left : Device)
      → rc ≢ pos 0
      → out ≡ returned rc s (nothing_held ids (length d.channels)) (some left)
      → (((c : ℕ) → drv.alloc_chan_resources c ≢ enodev) → left.owner_refs ≡ d.owner_refs)
      → Registered drv d s ids out

All-append :
    {A : Type 0} (P : A → Type 0) (xs : List A) (x : A) → All P xs → P x → All P (xs ++ x ∷ [])
All-append P [] x a h = (h, tt)
All-append P (y ∷ ys) x (k, a) h = (k, All-append P ys x a h)

-- The device in the course of its registration.
record IsLike (d d' : Device) : Type 0 where
  same_private : d'.is_private ≡ d.is_private
  same_refs : d'.owner_refs ≡ d.owner_refs
  same_chans : chan_ids d'.channels ≡ chan_ids d.channels

IsSound-after :
    (ds ds' : List Device) (table : ChannelTable)
    → IsSound ds (table, ds')
    → IsSound ds' (table, ds')
IsSound-after ds ds' table ok = record {
  entries =
      λ cap cpu. subst (λ cs. Serves cs (table cap cpu)) (sym (ok.same cap)) (ok.entries cap cpu);
  same = λ cap. refl;
}

idle-Follows : (refs : ℕ) (chs : List Chan) → AreIdle chs → All (Follows refs) chs
idle-Follows refs [] a = tt
idle-Follows refs (ch ∷ chs) (h, a) = (inl h, idle-Follows refs chs a)

module _ (m : Machine) (drv : Drivers) (s : Dmaengine) (ids : List ℕ)
    (balanced : All (IsBalanced s.ref_count) s.devices) (new : Device) where
  abbrev channel_count : ℕ
  channel_count = length new.channels

  publish-Registered :
      (d : Device)
      → d.is_private ≡ new.is_private
      → chan_ids d.channels ≡ chan_ids new.channels
      → All (Follows s.ref_count) d.channels
      → Registered drv new s ids (publish m d s (all_held d.dev_id ids channel_count))
  publish-Registered d private chans follow =
      let listed : Device = record d {
        is_listed = true;
        privatecnt = if d.is_private then suc d.privatecnt else d.privatecnt;
      } in
      let ds : List Device = s.devices ++ listed ∷ [] in
      let out = dma_channel_rebalance m s.ref_count ds in
      registered d.dev_id (record s { devices = out.1; table = out.0 }) refl refl
        (dma_channel_rebalance-listing m s.ref_count ds
          ∙ listing-append s.devices listed
          ∙ ap₂
              (λ b cs.
                listing s.devices
                ++ record { dev_id = d.dev_id; is_listed = true; is_private = b; chans = cs } ∷ [])
              private chans)
        (dma_channel_rebalance-IsBalanced s.ref_count s.ref_count m ds (
          All-append (IsBalanced s.ref_count) s.devices listed balanced
            (IsBalanced-All s.ref_count listed (is_public listed) refl follow)))
        (IsSound-after ds out.1 out.0 (dma_channel_rebalance-IsSound m s.ref_count ds))

  after_get-Registered :
      (d : Device) (got : Bool × ℕ × List Chan)
      → d.is_private ≡ new.is_private
      → chan_ids got.2 ≡ chan_ids new.channels
      → (got.0 ≡ false → All (Follows s.ref_count) got.2)
      → (((c : ℕ) → drv.alloc_chan_resources c ≢ enodev) → got.0 ≡ true → got.1 ≡ new.owner_refs)
      → Registered drv new s ids
          (after_get m d channel_count s (all_held d.dev_id ids channel_count) got)
  after_get-Registered d (false, refs, chs) private chans follow kept =
      publish-Registered (record d { owner_refs = refs; channels = chs }) private chans
        (follow refl)
  after_get-Registered d (true, refs, chs) private chans follow kept =
      let left : Device = record d { owner_refs = refs; channels = chs } in
      not_registered enodev left (λ z. ground (arith, z))
        (whole_err_out enodev left channel_count s ids) (λ answers. kept answers refl)

  take_references-Registered :
      (d : Device)
      → IsLike new d
      → AreIdle d.channels
      → Registered drv new s ids
          (take_references m drv d channel_count s (all_held d.dev_id ids channel_count))
  take_references-Registered d like idle =
      elim (Bool-cases (ltb 0 s.ref_count && not d.is_private)) [
        | inr without ↦ rw without (
            publish-Registered d like.same_private like.same_chans
              (idle-Follows s.ref_count d.channels idle))
        | inl with ↦
            let refs : ℕ = s.ref_count - 1 in
            let public : d.is_private ≡ false = ground (arith, with) in
            let count : suc refs ≡ s.ref_count = ground (arith, with) in
            let follow =
              subst
                (λ k.
                  (get_channels drv k d d.channels).0 ≡ false
                  → All (Follows k) (get_channels drv k d d.channels).2)
                count
                (get_channels-Follows drv refs d d.channels public
                  (idle-Follows refs d.channels idle)) in
            rw with (
              after_get-Registered d (get_channels drv s.ref_count d d.channels) like.same_private
                (get_channels-chan_ids drv s.ref_count d d.channels ∙ like.same_chans) follow
                (λ answers removed.
                  get_channels-kept drv s.ref_count answers d d.channels idle removed
                  ∙ like.same_refs))
      ]

  after_channels-Registered :
      (d : Device) (out : Option ℤ × ℕ × List ChanMemory × List Chan)
      → IsLike new d
      → LoopEnded 0 0 new.channels out
      → Registered drv new s ids
          (after_channels m drv d s (nothing_held (d.dev_id ∷ ids) channel_count) out)
  after_channels-Registered d out like (failed rc j left chs' bad count e) =
      let from_0 : 0 + j ≡ j = omega arith in
      let d' : Device = record d { channels = chs' } in
      not_registered rc d' bad
        (ap (after_channels m drv d s (nothing_held (d.dev_id ∷ ids) channel_count)) e
          ∙ ap
              (λ k.
                err_out rc d' k s (record (partly_held d.dev_id ids j left) { idr_ref = some k }))
              from_0
          ∙ err_out-gives_back rc d' j left s ids
          ∙ ap (λ k. returned rc s (nothing_held ids k) (some d')) count)
        (λ answers. like.same_refs)
  after_channels-Registered d out like (all_there chs' e same idle) =
      let from_0 : 0 + channel_count ≡ channel_count = omega arith in
      let whole : Device = record d { channels = chs' } in
      subst (Registered drv new s ids)
        (sym (
          ap (after_channels m drv d s (nothing_held (d.dev_id ∷ ids) channel_count)) e
          ∙ ap
              (λ k.
                take_references m drv whole k s
                  (record (all_held d.dev_id ids channel_count) { idr_ref = some k }))
              from_0))
        (take_references-Registered whole
          (record {
            same_private = like.same_private;
            same_refs = like.same_refs;
            same_chans = same;
          })
          idle)

  after_id-Registered :
      (k : Kernel) (d : Device) (answer : ℤ)
      → IsLike new d
      → d.channels ≡ new.channels
      → Registered drv new s ids (after_id m drv k d s (nothing_held ids channel_count) answer)
  after_id-Registered k d (negsuc e) like same =
      not_registered (negsuc e) d (λ z. ground (arith, z)) refl (λ answers. like.same_refs)
  after_id-Registered k d (pos id) like same =
      let d' : Device = record d { dev_id = id } in
      after_channels-Registered d' (register_channels k 0 0 d.channels)
        (record {
          same_private = like.same_private;
          same_refs = like.same_refs;
          same_chans = like.same_chans;
        })
        (subst (λ chs. LoopEnded 0 0 new.channels (register_channels k 0 0 chs)) (sym same)
          (register_channels-LoopEnded k 0 0 new.channels))

with_async_tx-channels :
    (wanted : List ℕ) (d : Device)
    → IsLike d (with_async_tx wanted d) × ((with_async_tx wanted d).channels ≡ d.channels)
with_async_tx-channels wanted d =
    let like : IsLike d d = record { same_private = refl; same_refs = refl; same_chans = refl } in
    let marked : IsLike d (record d { caps = dma_async_tx ∷ d.caps }) = record {
      same_private = refl;
      same_refs = refl;
      same_chans = refl;
    } in
    elim (Bool-cases (dma_device_satisfies_mask d wanted)) [
      | inl all ↦ rw all (marked, refl)
      | inr not_all ↦ rw not_all (like, refl)
    ]

-- Registering a device that has its routines and holds nothing, beside devices where each channel of a
-- public device has no client or as many as dmaengine_ref_count, ends in one of two ways, whatever the
-- kernel and the drivers answer. It returns 0 with a number for the device and all that its channels
-- need; the list is the devices that were there, in their order, and after them the device, listed, with
-- its number, its channels and DMA_PRIVATE as it was; the client counts are as before, for the new device
-- too; and each entry of the channel table that is not NULL is a channel in use of a listed public device
-- of that list with the entry's capability. Or it returns another number, leaves the list, the table and
-- the numbers in use as they were, and the device without a number, a counter or memory for its
-- channels; if no driver answers -ENODEV for the resources of a channel, no reference on the module of
-- the device's driver is kept either.
pub dma_async_device_register-Registered :
    (m : Machine) (drv : Drivers) (k : Kernel) (wanted : List ℕ) (r : Routines) (d : Device)
    (s : Dmaengine) (ids : List ℕ)
    → (lacks r d asked_for || not r.basic) ≡ false
    → All (IsBalanced s.ref_count) s.devices
    → Registered drv d s ids (
        dma_async_device_register m drv k wanted r
          (some d)
          s
          (nothing_held ids (length d.channels)))
unfolding dma_async_device_register
dma_async_device_register-Registered m drv k wanted r d s ids right balanced =
    let (like, same) = with_async_tx-channels wanted d in
    elim (Bool-cases k.kmalloc) [
      | inr no_ref ↦
          rw (right, no_ref)
            (not_registered enomem (with_async_tx wanted d) (λ z. ground (arith, z)) refl
              (λ answers. like.same_refs))
      | inl ref ↦
          rw (right, ref)
            (after_id-Registered m drv s ids balanced d k (with_async_tx wanted d) k.idr_alloc like
              same)
    ]

list_del-All : (P : Device → Type 0) (id : ℕ) (ds : List Device) → All P ds → All P (list_del id ds)
list_del-All P id [] a = tt
list_del-All P id (d ∷ ds) (h, a) = elim (Bool-cases (d.dev_id == id)) [
  | inl this ↦ rw this a
  | inr other ↦ rw other (h, list_del-All P id ds a)
]

-- Unregistering a device with at least one channel, which holds what its registration gave it, beside
-- devices where each channel of a public device has no client or as many as dmaengine_ref_count: the
-- device holds nothing and its number is free again, the same holds of the devices that are left, and
-- each entry of the channel table is a channel in use of one of these that is listed and public and has
-- the entry's capability.
pub dma_async_device_unregister-gives_back :
    (m : Machine) (id n : ℕ) (s : Dmaengine) (ids : List ℕ)
    → 0 < n
    → All (IsBalanced s.ref_count) s.devices
    → ((dma_async_device_unregister m id s (all_held id ids n)).1 ≡ nothing_held ids n)
      × All
          (IsBalanced s.ref_count)
          (dma_async_device_unregister m id s (all_held id ids n)).0.devices
      × IsSound (list_del id s.devices) (
        (dma_async_device_unregister m id s (all_held id ids n)).0.table,
        (dma_async_device_unregister m id s (all_held id ids n)).0.devices,
      )
unfolding dma_async_device_unregister
dma_async_device_unregister-gives_back m id zero s ids more balanced = absurd (omega arith)
dma_async_device_unregister-gives_back m id (suc n) s ids more balanced = (
  ap held_after (unregister_all-unwinds id n ids),
  dma_channel_rebalance-IsBalanced s.ref_count s.ref_count m (list_del id s.devices)
      (list_del-All (IsBalanced s.ref_count) id s.devices balanced),
  dma_channel_rebalance-IsSound m s.ref_count (list_del id s.devices),
)
