-- ===== src/Alloc/Unwinding.antt =====
-- How the loop over the channels of a device that is registered ends, and what the loops that give back
-- leave (source/drivers/dma/dmaengine.c).
use dmacftu.Prelude.{
  ℕ, zero, suc, ◌+◌, ◌≡◌, ◌≢◌, refl, ap, sym, ◌∙◌, false, List, [], ◌∷◌, ◌++◌, Option, none, some,
  ◌==◌, ℤ, pos, replicate, length, arith, Bool-cases, inl, inr, All,
}
use mathlib.Core.List.{append-nil}
use dmacftu.Trace.Module.{enomem, remove, is_zero}
use dmacftu.Alloc.{Chan, Device}
use dmacftu.Alloc.Listing.{chan_ids}
use dmacftu.Alloc.Clients.{Dmaengine}
use dmacftu.Alloc.Registration.{
  no_memory, all_memory, ChanMemory, Holding, Kernel, Idr, drop_ref, register_channels,
  unregister_some, unregister_all, returned, err_out,
}

-- A device that holds nothing, beside the numbers of others.
abbrev pub nothing_held : List ℕ → ℕ → Holding
nothing_held ids n = record { ids = ids; idr_ref = none; chans = replicate n no_memory }

-- A device with all that its channels need.
abbrev pub all_held : ℕ → List ℕ → ℕ → Holding
all_held id ids n = record { ids = id ∷ ids; idr_ref = some n; chans = replicate n all_memory }

-- How the loop over the channels ends: with all of them, none with a client, or at an error after some.
pub data LoopEnded (i n : ℕ) (chs : List Chan) (out : Option ℤ × ℕ × List ChanMemory × List Chan)
    : Type 0 where
  all_there :
      (chs' : List Chan)
      → out ≡ (none, n + length chs, replicate (length chs) all_memory, chs')
      → chan_ids chs' ≡ chan_ids chs
      → All (λ ch. ch.client_count ≡ 0) chs'
      → LoopEnded i n chs out
  failed :
      (rc : ℤ) (j left : ℕ) (chs' : List Chan)
      → rc ≢ pos 0
      → j + left ≡ length chs
      → out ≡ (some rc, n + j, replicate j all_memory ++ replicate left no_memory, chs')
      → LoopEnded i n chs out

failed_here :
    (rc : ℤ) (i n : ℕ) (ch : Chan) (chs : List Chan)
    (out : Option ℤ × ℕ × List ChanMemory × List Chan)
    → rc ≢ pos 0
    → out ≡ (some rc, n, no_memory ∷ replicate (length chs) no_memory, ch ∷ chs)
    → LoopEnded i n (ch ∷ chs) out
failed_here rc i n ch chs out bad e =
    failed rc 0 (suc (length chs)) (ch ∷ chs) bad (omega arith) (ground (arith, e))

pub register_channels-LoopEnded :
    (k : Kernel) (i n : ℕ) (chs : List Chan) → LoopEnded i n chs (register_channels k i n chs)
unfolding register_channels
register_channels-LoopEnded k i n [] = all_there [] (ground arith) refl tt
register_channels-LoopEnded k i n (ch ∷ chs) = elim (Bool-cases (k.alloc_percpu i)) [
  | inr no_local ↦
      failed_here enomem i n ch chs (register_channels k i n (ch ∷ chs)) (λ z. ground (arith, z))
        (ground (arith, no_local))
  | inl local ↦ elim (Bool-cases (k.kzalloc i)) [
    | inr no_dev ↦
        failed_here enomem i n ch chs (register_channels k i n (ch ∷ chs)) (λ z. ground (arith, z))
          (ground (arith, local, no_dev))
    | inl dev ↦ elim (Bool-cases (is_zero (k.device_register i))) [
      | inr refused ↦
          failed_here (k.device_register i) i n ch chs (register_channels k i n (ch ∷ chs))
            (λ z. ground (arith, z, refused)) (ground (arith, local, dev, refused))
      | inl fine ↦ elim (register_channels-LoopEnded k (suc i) (suc n) chs) [
        | all_there chs' e same idle ↦
            all_there (record ch { client_count = 0 } ∷ chs') (ground (arith, local, dev, fine, e))
              (ap (λ cs. ch.id ∷ cs) same) (refl, idle)
        | failed rc j left chs' bad count e ↦
            failed rc (suc j) left (record ch { client_count = 0 } ∷ chs') bad
              (omega (arith, count)) (ground (arith, local, dev, fine, e))
      ]
    ]
  ]
]

remove-first : (id : ℕ) (ids : List ℕ) → remove id (id ∷ ids) ≡ ids
remove-first id ids = ground arith

-- What the last channel, and any other, does to the number and its counter.
last-release :
    (id : ℕ) (ids : List ℕ) → drop_ref id (id ∷ ids) (some 1) ≡ record { ids = ids; idr_ref = none }
last-release id ids = ap (λ xs. record { ids = xs; idr_ref = none }) (remove-first id ids)

earlier-release :
    (id j : ℕ) (ids : List ℕ)
    → drop_ref id ids (some (suc (suc j))) ≡ record { ids = ids; idr_ref = some (suc j) }
earlier-release id j ids = ground arith

-- With no counter left, the loop finds no channel.
unregister_some-none :
    (id left : ℕ) (st : Idr)
    → unregister_some id (replicate left no_memory) st ≡ (replicate left no_memory, st)
unfolding unregister_some
unregister_some-none id zero st = refl
unregister_some-none id (suc left) st = ground (arith, unregister_some-none id left st)

abbrev one_unregistered : List ChanMemory × Idr → List ChanMemory × Idr
one_unregistered (ms, st) = (no_memory ∷ ms, st)

-- The loop gives back what the first channels hold, and the number with the last of them.
unregister_some-unwinds :
    (id j left : ℕ) (ids : List ℕ)
    → unregister_some id
        (replicate (suc j) all_memory ++ replicate left no_memory)
        (record { ids = id ∷ ids; idr_ref = some (suc j) })
      ≡ (replicate (suc j + left) no_memory, record { ids = ids; idr_ref = none })
unfolding unregister_some
unregister_some-unwinds id zero left ids =
    let one_more : 1 + left ≡ suc left = omega arith in
    ap (λ st. one_unregistered (unregister_some id (replicate left no_memory) st))
      (last-release id ids)
    ∙ ap one_unregistered (unregister_some-none id left (record { ids = ids; idr_ref = none }))
    ∙ ap (λ n. (replicate n no_memory, record { ids = ids; idr_ref = none })) (sym one_more)
unregister_some-unwinds id (suc j) left ids =
    let one_more : suc (suc j) + left ≡ suc (suc j + left) = omega arith in
    ap
      (λ st.
        one_unregistered
          (unregister_some id (replicate (suc j) all_memory ++ replicate left no_memory) st))
      (earlier-release id j (id ∷ ids))
    ∙ ap one_unregistered (unregister_some-unwinds id j left ids)
    ∙ ap (λ n. (replicate n no_memory, record { ids = ids; idr_ref = none })) (sym one_more)

pub unregister_all-unwinds :
    (id j : ℕ) (ids : List ℕ)
    → unregister_all id
        (replicate (suc j) all_memory)
        (record { ids = id ∷ ids; idr_ref = some (suc j) })
      ≡ (replicate (suc j) no_memory, record { ids = ids; idr_ref = none })
unfolding unregister_all
unregister_all-unwinds id zero ids =
    ap (λ st. one_unregistered (unregister_all id [] st)) (last-release id ids)
unregister_all-unwinds id (suc j) ids =
    ap (λ st. one_unregistered (unregister_all id (replicate (suc j) all_memory) st))
      (earlier-release id j (id ∷ ids))
    ∙ ap one_unregistered (unregister_all-unwinds id j ids)

-- What a device holds in the course of its registration.
abbrev pub partly_held : ℕ → List ℕ → ℕ → ℕ → Holding
partly_held id ids j left = record {
  ids = id ∷ ids;
  idr_ref = some j;
  chans = replicate j all_memory ++ replicate left no_memory;
}

pub err_out-gives_back :
    (rc : ℤ) (d : Device) (j left : ℕ) (s : Dmaengine) (ids : List ℕ)
    → err_out rc d j s (partly_held d.dev_id ids j left)
      ≡ returned rc s (nothing_held ids (j + left)) (some d)
err_out-gives_back rc d zero left s ids =
    let none_yet : 0 + left ≡ left = omega arith in rw (none_yet, remove-first d.dev_id ids) refl
err_out-gives_back rc d (suc j) left s ids =
    let some_there : (suc j == 0) ≡ false = ground arith in
    rw (some_there, unregister_some-unwinds d.dev_id j left ids) refl

pub whole_err_out :
    (rc : ℤ) (d : Device) (n : ℕ) (s : Dmaengine) (ids : List ℕ)
    → err_out rc d n s (all_held d.dev_id ids n) ≡ returned rc s (nothing_held ids n) (some d)
whole_err_out rc d n s ids =
    let no_more : n + 0 ≡ n = omega arith in
    ap (λ ms. err_out rc d n s (record { ids = d.dev_id ∷ ids; idr_ref = some n; chans = ms }))
      (sym (append-nil (replicate n all_memory)))
    ∙ err_out-gives_back rc d n 0 s ids
    ∙ ap (λ k. returned rc s (nothing_held ids k) (some d)) no_more
