-- ===== src/Alloc/Table/Nth.antt =====
-- Which channel nth_chan finds
-- (source/drivers/dma/dmaengine.c).
use dmacftu.Prelude.{
  elem, ℕ, zero, suc, ◌≡◌, refl, ap, true, List, [], ◌∷◌, ◌++◌, Option, none, some, ltb, ◌==◌,
  if◌then◌else◌, arith, get_elem?, Bool-cases, inl, inr, Option-cases, All, ap₂,
}
use dmacftu.Alloc.{Chan, Device}
use dmacftu.Alloc.Table.{
  Scan, lesser, visit, unless_found, scan_channels, is_skipped, scan_devices, or_least,
  bump_channels, bump, nth_chan,
}

-- The channels that serve a capability: those in use of the listed public devices that have it.
abbrev pub active : List Chan → List Chan
active [] = []
active (ch ∷ chs) = if ch.client_count == 0 then active chs else ch ∷ active chs

abbrev pub serving : ℕ → List Device → List Chan
serving cap [] = []
serving cap (d ∷ ds) =
    if is_skipped cap d then serving cap ds else active d.channels ++ serving cap ds

scan_flat : List Chan → Scan → Scan
scan_flat [] st = st
scan_flat (ch ∷ chs) st =
    unless_found (visit st ch).found (visit st ch) (scan_flat chs (visit st ch))

scan_channels_lem : (chs : List Chan) (st : Scan) → scan_channels chs st ≡ scan_flat (active chs) st
unfolding scan_channels scan_flat
scan_channels_lem [] st = refl
scan_channels_lem (ch ∷ chs) st = elim (Bool-cases (ch.client_count == 0)) [
  | inl idle ↦ ground (arith, idle, scan_channels_lem chs st)
  | inr busy ↦ ground (arith, busy, scan_channels_lem chs (visit st ch))
]

scan_flat-append :
    (xs ys : List Chan) (st : Scan)
    → st.found ≡ none
    → scan_flat (xs ++ ys) st
      ≡ unless_found (scan_flat xs st).found (scan_flat xs st) (scan_flat ys (scan_flat xs st))
unfolding scan_flat
scan_flat-append [] ys st e = ground (arith, e)
scan_flat-append (x ∷ xs) ys st e = elim (Option-cases (visit st x).found) [
  | inl missed ↦ ground (arith, missed, scan_flat-append xs ys (visit st x) missed)
  | inr (ch, hit) ↦ ground (arith, hit)
]

unless_same :
    (o : Option Chan) (st rest rest' : Scan)
    → (o ≡ none → rest ≡ rest')
    → unless_found o st rest ≡ unless_found o st rest'
unless_same none st rest rest' e = e refl
unless_same (some ch) st rest rest' e = refl

scan_devices_lem :
    (cap : ℕ) (ds : List Device) (st : Scan)
    → st.found ≡ none
    → scan_devices cap ds st ≡ scan_flat (serving cap ds) st
unfolding scan_devices scan_flat
scan_devices_lem cap [] st e = refl
scan_devices_lem cap (d ∷ ds) st e = elim (Bool-cases (is_skipped cap d)) [
  | inl skipped ↦ ground (arith, skipped, scan_devices_lem cap ds st e)
  | inr not_skipped ↦
      let st' = scan_flat (active d.channels) st in
      let there : unless_found st'.found st' (scan_devices cap ds st')
          ≡ unless_found st'.found st' (scan_flat (serving cap ds) st') =
        unless_same st'.found st' (scan_devices cap ds st') (scan_flat (serving cap ds) st')
          (λ missed. scan_devices_lem cap ds st' missed) in
      rw
        (
          not_skipped,
          scan_channels_lem d.channels st,
          scan_flat-append (active d.channels) (serving cap ds) st e,
        )
        there
]

scan_flat-nth :
    (xs : List Chan) (n : ℕ) (least : Option Chan) (ch : Chan)
    → get_elem? xs n ≡ some ch
    → (scan_flat xs (record { left = some n; least = least; found = none })).found ≡ some ch
unfolding scan_flat
scan_flat-nth [] n least ch e = ground (arith, e)
scan_flat-nth (x ∷ xs) zero least ch e = e
scan_flat-nth (x ∷ xs) (suc n) least ch e = scan_flat-nth xs n (lesser least x) ch e

-- Where at least n + 1 channels serve a capability, nth_chan finds the one with n of them before it.
pub nth_chan_lem :
    (cap n : ℕ) (ds : List Device) (ch : Chan)
    → get_elem? (serving cap ds) n ≡ some ch
    → (nth_chan cap (some n) ds).0 ≡ some ch.id
unfolding nth_chan
nth_chan_lem cap n ds ch e =
    let start : Scan = record { left = some n; least = none; found = none } in
    ground (arith, scan_devices_lem cap ds start refl, scan_flat-nth (serving cap ds) n none ch e)

abbrev pub ids : List Chan → List ℕ
ids [] = []
ids (ch ∷ chs) = ch.id ∷ ids chs

-- The channels' numbers among those of a list.
abbrev OneOf : List ℕ → Option Chan → Type 0
OneOf cs none = Unit
OneOf cs (some ch) = elem ch.id cs ≡ true

lesser-OneOf :
    (cs : List ℕ) (least : Option Chan) (ch : Chan)
    → OneOf cs least
    → elem ch.id cs ≡ true
    → OneOf cs (lesser least ch)
lesser-OneOf cs none ch h e = e
lesser-OneOf cs (some m) ch h e = elim (Bool-cases (ltb ch.table_count m.table_count)) [
  | inl less ↦ rw less e
  | inr not_less ↦ rw not_less h
]

scan_flat-OneOf :
    (cs : List ℕ) (xs : List Chan) (left : Option ℕ) (least : Option Chan)
    → All (λ ch. elem ch.id cs ≡ true) xs
    → OneOf cs least
    → OneOf cs (or_least (scan_flat xs (record { left = left; least = least; found = none })))
unfolding scan_flat
scan_flat-OneOf cs [] left least a h = h
scan_flat-OneOf cs (x ∷ xs) none least a h =
    scan_flat-OneOf cs xs none (lesser least x) a.1 (lesser-OneOf cs least x h a.0)
scan_flat-OneOf cs (x ∷ xs) (some zero) least a h = a.0
scan_flat-OneOf cs (x ∷ xs) (some (suc n)) least a h =
    scan_flat-OneOf cs xs (some n) (lesser least x) a.1 (lesser-OneOf cs least x h a.0)

elem-more :
    (cs : List ℕ) (c : ℕ) (xs : List Chan)
    → All (λ ch. elem ch.id cs ≡ true) xs
    → All (λ ch. elem ch.id (c ∷ cs) ≡ true) xs
elem-more cs c [] a = tt
elem-more cs c (x ∷ xs) (e, a) = (ground (arith, e), elem-more cs c xs a)

ids-own : (xs : List Chan) → All (λ ch. elem ch.id (ids xs) ≡ true) xs
ids-own [] = tt
ids-own (x ∷ xs) = (ground arith, elem-more (ids xs) x.id xs (ids-own xs))

chosen-OneOf :
    (cs : List ℕ) (o : Option Chan) (ds : List Device) (c : ℕ)
    → OneOf cs o
    → (elim o as (λ x. Option ℕ × List Device) [
      | none ↦ (none, ds)
      | some ch ↦ (some ch.id, bump ch.id ds)
    ]).0
      ≡ some c
    → elem c cs ≡ true
chosen-OneOf cs none ds c h e = ground (arith, e)
chosen-OneOf cs (some ch) ds c h e = ground (arith, h, e)

pub nth_chan-serving :
    (cap c : ℕ) (n : Option ℕ) (ds : List Device)
    → (nth_chan cap n ds).0 ≡ some c
    → elem c (ids (serving cap ds)) ≡ true
unfolding nth_chan
nth_chan-serving cap c n ds e =
    let start : Scan = record { left = n; least = none; found = none } in
    let one : OneOf (ids (serving cap ds)) (or_least (scan_devices cap ds start)) =
      rw (scan_devices_lem cap ds start refl) (
        scan_flat-OneOf (ids (serving cap ds)) (serving cap ds) n none (ids-own (serving cap ds))
          tt) in
    chosen-OneOf (ids (serving cap ds)) (or_least (scan_devices cap ds start)) ds c one e

pub ids-append : (xs ys : List Chan) → ids (xs ++ ys) ≡ ids xs ++ ids ys
ids-append [] ys = refl
ids-append (x ∷ xs) ys = ap (λ cs. x.id ∷ cs) (ids-append xs ys)

ids-active-bump : (c : ℕ) (chs : List Chan) → ids (active (bump_channels c chs)) ≡ ids (active chs)
unfolding bump_channels
ids-active-bump c [] = refl
ids-active-bump c (ch ∷ chs) = ground (arith, ids-active-bump c chs)

pub ids-serving-bump :
    (cap c : ℕ) (ds : List Device) → ids (serving cap (bump c ds)) ≡ ids (serving cap ds)
unfolding bump
ids-serving-bump cap c [] = refl
ids-serving-bump cap c (d ∷ ds) = elim (Bool-cases (is_skipped cap d)) [
  | inl skipped ↦ rw skipped (ids-serving-bump cap c ds)
  | inr not_skipped ↦
      rw
        (
          not_skipped,
          ids-append (active (bump_channels c d.channels)) (serving cap (bump c ds)),
          ids-append (active d.channels) (serving cap ds),
        )
        (ap₂ (λ xs ys. xs ++ ys) (ids-active-bump c d.channels) (ids-serving-bump cap c ds))
]
