-- ===== src/Alloc/Sums.antt =====
-- Sums over the channels of a device (source/drivers/dma/dmaengine.c), and what a change of one channel
-- does to them.
use dmacftu.Prelude.{
  ℕ, zero, suc, ◌+◌, ◌≡◌, refl, Bool, false, not, List, [], ◌∷◌, Option, none, some, ltb, ◌==◌,
  if◌then◌else◌, arith, get_elem?, set, Bool-cases, inl, inr, ◌≤◌, subst, ◌||◌,
}
use dmacftu.Alloc.{Chan, first_free, any_in_use, index_of, next_index}

abbrev pub sum : (Chan → ℕ) → List Chan → ℕ
sum m [] = 0
sum m (ch ∷ chs) = m ch + sum m chs

pub sum-set :
    (m : Chan → ℕ) (chs : List Chan) (i : ℕ) (ch v : Chan)
    → get_elem? chs i ≡ some ch
    → sum m (set chs i v) + m ch ≡ sum m chs + m v
sum-set m [] i ch v e = ground (arith, e)
sum-set m (c ∷ chs) zero ch v e = ground (arith, e)
sum-set m (c ∷ chs) (suc i) ch v e = omega (arith, sum-set m chs i ch v e)

-- The counts of the references to channel c, and of the channels with its number.
abbrev pub refs_to : ℕ → Chan → ℕ
refs_to c ch = if ch.id == c then ch.client_count else 0

abbrev pub is_number : ℕ → Chan → ℕ
is_number c ch = if ch.id == c then 1 else 0

abbrev pub count_of : Chan → ℕ
count_of ch = ch.client_count

pub refs_to-le-total : (c : ℕ) (chs : List Chan) → sum (refs_to c) chs ≤ sum count_of chs
refs_to-le-total c [] = omega arith
refs_to-le-total c (ch ∷ chs) = ground (arith, refs_to-le-total c chs)

-- The channel that first_free finds is there and has no client.
pub data FreeAt (chs : List Chan) (i : ℕ) : Type 0 where
  free_at : (ch : Chan) → get_elem? chs i ≡ some ch → ch.client_count ≡ 0 → FreeAt chs i

FreeAt-cons : (ch : Chan) (chs : List Chan) (j : ℕ) → FreeAt chs j → FreeAt (ch ∷ chs) (suc j)
FreeAt-cons ch chs j (free_at c e z) = free_at c e z

FreeAt-next :
    (ch : Chan) (chs : List Chan) (o : Option ℕ) (i : ℕ)
    → ((j : ℕ) → o ≡ some j → FreeAt chs j)
    → next_index o ≡ some i
    → FreeAt (ch ∷ chs) i
FreeAt-next ch chs none i f e = ground (arith, e)
FreeAt-next ch chs (some j) i f e =
    let same : suc j ≡ i = ground (arith, e) in
    subst (FreeAt (ch ∷ chs)) same (FreeAt-cons ch chs j (f j refl))

first_free-cons :
    (fn : ℕ → Bool) (ch : Chan) (chs : List Chan) (i : ℕ)
    → ((j : ℕ) → first_free fn chs ≡ some j → FreeAt chs j)
    → first_free fn (ch ∷ chs) ≡ some i
    → FreeAt (ch ∷ chs) i
unfolding first_free
first_free-cons fn ch chs i f e = elim (Bool-cases (ltb 0 ch.client_count || not (fn ch.id))) [
  | inl passed ↦
      let e' : next_index (first_free fn chs) ≡ some i = ground (arith, passed, e) in
      FreeAt-next ch chs (first_free fn chs) i f e'
  | inr taken ↦
      let same : i ≡ 0 = ground (arith, taken, e) in
      let z : ch.client_count ≡ 0 = ground (arith, taken) in rw same (free_at ch refl z)
]

pub first_free-FreeAt :
    (fn : ℕ → Bool) (chs : List Chan) (i : ℕ) → first_free fn chs ≡ some i → FreeAt chs i
unfolding first_free
first_free-FreeAt fn [] i e = ground (arith, e)
first_free-FreeAt fn (ch ∷ chs) i e =
    first_free-cons fn ch chs i (λ j f. first_free-FreeAt fn chs j f) e

pub data NumberAt (c : ℕ) (chs : List Chan) : Option ℕ → Type 0 where
  no_number : sum (is_number c) chs ≡ 0 → sum (refs_to c) chs ≡ 0 → NumberAt c chs none
  number_at : (i : ℕ) (ch : Chan) → get_elem? chs i ≡ some ch → ch.id ≡ c → NumberAt c chs (some i)

NumberAt-next :
    (c : ℕ) (ch : Chan) (chs : List Chan) (o : Option ℕ)
    → (ch.id == c) ≡ false
    → NumberAt c chs o
    → NumberAt c (ch ∷ chs) (next_index o)
NumberAt-next c ch chs none other (no_number n r) =
    no_number (ground (arith, other, n)) (ground (arith, other, r))
NumberAt-next c ch chs (some _) other (number_at i found e same) = number_at (suc i) found e same

pub index_of-NumberAt : (c : ℕ) (chs : List Chan) → NumberAt c chs (index_of c chs)
index_of-NumberAt c [] = no_number refl refl
index_of-NumberAt c (ch ∷ chs) = elim (Bool-cases (ch.id == c)) [
  | inl same ↦
      let e : index_of c (ch ∷ chs) ≡ some 0 = ground (arith, same) in
      rw e (number_at 0 ch refl (ground (arith, same)))
  | inr other ↦
      let e : index_of c (ch ∷ chs) ≡ next_index (index_of c chs) = ground (arith, other) in
      rw e (NumberAt-next c ch chs (index_of c chs) other (index_of-NumberAt c chs))
]

pub any_in_use-total : (chs : List Chan) → any_in_use chs ≡ false → sum count_of chs ≡ 0
any_in_use-total [] e = refl
any_in_use-total (ch ∷ chs) e = ground (arith, e, any_in_use-total chs)

pub no_number-no_refs :
    (c : ℕ) (chs : List Chan) → sum (is_number c) chs ≡ 0 → sum (refs_to c) chs ≡ 0
no_number-no_refs c [] e = refl
no_number-no_refs c (ch ∷ chs) e = ground (arith, e, no_number-no_refs c chs)

pub unique_refs :
    (c : ℕ) (chs : List Chan) (i : ℕ) (ch : Chan)
    → sum (is_number c) chs ≤ 1
    → get_elem? chs i ≡ some ch
    → ch.id ≡ c
    → sum (refs_to c) chs ≡ ch.client_count
unique_refs c chs i ch one found same =
    let other = record ch { id = suc ch.id } in
    let n : sum (is_number c) (set chs i other) ≡ 0 =
      ground (arith, same, one, sum-set (is_number c) chs i ch other found) in
    ground (
      arith,
      same,
      no_number-no_refs c (set chs i other) n,
      sum-set (refs_to c) chs i ch other found,
    )
