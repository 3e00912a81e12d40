-- ===== src/Copy/Bytes.antt =====
-- What the submitted copies do to the bytes (source/drivers/dma/dma_policy_ex_sh.c): the meaning of
-- a copy is the hardware's, and stands here as a function on two memories, the page frames and the
-- kernel's addresses.
use dmacftu.Prelude.{
  ℕ, zero, suc, ◌+◌, ◌-◌, ◌/◌, ◌%◌, ◌≤◌, ◌<◌, ◌≡◌, refl, ap, sym, ◌∙◌, Bool, ◌&&◌, List, [], ◌∷◌,
  none, some, map, min, ltb, leb, if◌then◌else◌, ◌==◌, arith, dec_lt,
}
use dmacftu.Request.{RequestCopy, page_size, page_at}
use dmacftu.Engine.{Direction, from_user, to_user, Transfer, page_buf, buf_buf}
use dmacftu.Copy.Chunks.{pieces, pages_spanned, transfer_of}

-- The bytes of the page frames and those at the kernel's addresses.
pub record Memory : Type 0 where
  pub page : ℕ → ℕ → ℕ
  pub kernel : ℕ → ℕ

-- Whether x lies in the `len` places from a on.
abbrev pub in_range : ℕ → ℕ → ℕ → Bool
in_range a len x = leb a x && ltb x (a + len)

-- A finished copy. One with no page has no effect that the model tells.
unfoldable pub exec : Transfer → Memory → Memory
exec t m = elim t.ends [
  | page_buf dir page off k ↦ elim page [
    | none ↦ m
    | some f ↦ elim dir [
      | from_user ↦ record m {
        kernel = λ a. if in_range k t.len a then m.page f (off + (a - k)) else m.kernel a;
      }
      | to_user ↦ record m {
        page =
            λ g o. if g == f && in_range off t.len o then m.kernel (k + (o - off)) else m.page g o;
      }
    ]
  ]
  | buf_buf dest src ↦ record m {
    kernel = λ a. if in_range dest t.len a then m.kernel (src + (a - dest)) else m.kernel a;
  }
]

unfoldable pub exec_all : List Transfer → Memory → Memory
exec_all [] m = m
exec_all (t ∷ ts) m = exec_all ts (exec t m)

-- The page table of the request, from the page i on: each page that the copy touches has a frame.
abbrev pub HasFrames : RequestCopy → (ℕ → ℕ) → ℕ → ℕ → Type 0
HasFrames q frame i n = (j : ℕ) → i ≤ j → j < i + n → page_at q.pages j ≡ some (frame j)

-- Where the byte x after the offset `off` of the page i stands.
abbrev pub frame_of : (ℕ → ℕ) → ℕ → ℕ → ℕ
frame_of frame i x = frame (i + x / page_size)

abbrev pub byte_of : ℕ → ℕ
byte_of x = x % page_size

module _ (q : RequestCopy) (frame : ℕ → ℕ) (i off k len : ℕ) (m : Memory)
    (has : page_at q.pages i ≡ some (frame i)) where
  exec_from_user :
      exec (transfer_of from_user q (record { index = i; offset = off; kernel = k; len = len })) m
      ≡ record m {
        kernel = λ a. if in_range k len a then m.page (frame i) (off + (a - k)) else m.kernel a;
      }
  unfolding exec
  exec_from_user = rw has

  exec_to_user :
      exec (transfer_of to_user q (record { index = i; offset = off; kernel = k; len = len })) m
      ≡ record m {
        page = λ g o.
            if g == frame i && in_range off len o then m.kernel (k + (o - off)) else m.page g o;
      }
  unfolding exec
  exec_to_user = rw has

-- The first piece and the pieces after it, seen from one kernel address.
split_at :
    (frame : ℕ → ℕ) (i off k len a : ℕ) (page : ℕ → ℕ → ℕ) (old : ℕ)
    → off < page_size
    → let size = min (page_size - off) len in
      (if in_range (k + size) (len - size) a
        then page (frame_of frame (i + 1) (0 + (a - (k + size)))) (byte_of (0 + (a - (k + size))))
        else if in_range k size a
        then page (frame i) (off + (a - k))
        else old)
      ≡ (if in_range k len a
          then page (frame_of frame i (off + (a - k))) (byte_of (off + (a - k)))
          else old)
split_at frame i off k len a page old h =
    let size = min (page_size - off) len in
    elim (dec_lt a (k + size)) [
      | yes near ↦
          let q0 : a - k < size → i + (off + (a - k)) / page_size ≡ i = λ r. omega arith in
          let r0 : a - k < size → (off + (a - k)) % page_size ≡ off + (a - k) = λ r. omega arith in
          ground (arith, q0, r0)
      | no far ↦
          let q1 : a < k + len
              → i + 1 + (0 + (a - (k + size))) / page_size ≡ i + (off + (a - k)) / page_size =
            λ r. omega arith in
          let r1 : a < k + len → (0 + (a - (k + size))) % page_size ≡ (off + (a - k)) % page_size =
            λ r. omega arith in
          ground (arith, q1, r1)
    ]

-- The pieces after the first.
abbrev rest_of : Direction → RequestCopy → ℕ → ℕ → ℕ → ℕ → ℕ → List Transfer
rest_of dir q n i off k len =
    let size = min (page_size - off) len in
    map (transfer_of dir q) (pieces n (i + 1) 0 (k + size) (len - size))

exec_all-pieces :
    (dir : Direction) (q : RequestCopy) (n i off k len : ℕ) (m m' : Memory)
    → exec
        (transfer_of dir q
          (record { index = i; offset = off; kernel = k; len = min (page_size - off) len }))
        m
      ≡ m'
    → exec_all (map (transfer_of dir q) (pieces (suc n) i off k len)) m
      ≡ exec_all (rest_of dir q n i off k len) m'
unfolding exec_all pieces
exec_all-pieces dir q n i off k len m m' e = ap (exec_all (rest_of dir q n i off k len)) e

-- The first piece of a copy to the user and the pieces after it, from what those do (`arrived`,
-- `kept`) to the page frames `final`.
module _ (frame : ℕ → ℕ) (n i off k len : ℕ) (page final : ℕ → ℕ → ℕ) (kernel : ℕ → ℕ)
    (h : off < page_size) (e : suc n ≡ pages_spanned off len)
    (apart : (a b : ℕ) → i ≤ a → a < i + suc n → i ≤ b → b < i + suc n → frame a ≡ frame b → a ≡ b)
    (arrived : (x : ℕ)
      → x < len - min (page_size - off) len
      → final (frame_of frame (i + 1) (0 + x)) (byte_of (0 + x))
        ≡ kernel (k + min (page_size - off) len + x))
    (kept : (g o : ℕ)
      → ((x : ℕ)
          → x < len - min (page_size - off) len
          → ¬ ((frame_of frame (i + 1) (0 + x) ≡ g) × (byte_of (0 + x) ≡ o)))
      → final g o ≡ (
          if g == frame i && in_range off (min (page_size - off) len) o
          then kernel (k + (o - off))
          else page g o)) where
  -- A later byte goes to another frame.
  later_frame :
      (x o : ℕ)
      → x < len - min (page_size - off) len
      → ¬ ((frame_of frame (i + 1) (0 + x) ≡ frame i) × (byte_of (0 + x) ≡ o))
  later_frame x o l same =
      let clash : i + 1 + (0 + x) / page_size ≡ i =
        apart (i + 1 + (0 + x) / page_size) i (omega arith) (omega arith) (omega arith)
          (omega arith) same.0 in
      omega arith

  join_arrived :
      (x : ℕ) → x < len → final (frame_of frame i (off + x)) (byte_of (off + x)) ≡ kernel (k + x)
  join_arrived x l =
      let size = min (page_size - off) len in
      elim (dec_lt x size) [
        | yes near ↦
            let at : i + (off + x) / page_size ≡ i = omega arith in
            let byte : (off + x) % page_size ≡ off + x = omega arith in
            let back : off + x - off ≡ x = omega arith in
            ground (arith, at, byte, back, kept (frame i) (off + x) (λ y. later_frame y (off + x)))
        | no far ↦
            let at : i + 1 + (0 + (x - size)) / page_size ≡ i + (off + x) / page_size =
              omega arith in
            let byte : (0 + (x - size)) % page_size ≡ (off + x) % page_size = omega arith in
            let back : k + size + (x - size) ≡ k + x = omega arith in
            ground (arith, at, byte, back, arrived (x - size))
      ]

  join_kept :
      (g o : ℕ)
      → ((x : ℕ) → x < len → ¬ ((frame_of frame i (off + x) ≡ g) × (byte_of (off + x) ≡ o)))
      → final g o ≡ page g o
  join_kept g o out =
      let size = min (page_size - off) len in
      let outside : (y : ℕ)
          → y < len - size
          → ¬ ((frame_of frame (i + 1) (0 + y) ≡ g) × (byte_of (0 + y) ≡ o)) =
        λ y l same.
          let at : i + 1 + (0 + y) / page_size ≡ i + (off + (y + size)) / page_size = omega arith in
          let byte : (0 + y) % page_size ≡ (off + (y + size)) % page_size = omega arith in
          out (y + size) (omega arith) (ap frame (sym at) ∙ same.0, sym byte ∙ same.1) in
      let first : o - off < size → i + (off + (o - off)) / page_size ≡ i = λ r. omega arith in
      let byte : o - off < size → off ≤ o → (off + (o - off)) % page_size ≡ o =
        λ r s. omega arith in
      ground (arith, kept g o outside, out (o - off), first, byte)

module _ (q : RequestCopy) (frame : ℕ → ℕ) where
  -- After the pieces of a copy from the user, each kernel byte of the buffer is the user byte at the
  -- same distance, found through the page frames, and nothing else has changed.
  pub from_user_bytes :
      (n i off k len : ℕ) (m : Memory)
      → off < page_size
      → n ≡ pages_spanned off len
      → HasFrames q frame i n
      → let m' = exec_all (map (transfer_of from_user q) (pieces n i off k len)) m in
        ((a : ℕ)
          → m'.kernel a ≡ (
              if in_range k len a
              then m.page (frame_of frame i (off + (a - k))) (byte_of (off + (a - k)))
              else m.kernel a))
        × (m'.page ≡ m.page)
  unfolding pieces exec_all
  from_user_bytes zero i off k len m h e has = (λ a. ground arith, refl)
  from_user_bytes (suc n) i off k len m h e has =
      let size = min (page_size - off) len in
      rw
        (exec_all-pieces from_user q n i off k len m _
          (exec_from_user q frame i off k size m (has i (omega arith) (omega arith))))
        (let rest =
            from_user_bytes n (i + 1) 0 (k + size) (len - size)
              (record m {
                kernel =
                    λ a. if in_range k size a then m.page (frame i) (off + (a - k)) else m.kernel a;
              })
              (omega arith) (omega arith) (λ j lo hi. has j (omega arith) (omega arith)) in
          (λ a. rest.0 a ∙ split_at frame i off k len a m.page (m.kernel a) h, rest.1))

  -- After the pieces of a copy to the user, into distinct frames: a place of a frame that no byte of
  -- the buffer goes to is unchanged, each byte of the buffer has arrived, and the kernel's memory has
  -- not changed.
  pub to_user_bytes :
      (n i off k len : ℕ) (m : Memory)
      → off < page_size
      → n ≡ pages_spanned off len
      → HasFrames q frame i n
      → ((a b : ℕ) → i ≤ a → a < i + n → i ≤ b → b < i + n → frame a ≡ frame b → a ≡ b)
      → let m' = exec_all (map (transfer_of to_user q) (pieces n i off k len)) m in
        ((x : ℕ)
          → x < len
          → m'.page (frame_of frame i (off + x)) (byte_of (off + x)) ≡ m.kernel (k + x))
        × ((g o : ℕ)
            → ((x : ℕ) → x < len → ¬ ((frame_of frame i (off + x) ≡ g) × (byte_of (off + x) ≡ o)))
            → m'.page g o ≡ m.page g o)
        × (m'.kernel ≡ m.kernel)
  unfolding pieces exec_all
  to_user_bytes zero i off k len m h e has apart =
      (λ x l. absurd (omega arith), λ g o out. refl, refl)
  to_user_bytes (suc n) i off k len m h e has apart =
      let size = min (page_size - off) len in
      let first : Memory = record m {
        page = λ g o.
            if g == frame i && in_range off size o then m.kernel (k + (o - off)) else m.page g o;
      } in
      rw
        (exec_all-pieces to_user q n i off k len m first
          (exec_to_user q frame i off k size m (has i (omega arith) (omega arith))))
        (let rest =
            to_user_bytes n (i + 1) 0 (k + size) (len - size) first (omega arith) (omega arith)
              (λ j lo hi. has j (omega arith) (omega arith))
              (λ a b la ha lb hb q'.
                apart a b (omega arith) (omega arith) (omega arith) (omega arith) q') in
          (
            join_arrived frame n i off k len m.page
                (exec_all (rest_of to_user q n i off k len) first).page m.kernel h e apart rest.0
                rest.1,
            join_kept frame n i off k len m.page
                (exec_all (rest_of to_user q n i off k len) first).page m.kernel h e apart rest.0
                rest.1,
            rest.2,
          ))
