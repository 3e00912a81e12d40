-- ===== src/Copy/Chunks.antt =====
-- How the bytes of a copy are cut at the page boundaries (the loop of __dma_copy_from_user and
-- __dma_copy_to_user, source/drivers/dma/dma_policy_ex_sh.c), written without the loop.
use dmacftu.Prelude.{
  ℕ, zero, suc, ◌+◌, ◌-◌, ◌/◌, ◌≤◌, ◌<◌, ◌≡◌, refl, ap, Bool, true, false, ◌&&◌, List, [], ◌∷◌,
  none, some, min, if◌then◌else◌, length, arith, All,
}
use dmacftu.Request.{RequestCopy, page_size, page_at}
use dmacftu.Engine.{Direction, from_user, to_user, Transfer, page_buf, Reply}

-- A run of bytes within one page.
pub record Piece : Type 0 where
  pub index : ℕ
  pub offset : ℕ
  pub kernel : ℕ
  pub len : ℕ

-- Pages that `len` bytes from the offset `off` on touch.
abbrev pub pages_spanned : ℕ → ℕ → ℕ
pages_spanned off len = (off + len + 4095) / 4096

-- The pieces in n pages from the page i on.
unfoldable pub pieces : ℕ → ℕ → ℕ → ℕ → ℕ → List Piece
pieces zero i off k len = []
pieces (suc n) i off k len =
    let size = min (page_size - off) len in
    record { index = i; offset = off; kernel = k; len = size }
    ∷ pieces n (i + 1) 0 (k + size) (len - size)

abbrev pub total_len : List Piece → ℕ
total_len [] = 0
total_len (p ∷ ps) = p.len + total_len ps

pub length-pieces : (n i off k len : ℕ) → length (pieces n i off k len) ≡ n
unfolding pieces
length-pieces zero i off k len = refl
length-pieces (suc n) i off k len = ap suc (length-pieces n _ _ _ _)

-- Cut over the pages that they touch, the pieces make up all the bytes.
pub total_len-pieces :
    (n i off k len : ℕ)
    → off < page_size
    → n ≡ pages_spanned off len
    → total_len (pieces n i off k len) ≡ len
unfolding pieces
total_len-pieces zero i off k len h e = omega arith
total_len-pieces (suc n) i off k len h e =
    let size = min (page_size - off) len in
    omega (arith, total_len-pieces n (i + 1) 0 (k + size) (len - size) (omega arith) (omega arith))

-- Each piece is not empty, and lies inside one of the pages from i to i + n - 1.
pub pieces-within :
    (n i off k len lo hi : ℕ)
    → off < page_size
    → 0 < len
    → n ≡ pages_spanned off len
    → lo ≤ i
    → i + n ≤ hi
    → All
        (λ p. (p.offset + p.len ≤ page_size) × (0 < p.len) × (lo ≤ p.index) × (p.index < hi))
        (pieces n i off k len)
unfolding pieces
pieces-within zero i off k len lo hi h pos_len e l u = tt
pieces-within (suc zero) i off k len lo hi h pos_len e l u = omega arith
pieces-within (suc (suc n)) i off k len lo hi h pos_len e l u =
    let size = min (page_size - off) len in
    (
      omega arith,
      pieces-within (suc n) (i + 1) 0 (k + size) (len - size) lo hi (omega arith) (omega arith)
          (omega arith) (omega arith) (omega arith),
    )

-- The copy that a piece asks of the channel.
abbrev pub transfer_of : Direction → RequestCopy → Piece → Transfer
transfer_of dir q p = record {
  chan = q.chan;
  ends = page_buf dir (page_at q.pages p.index) p.offset p.kernel;
  len = p.len;
  mapped = true;
}

-- Whether an answer of the channel accepts the copy.
abbrev pub accepts : Direction → Reply → Bool
accepts from_user r = r.buf_mapped && r.page_mapped && (elim r.tx [ none ↦ false | some c ↦ true ])
accepts to_user r = elim r.tx [ none ↦ false | some c ↦ true ]

-- How many of the answers accept.
abbrev pub count_accepted : Direction → List Reply → ℕ
count_accepted dir [] = 0
count_accepted dir (r ∷ rs) =
    if accepts dir r then suc (count_accepted dir rs) else count_accepted dir rs

-- The mappings do not fail; needed only towards the user, where the code does not test them.
abbrev pub IsMapped : Direction → Reply → Type 0
IsMapped from_user r = Unit
IsMapped to_user r = (r.buf_mapped && r.page_mapped) ≡ true
