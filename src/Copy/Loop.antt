-- ===== src/Copy/Loop.antt =====
-- The copies that the copy loop submits, with a channel that refuses some attempts
-- (source/drivers/dma/dma_policy_ex_sh.c).
use dmacftu.Prelude.{
  ℕ, zero, suc, ◌+◌, ◌-◌, ◌%◌, ◌^◌, ◌≤◌, ◌<◌, ◌≡◌, refl, ◌∙◌, true, false, List, [], ◌∷◌, ◌++◌,
  Option, none, some, map, min, length, arith, All, Bool-cases, inl, inr, ℤ, pos, is_neg,
}
use mathlib.Core.List.{append_assoc}
use dmacftu.Request.{RequestCopy, page_size}
use dmacftu.Engine.{Direction, from_user, to_user, Reply, Engine, sent, dma_async_issue_pending}
use dmacftu.Copy.{Cursor, submit, copy_loop, sub_size, min_int}
use dmacftu.Copy.Chunks.{
  Piece, pieces, pages_spanned, transfer_of, accepts, count_accepted, IsMapped, total_len,
}

-- The loop's variables before a piece.
abbrev pub cursor_at : ℕ → ℕ → ℕ → ℕ → Cursor
cursor_at i off k len = record {
  page_index = i;
  byte_offset = off;
  tmp_addr_kernel = k;
  tmp_len = len;
  copy = min (page_size - off) len;
}

abbrev piece_at : ℕ → ℕ → ℕ → ℕ → Piece
piece_at i off k len = record {
  index = i;
  offset = off;
  kernel = k;
  len = min (page_size - off) len;
}

abbrev cookie_of : Option ℕ → ℕ
cookie_of none = 0
cookie_of (some c) = c

module _ (q : RequestCopy) (i off k len : ℕ) (e : Engine) where
  -- An answer that accepts gives a cookie and hands the piece to the hardware; any other gives an
  -- error and changes nothing.
  submit-accepted :
      (dir : Direction) (r : Reply)
      → accepts dir r ≡ true
      → IsMapped dir r
      → submit dir q r (cursor_at i off k len) e
        ≡ (pos (cookie_of r.tx), sent (transfer_of dir q (piece_at i off k len)) e)
  unfolding submit
  submit-accepted from_user r a m = ground arith
  submit-accepted to_user r a m = ground arith

  submit-refused :
      (dir : Direction) (r : Reply)
      → accepts dir r ≡ false
      → (is_neg (submit dir q r (cursor_at i off k len) e).0 ≡ true)
        × ((submit dir q r (cursor_at i off k len) e).1 ≡ e)
  unfolding submit
  submit-refused from_user r a = ground arith
  submit-refused to_user r a = ground arith

module _ (dir : Direction) (q : RequestCopy) (r : Reply) (rs : List Reply) (i off k len : ℕ)
    (e : Engine) where
  -- A refusal: the channel is flushed and the same piece is tried again.
  loop-refused :
      accepts dir r ≡ false
      → copy_loop dir q (r ∷ rs) (cursor_at i off k len) e
        ≡ copy_loop dir q rs (cursor_at i off k len) (dma_async_issue_pending e)
  unfolding copy_loop
  loop-refused a = ground (arith, submit-refused q i off k len e dir r a)

  -- The piece is the last.
  loop-last :
      accepts dir r ≡ true
      → IsMapped dir r
      → off < page_size
      → len < 2 ^ 31
      → len ≤ page_size - off
      → copy_loop dir q (r ∷ rs) (cursor_at i off k len) e
        ≡ some (
          pos (cookie_of r.tx),
          0,
          record (sent (transfer_of dir q (piece_at i off k len)) e) { replies = rs },
        )
  unfolding copy_loop
  loop-last a m h small fits =
      let none_left : sub_size len (min (page_size - off) len) ≡ 0 = omega arith in
      ground (arith, none_left, submit-accepted q i off k len e dir r a m)

  -- More pieces follow.
  loop-more :
      accepts dir r ≡ true
      → IsMapped dir r
      → off < page_size
      → len < 2 ^ 31
      → page_size - off < len
      → copy_loop dir q (r ∷ rs) (cursor_at i off k len) e
        ≡ copy_loop dir q rs
            (cursor_at (i + 1) 0 (k + min (page_size - off) len) (len - min (page_size - off) len))
            (sent (transfer_of dir q (piece_at i off k len)) e)
  unfolding copy_loop
  loop-more a m h small more =
      let left : sub_size len (min (page_size - off) len) ≡ len - min (page_size - off) len =
        omega arith in
      let next : min_int page_size (len - min (page_size - off) len)
          ≡ min (page_size - 0) (len - min (page_size - off) len) =
        ground arith in
      ground (arith, left, next, submit-accepted q i off k len e dir r a m)

-- What the loop has done when it ends, for the pieces that were left to do.
pub record Done (dir : Direction) (q : RequestCopy) (ps : List Piece) (e : Engine)
    (out : Option (ℤ × ℕ × Engine)) : Type 0 where
  pub cookie : ℕ
  pub last : Engine
  pub returned : out ≡ some (pos cookie, 0, last)
  pub copies : last.submitted ≡ e.submitted ++ map (transfer_of dir q) ps
  pub polls_left : last.polls ≡ e.polls
  pub bytes : last.bytes_transferred ≡ (e.bytes_transferred + total_len ps) % 2 ^ 64
  pub count : last.memcpy_count ≡ (e.memcpy_count + length ps) % 2 ^ 64

module _ (dir : Direction) (q : RequestCopy) {e : Engine} {out : Option (ℤ × ℕ × Engine)} where
  Done-refused :
      (ps : List Piece) → Done dir q ps (dma_async_issue_pending e) out → Done dir q ps e out
  unfolding dma_async_issue_pending
  Done-refused ps d = record {
    cookie = d.cookie;
    last = d.last;
    returned = d.returned;
    copies = d.copies;
    polls_left = d.polls_left;
    bytes = d.bytes;
    count = d.count;
  }

  Done-more :
      (p : Piece) (ps : List Piece)
      → Done dir q ps (sent (transfer_of dir q p) e) out
      → Done dir q (p ∷ ps) e out
  Done-more p ps d = record {
    cookie = d.cookie;
    last = d.last;
    returned = d.returned;
    copies =
        d.copies ∙ append_assoc e.submitted (transfer_of dir q p ∷ []) (map (transfer_of dir q) ps);
    polls_left = d.polls_left;
    bytes = omega (arith, d.bytes);
    count = omega (arith, d.count);
  }

-- If the channel accepts often enough, the loop ends and has submitted each piece once, in order.
pub copy_loop-Done :
    (dir : Direction) (q : RequestCopy) (rs : List Reply) (n i off k len : ℕ) (e : Engine)
    → off < page_size
    → 0 < len
    → len < 2 ^ 31
    → n ≡ pages_spanned off len
    → n ≤ count_accepted dir rs
    → All (IsMapped dir) rs
    → (e.bytes_transferred < 2 ^ 64) × (e.memcpy_count < 2 ^ 64)
    → Done dir q (pieces n i off k len) e (copy_loop dir q rs (cursor_at i off k len) e)
unfolding pieces dma_async_issue_pending
copy_loop-Done dir q [] n i off k len e h l small en room m w = absurd (omega arith)
copy_loop-Done dir q (r ∷ rs) zero i off k len e h l small en room m w = absurd (omega arith)
copy_loop-Done dir q (r ∷ rs) (suc zero) i off k len e h l small en room m w =
    elim (Bool-cases (accepts dir r)) [
      | inl taken ↦
          rw (loop-last dir q r rs i off k len e taken m.0 h small (omega arith)) (record {
            cookie = cookie_of r.tx;
            last = record (sent (transfer_of dir q (piece_at i off k len)) e) { replies = rs };
            returned = refl;
            copies = refl;
            polls_left = refl;
            bytes = ground arith;
            count = omega arith;
          })
      | inr refused ↦ rw (loop-refused dir q r rs i off k len e refused) (
          Done-refused dir q _ (
            copy_loop-Done dir q rs (suc zero) i off k len (dma_async_issue_pending e) h l small en
              (ground arith) m.1 w))
    ]
copy_loop-Done dir q (r ∷ rs) (suc (suc n)) i off k len e h l small en room m w =
    elim (Bool-cases (accepts dir r)) [
      | inl taken ↦ rw (loop-more dir q r rs i off k len e taken m.0 h small (omega arith)) (
          Done-more dir q (piece_at i off k len) _ (
            copy_loop-Done dir q rs (suc n) (i + 1) 0 (k + min (page_size - off) len)
              (len - min (page_size - off) len) (sent (transfer_of dir q (piece_at i off k len)) e)
              (omega arith) (omega arith) (omega arith) (omega arith) (ground arith) m.1
              (omega arith)))
      | inr refused ↦ rw (loop-refused dir q r rs i off k len e refused) (
          Done-refused dir q _ (
            copy_loop-Done dir q rs (suc (suc n)) i off k len (dma_async_issue_pending e) h l small
              en (ground arith) m.1 w))
    ]
