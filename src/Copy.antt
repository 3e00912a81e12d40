-- ===== src/Copy.antt =====
-- The copies between user pages and a kernel buffer by DMA,
-- source/drivers/dma/dma_policy_ex_sh.c: page by page, with the pages pinned and released around it.
-- The tick of `tmp_addr_user` is left out: no statement reads that variable.
pub mod Chunks
pub mod Loop
pub mod Bytes
pub mod Whole
use dmacftu.Prelude.{
  ℕ, suc, ◌+◌, ◌-◌, ◌*◌, ◌/◌, ◌%◌, ◌^◌, Bool, true, false, not, ◌&&◌, List, [], ◌∷◌, ◌++◌, Option,
  none, some, min, ltb, ◌==◌, if◌then◌else◌, ℤ, pos, negsuc, is_neg,
}
use dmacftu.Request.{DmaStatus, RequestCopy, page_size, to_int, page_at}
use dmacftu.Engine.{
  Direction, from_user, to_user, Reply, Engine, dma_async_memcpy_buf_to_buf,
  dma_async_memcpy_buf_to_pg, dma_async_memcpy_pg_to_buf, dma_async_issue_pending, dma_sync_wait,
}

-- `size_t` subtraction.
abbrev pub sub_size : ℕ → ℕ → ℕ
sub_size a b = (a + 2 ^ 64 - b) % 2 ^ 64

-- `min_t(int, a, n)` for an `a` that is a small `int`, with the result extended to `size_t` again:
-- the low half of n counts as negative from 2 ^ 31 on.
abbrev pub min_int : ℕ → ℕ → ℕ
min_int a n =
    if ltb (n % 2 ^ 32) (2 ^ 31) then min a (n % 2 ^ 32) else n % 2 ^ 32 + (2 ^ 64 - 2 ^ 32)

-- The variables of the loop.
pub record Cursor : Type 0 where
  pub page_index : ℕ
  pub byte_offset : ℕ
  pub tmp_addr_kernel : ℕ
  pub tmp_len : ℕ
  pub copy : ℕ

abbrev pub first_cursor : RequestCopy → Cursor
first_cursor q = record {
  page_index = 0;
  byte_offset = q.user_base % page_size;
  tmp_addr_kernel = q.kernel_base;
  tmp_len = q.len;
  copy = min_int (page_size - q.user_base % page_size) q.len;
}

-- The next page, with `left` bytes still to copy.
abbrev pub next_cursor : Cursor → ℕ → Cursor
next_cursor c left = record {
  page_index = c.page_index + 1;
  byte_offset = 0;
  tmp_addr_kernel = c.tmp_addr_kernel + c.copy;
  tmp_len = left;
  copy = min_int page_size left;
}

module _ (dir : Direction) (q : RequestCopy) where
  -- The call that the two directions make with the cursor.
  unfoldable pub submit : Reply → Cursor → Engine → ℤ × Engine
  unfolding dma_async_memcpy_pg_to_buf dma_async_memcpy_buf_to_pg
  submit r c e = elim dir [
    | from_user ↦
        dma_async_memcpy_pg_to_buf r q.chan (page_at q.pages c.page_index) c.byte_offset
          c.tmp_addr_kernel c.copy e
    | to_user ↦
        dma_async_memcpy_buf_to_pg r q.chan (page_at q.pages c.page_index) c.byte_offset
          c.tmp_addr_kernel c.copy e
  ]

  -- The loop of __dma_copy_from_user and __dma_copy_to_user: each turn takes one answer of the
  -- channel, and `none` means that it still polls for a descriptor when the answers end. The result
  -- is the last cookie, the bytes left and the engine.
  unfoldable pub copy_loop : List Reply → Cursor → Engine → Option (ℤ × ℕ × Engine)
  unfolding submit dma_async_issue_pending
  copy_loop [] c e = none
  copy_loop (r ∷ rs) c e =
      let (cookie, e') = submit r c e in
      let left = sub_size c.tmp_len c.copy in
      let again = copy_loop rs c (dma_async_issue_pending e') in
      let onward = copy_loop rs (next_cursor c left) e' in
      if is_neg cookie
      then again
      else if not (left == 0)
      then onward
      else some (cookie, left, record e' { replies = rs })

-- __dma_copy_from_user and __dma_copy_to_user: the result, the request and the engine.
unfoldable pub dma_copy_pages : Direction → RequestCopy → Engine → Option (ℤ × RequestCopy × Engine)
unfolding copy_loop dma_sync_wait
dma_copy_pages dir q e = elim (copy_loop dir q e.replies (first_cursor q) e) [
  | none ↦ none
  | some (cookie, left, e') ↦ elim (dma_sync_wait e') [
    | none ↦ none
    | some (status, e'') ↦
        some (to_int left, record q { dma_cookie = cookie; status = status }, e'')
  ]
]
