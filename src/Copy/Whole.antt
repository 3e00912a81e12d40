-- ===== src/Copy/Whole.antt =====
-- __dma_copy_from_user and __dma_copy_to_user as a whole
-- (source/drivers/dma/dma_policy_ex_sh.c and dma_policy_prio.c).
use dmacftu.Prelude.{
  ℕ, ◌+◌, ◌%◌, ◌^◌, ◌≤◌, ◌<◌, ◌≡◌, ◌≢◌, refl, ap, ◌∙◌, List, ◌∷◌, ◌++◌, Option, some, map, arith,
  All, ℤ, pos,
}
use dmacftu.Request.{DmaStatus, dma_in_progress, RequestCopy, page_size}
use dmacftu.Engine.{Direction, Poll, Engine, dma_sync_wait}
use dmacftu.Engine.Wait.{IsBusy, verdict, dma_sync_wait_lem}
use dmacftu.Copy.{first_cursor, copy_loop, dma_copy_pages}
use dmacftu.Copy.Chunks.{
  Piece, pieces, pages_spanned, transfer_of, count_accepted, IsMapped, length-pieces,
  total_len-pieces,
}
use dmacftu.Copy.Loop.{Done, cursor_at, copy_loop-Done}

-- The pages and the pieces of a request.
abbrev pub request_pages : RequestCopy → ℕ
request_pages q = pages_spanned (q.user_base % page_size) q.len

abbrev pub request_pieces : RequestCopy → List Piece
request_pieces q = pieces (request_pages q) 0 (q.user_base % page_size) q.kernel_base q.len

-- An engine that accepts often enough, maps where the code does not test it, and whose polls come to
-- an end at p.
pub record IsReady (dir : Direction) (q : RequestCopy) (e : Engine) (busy : List Poll) (p : Poll)
    (ps : List Poll) : Type 0 where
  pub accepted : request_pages q ≤ count_accepted dir e.replies
  pub mapped : All (IsMapped dir) e.replies
  pub polled : e.polls ≡ busy ++ p ∷ ps
  pub waiting : All IsBusy busy
  pub ended : verdict p ≢ dma_in_progress
  pub bytes_fit : e.bytes_transferred < 2 ^ 64
  pub count_fits : e.memcpy_count < 2 ^ 64

-- What the whole copy returns and does.
pub record Copied (dir : Direction) (q : RequestCopy) (e : Engine) (status : DmaStatus)
    (ps : List Poll) (out : Option (ℤ × RequestCopy × Engine)) : Type 0 where
  pub cookie : ℕ
  pub last : Engine
  pub returned : out ≡ some (pos 0, record q { dma_cookie = pos cookie; status = status }, last)
  pub copies : last.submitted ≡ e.submitted ++ map (transfer_of dir q) (request_pieces q)
  pub polls_left : last.polls ≡ ps
  pub bytes : last.bytes_transferred ≡ (e.bytes_transferred + q.len) % 2 ^ 64
  pub count : last.memcpy_count ≡ (e.memcpy_count + request_pages q) % 2 ^ 64

-- A copy of between 1 and 2^31 - 1 bytes on a channel that is ready ends and returns 0, with the
-- status at which the wait stops. Whatever the channel refuses in between, it has submitted the
-- pieces of the request, each once and in order, one for each page, and has counted the bytes and
-- the copies.
pub dma_copy_pages-Copied :
    (dir : Direction) (q : RequestCopy) (e : Engine) (busy : List Poll) (p : Poll) (ps : List Poll)
    → 0 < q.len
    → q.len < 2 ^ 31
    → IsReady dir q e busy p ps
    → Copied dir q e (verdict p) ps (dma_copy_pages dir q e)
unfolding dma_copy_pages
dma_copy_pages-Copied dir q e busy p ps l small ready = record {
  cookie = done.cookie;
  last = record done.last { polls = ps; flushes = done.last.flushes + 1 };
  returned = ground (arith, start, done.returned, wait);
  copies = done.copies;
  polls_left = refl;
  bytes =
      done.bytes
      ∙ ap (λ n. (e.bytes_transferred + n) % 2 ^ 64)
          (total_len-pieces (request_pages q) 0 off q.kernel_base q.len (omega arith) refl);
  count =
      done.count
      ∙ ap (λ n. (e.memcpy_count + n) % 2 ^ 64)
          (length-pieces (request_pages q) 0 off q.kernel_base q.len);
}
  where
    off : ℕ
    off = q.user_base % page_size

    done :
        Done dir q
          (request_pieces q)
          e
          (copy_loop dir q e.replies (cursor_at 0 (q.user_base % page_size) q.kernel_base q.len) e)
    done =
        copy_loop-Done dir q e.replies (request_pages q) 0 (q.user_base % page_size) q.kernel_base
          q.len e (omega arith) l small refl ready.accepted ready.mapped
          (ready.bytes_fit, ready.count_fits)

    start : first_cursor q ≡ cursor_at 0 (q.user_base % page_size) q.kernel_base q.len
    start = ground arith

    wait :
        dma_sync_wait done.last
        ≡ some (verdict p, record done.last { polls = ps; flushes = done.last.flushes + 1 })
    wait =
        dma_sync_wait_lem done.last busy p ps (done.polls_left ∙ ready.polled) ready.waiting
          ready.ended
