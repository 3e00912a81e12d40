-- ===== src/UserCopy/Delivery.antt =====
-- Calls of dma_copy_from_user and dma_copy_to_user that go through: their bytes and their pages
-- (source/drivers/dma/dma_policy_ex_sh.c).
use dmacftu.Prelude.{
  ℕ, zero, suc, ◌+◌, ◌-◌, ◌%◌, ◌^◌, ◌<◌, ◌≡◌, refl, sym, ◌∙◌, true, false, List, [], ◌∷◌, ◌++◌,
  some, map, if◌then◌else◌, length, arith, pos,
}
use dmacftu.Request.{RequestCopy, page_size, page_at}
use dmacftu.Engine.{Direction, from_user, to_user, Transfer, Poll, Engine}
use dmacftu.Engine.Wait.{verdict}
use dmacftu.Copy.{dma_copy_pages}
use dmacftu.Copy.Chunks.{transfer_of}
use dmacftu.Copy.Whole.{IsReady, Copied, request_pages, request_pieces, dma_copy_pages-Copied}
use dmacftu.Copy.Bytes.{
  Memory, exec_all, in_range, frame_of, byte_of, HasFrames, from_user_bytes, to_user_bytes,
}
use dmacftu.Pin.{
  PinEnv, count_pages, pin_successful, PageLog, dma_pin_user_pages, dma_unpin_user_pages,
}
use dmacftu.Pin.Balance.{
  IsDocumented, log_after, pinned_request, success-eq, unpin_pinned, count_pages-eq-pages_spanned,
}
use dmacftu.Channels.{ChannelState, copy_dma_get_channel_boot}
use dmacftu.UserCopy.{Outcome, is_to_user, dma_copy_user}

-- The frame of each page of the request, as pinned.
abbrev pub nth : List ℕ → ℕ → ℕ
nth [] j = 0
nth (f ∷ fs) zero = f
nth (f ∷ fs) (suc j) = nth fs j

page_at-stored :
    (fs : List ℕ) (j : ℕ) → j < length fs → page_at (some (map some fs)) j ≡ some (nth fs j)
page_at-stored [] j h = absurd (omega arith)
page_at-stored (f ∷ fs) zero h = refl
page_at-stored (f ∷ fs) (suc j) h = page_at-stored fs j (omega arith)

-- The situation of a copy that goes through: the request and its channel, the pages pinned, and an
-- engine that answers.
pub record GoesThrough (dir : Direction) (s : ChannelState) (env : PinEnv) (q : RequestCopy)
    (e : Engine) (log : PageLog) (c : ℕ) (busy : List Poll) (p : Poll) (ps : List Poll)
    : Type 0 where
  pub some_bytes : 0 < q.len
  pub few_bytes : q.len < 2 ^ 31
  pub below_top : q.user_base + q.len + 4095 < 2 ^ 64
  pub channel : copy_dma_get_channel_boot s ≡ some c
  pub documented : IsDocumented env q
  pub pinned :
      (dma_pin_user_pages env (is_to_user dir) (record q { chan = some c }) log).0 ≡ pin_successful
  pub ready : IsReady dir q e busy p ps

-- The request that is copied, with the channel and the pages.
abbrev pub copied_request : PinEnv → RequestCopy → ℕ → RequestCopy
copied_request env q c = pinned_request env (record q { chan = some c })

-- The copies that one call submits.
abbrev pub call_transfers : Direction → PinEnv → RequestCopy → ℕ → List Transfer
call_transfers dir env q c = map (transfer_of dir (copied_request env q c)) (request_pieces q)

module _ (dir : Direction) (s : ChannelState) (env : PinEnv) (q : RequestCopy) (e : Engine)
    (log : PageLog) (c : ℕ) (busy : List Poll) (p : Poll) (ps : List Poll)
    (g : GoesThrough dir s env q e log c busy p ps) where
  -- The call ends, returns 0 and the status of the wait, has submitted its copies, and has released
  -- every page that it pinned, marked dirty if it was written to.
  pub dma_copy_user-done :
      (o : Outcome) × (dma_copy_user dir s env q e log ≡ some o)
      × (o.ret ≡ pos 0)
      × (o.request.status ≡ verdict p)
      × (o.engine.submitted ≡ e.submitted ++ call_transfers dir env q c)
      × (o.log ≡ log_after (is_to_user dir) env.stored log)
  unfolding dma_copy_user
  dma_copy_user-done =
      let q' = copied_request env q c in
      let done : Copied dir q' e (verdict p) ps (dma_copy_pages dir q' e) =
        dma_copy_pages-Copied dir q' e busy p ps g.some_bytes g.few_bytes (record {
          accepted = g.ready.accepted;
          mapped = g.ready.mapped;
          polled = g.ready.polled;
          waiting = g.ready.waiting;
          ended = g.ready.ended;
          bytes_fit = g.ready.bytes_fit;
          count_fits = g.ready.count_fits;
        }) in
      let pin =
        success-eq env (is_to_user dir) (record q { chan = some c }) log
          (record {
            room = g.documented.room;
            counted = g.documented.counted;
            refused = g.documented.refused;
          })
          g.pinned in
      let final : RequestCopy = record q' { dma_cookie = pos done.cookie; status = verdict p } in
      (
        record {
          ret = pos 0;
          request = final;
          engine = done.last;
          log = dma_unpin_user_pages final (is_to_user dir) log;
        },
        ground (arith, g.some_bytes, g.channel, pin.0, done.returned),
        refl,
        refl,
        done.copies,
        unpin_pinned env (is_to_user dir) final log refl refl,
      )

-- Each page that the copy touches was pinned.
frames-pinned :
    (env : PinEnv) (q : RequestCopy) (c : ℕ)
    → q.len < 2 ^ 31
    → q.user_base + q.len + 4095 < 2 ^ 64
    → count_pages q ≡ pos (length env.stored)
    → HasFrames (copied_request env q c) (nth env.stored) 0 (request_pages q)
frames-pinned env q c few top all j lo hi =
    let same : pos (request_pages q) ≡ pos (length env.stored) =
      sym (count_pages-eq-pages_spanned q few top) ∙ all in
    let n : request_pages q ≡ length env.stored = cc (same) in
    page_at-stored env.stored j (omega arith)

-- Where byte x of the user's buffer stands in the pinned frames.
abbrev pub user_frame : PinEnv → RequestCopy → ℕ → ℕ
user_frame env q x = frame_of (nth env.stored) 0 (q.user_base % page_size + x)

abbrev pub user_byte : RequestCopy → ℕ → ℕ
user_byte q x = byte_of (q.user_base % page_size + x)

-- dma_copy_from_user, where it goes through, returns 0 with the status of the wait, submits after the
-- earlier copies such copies that, once carried out, each byte of the kernel buffer is the user's
-- byte at the same distance and no other byte of the kernel or of the page frames has changed, and
-- releases every page that it pinned without marking any dirty.
pub dma_copy_from_user_delivers :
    (s : ChannelState) (env : PinEnv) (q : RequestCopy) (e : Engine) (log : PageLog) (c : ℕ)
    (busy : List Poll) (p : Poll) (ps : List Poll) (m : Memory)
    → GoesThrough from_user s env q e log c busy p ps
    → (o : Outcome) × (ts : List Transfer) × (dma_copy_user from_user s env q e log ≡ some o)
      × (o.ret ≡ pos 0)
      × (o.request.status ≡ verdict p)
      × (o.engine.submitted ≡ e.submitted ++ ts)
      × ((a : ℕ)
          → (exec_all ts m).kernel a ≡ (
              if in_range q.kernel_base q.len a
              then m.page (user_frame env q (a - q.kernel_base)) (user_byte q (a - q.kernel_base))
              else m.kernel a))
      × ((exec_all ts m).page ≡ m.page)
      × (o.log ≡ log_after false env.stored log)
dma_copy_from_user_delivers s env q e log c busy p ps m g =
    let (o, run, ret, status, submitted, pages) =
      dma_copy_user-done from_user s env q e log c busy p ps g in
    let all =
      (success-eq env false (record q { chan = some c }) log
        (record {
          room = g.documented.room;
          counted = g.documented.counted;
          refused = g.documented.refused;
        })
        g.pinned).1 in
    let bytes =
      from_user_bytes (copied_request env q c) (nth env.stored) (request_pages q) 0
        (q.user_base % page_size) q.kernel_base q.len m (omega arith) refl
        (frames-pinned env q c g.few_bytes g.below_top all) in
    (o, call_transfers from_user env q c, run, ret, status, submitted, bytes.0, bytes.1, pages)

-- dma_copy_to_user, where it goes through and the pinned frames are distinct, returns 0 with the
-- status of the wait, submits such copies that, once carried out, each byte x of the user's buffer is
-- the kernel's byte at the same distance, and each byte b of a frame f that is outside the user's
-- buffer, as the kernel's bytes, is unchanged; and it releases every page that it pinned, marked
-- dirty.
pub dma_copy_to_user_delivers :
    (s : ChannelState) (env : PinEnv) (q : RequestCopy) (e : Engine) (log : PageLog) (c : ℕ)
    (busy : List Poll) (p : Poll) (ps : List Poll) (m : Memory)
    → GoesThrough to_user s env q e log c busy p ps
    → ((a b : ℕ)
        → a < length env.stored
        → b < length env.stored
        → nth env.stored a ≡ nth env.stored b
        → a ≡ b)
    → (x : ℕ) → x < q.len
    → (f b : ℕ) → ((y : ℕ) → y < q.len → ¬ ((user_frame env q y ≡ f) × (user_byte q y ≡ b)))
    → (o : Outcome) × (ts : List Transfer) × (dma_copy_user to_user s env q e log ≡ some o)
      × (o.ret ≡ pos 0)
      × (o.request.status ≡ verdict p)
      × (o.engine.submitted ≡ e.submitted ++ ts)
      × ((exec_all ts m).page (user_frame env q x) (user_byte q x) ≡ m.kernel (q.kernel_base + x))
      × ((exec_all ts m).page f b ≡ m.page f b)
      × ((exec_all ts m).kernel ≡ m.kernel)
      × (o.log ≡ log_after true env.stored log)
dma_copy_to_user_delivers s env q e log c busy p ps m g apart x hx f b outside =
    let (o, run, ret, status, submitted, pages) =
      dma_copy_user-done to_user s env q e log c busy p ps g in
    let all =
      (success-eq env true (record q { chan = some c }) log
        (record {
          room = g.documented.room;
          counted = g.documented.counted;
          refused = g.documented.refused;
        })
        g.pinned).1 in
    let same : pos (request_pages q) ≡ pos (length env.stored) =
      sym (count_pages-eq-pages_spanned q g.few_bytes g.below_top) ∙ all in
    let n : request_pages q ≡ length env.stored = cc (same) in
    let bytes =
      to_user_bytes (copied_request env q c) (nth env.stored) (request_pages q) 0
        (q.user_base % page_size) q.kernel_base q.len m (omega arith) refl
        (frames-pinned env q c g.few_bytes g.below_top all)
        (λ a b la ha lb hb same_frame. apart a b (omega arith) (omega arith) same_frame) in
    (
      o,
      call_transfers to_user env q c,
      run,
      ret,
      status,
      submitted,
      bytes.0 x hx,
      bytes.1 f b outside,
      bytes.2,
      pages,
    )
