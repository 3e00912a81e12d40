-- ===== src/Bench/Cache/Transfers.antt =====
-- A transfer of the cache benchmark by DMA as a whole
-- (micro-benchmark_Cache_2CPU/driver/driverops.c, benchmark_driver_write and benchmark_driver_read).
use dmacftu.Prelude.{
  Bool, true, false, ap, ◌∙◌, ◌*◌, ◌/◌, ℕ, ◌+◌, ◌-◌, ◌%◌, ◌^◌, ◌≤◌, ◌<◌, ◌≡◌, refl, ap₂, List, ◌++◌,
  map, none, some, pos, arith,
}
use dmacftu.Request.{RequestCopy, dma_init}
use dmacftu.Engine.{Direction, from_user, to_user, Poll}
use dmacftu.Engine.Wait.{verdict}
use dmacftu.Copy.Chunks.{transfer_of}
use dmacftu.Copy.Whole.{IsReady, request_pieces}
use dmacftu.Pin.{PinResult, pin_successful, PageLog, dma_pin_user_pages}
use dmacftu.Pin.Balance.{IsDocumented, log_after, pinned_request, success-eq, unpin_pinned}
use dmacftu.UserCopy.{shared, policy_channel}
use dmacftu.UserCopy.Policies.{dma_copy_policy-Copied}
use dmacftu.Bench.Cache.{
  BenchmarkData, counter, Machine, DeviceState, Call, returned, count_up, tmp_buf, pin_write,
  set_dirty, after_pin, copy_by_type, benchmark_driver_copy,
}
use dmacftu.Bench.Cache.Bounds.{tmp_buf_bounds, divisor-eq, div_pos}

-- The request of a transfer.
abbrev pub request_of : Direction → ℕ → ℕ → DeviceState → RequestCopy
request_of dir buf len s = record {
  chan = none;
  priority = 0;
  user_base = buf;
  kernel_base = tmp_buf dir s.b_data len;
  len = len;
  pages = none;
  nr_pages = pos 0;
  dma_cookie = pos 0;
  status = dma_init;
}

-- The pinning of its pages, with the flag given.
abbrev pub pinned_with :
    Bool → Machine → Direction → ℕ → ℕ → DeviceState → PinResult × RequestCopy × PageLog
pinned_with write m dir buf len s = dma_pin_user_pages m.env write (request_of dir buf len s) s.log

-- A transfer by DMA within the memory of the device, with pages that can be pinned, on a channel that is
-- ready.
pub record CanTransfer (dir : Direction) (m : Machine) (buf len : ℕ) (s : DeviceState) (c : ℕ)
    (busy : List Poll) (p : Poll) (ps : List Poll) : Type 0 where
  pub type : s.b_data.type ≡ 2
  pub buffer : 0 < buf
  pub some_bytes : 0 < len
  pub fits : len ≤ s.b_data.kernel_size
  pub small : s.b_data.kernel_size < 2 ^ 31
  pub top : s.b_data.kernel_buf + s.b_data.kernel_size < 2 ^ 64
  pub documented : IsDocumented m.env (request_of dir buf len s)
  pub pinned_from : dir ≡ from_user → (pinned_with true m dir buf len s).0 ≡ pin_successful
  pub pinned_to : dir ≡ to_user → (pinned_with false m dir buf len s).0 ≡ pin_successful
  pub channel :
      policy_channel shared m.channels (pinned_request m.env (request_of dir buf len s)) ≡ some c
  pub ready :
      IsReady dir
        (record (pinned_request m.env (request_of dir buf len s)) { chan = some c })
        s.engine
        busy
        p
        ps

-- What the transfer returns and leaves. A transfer from the user takes the block that
-- counter_op_write names, and one to the user that which counter_op_read names.
pub record Transferred (dir : Direction) (m : Machine) (buf len : ℕ) (s : DeviceState) (c : ℕ)
    (out : Call) : Type 0 where
  pub state : DeviceState
  pub returns : out ≡ returned (pos len) state
  pub from_counted :
      dir ≡ from_user
      → (state.b_data.counter_op_write ≡ (s.b_data.counter_op_write + 1) % 2 ^ 64)
        × (state.b_data.counter_op_read ≡ s.b_data.counter_op_read)
  pub to_counted :
      dir ≡ to_user
      → (state.b_data.counter_op_read ≡ (s.b_data.counter_op_read + 1) % 2 ^ 64)
        × (state.b_data.counter_op_write ≡ s.b_data.counter_op_write)
  pub same_memory :
      (state.b_data.kernel_buf ≡ s.b_data.kernel_buf)
      × (state.b_data.kernel_size ≡ s.b_data.kernel_size)
      × (state.b_data.type ≡ s.b_data.type)
  pub from_released : dir ≡ from_user → state.log ≡ log_after true m.env.stored s.log
  pub to_released : dir ≡ to_user → state.log ≡ log_after false m.env.stored s.log
  pub from_block :
      dir ≡ from_user
      → (request_of dir buf len s).kernel_base
        ≡ s.b_data.kernel_buf + s.b_data.counter_op_write % (s.b_data.kernel_size / len) * len
  pub to_block :
      dir ≡ to_user
      → (request_of dir buf len s).kernel_base
        ≡ s.b_data.kernel_buf + s.b_data.counter_op_read % (s.b_data.kernel_size / len) * len
  pub within :
      (request_of dir buf len s).kernel_base + len ≤ s.b_data.kernel_buf + s.b_data.kernel_size
  pub copies :
      state.engine.submitted
      ≡ s.engine.submitted
        ++ map
            (transfer_of dir
              (record (pinned_request m.env (request_of dir buf len s)) { chan = some c }))
            (request_pieces (request_of dir buf len s))

module _ (dir : Direction) (m : Machine) (buf len : ℕ) (s : DeviceState) where
  -- The tests before the copy.
  guards-pass :
      0 < buf
      → 0 < len
      → len ≤ s.b_data.kernel_size
      → s.b_data.kernel_size < 2 ^ 31
      → benchmark_driver_copy dir m buf len s ≡ copy_by_type dir m buf len s
  unfolding benchmark_driver_copy
  guards-pass b l le small =
      ground (arith, divisor-eq s.b_data len l small, div_pos s.b_data.kernel_size len l le)

  by_dma :
      s.b_data.type ≡ 2
      → copy_by_type dir m buf len s
        ≡ after_pin dir m len s
            (dma_pin_user_pages m.env (pin_write dir) (request_of dir buf len s) s.log)
  unfolding copy_by_type
  by_dma t = ground (arith, t)

same_memory :
    (dir : Direction) (d : BenchmarkData)
    → ((count_up dir d).kernel_buf ≡ d.kernel_buf)
      × ((count_up dir d).kernel_size ≡ d.kernel_size)
      × ((count_up dir d).type ≡ d.type)
same_memory from_user d = (refl, refl, refl)
same_memory to_user d = (refl, refl, refl)

abbrev block_at : BenchmarkData → ℕ → ℕ → ℕ
block_at d len n = d.kernel_buf + n % (d.kernel_size / len) * len

-- The flags of each direction.
pinned-by_flag :
    (dir : Direction) (m : Machine) (buf len : ℕ) (s : DeviceState) (c : ℕ) (busy : List Poll)
    (p : Poll) (ps : List Poll)
    → CanTransfer dir m buf len s c busy p ps
    → (pinned_with (pin_write dir) m dir buf len s).0 ≡ pin_successful
pinned-by_flag from_user m buf len s c busy p ps h = h.pinned_from refl
pinned-by_flag to_user m buf len s c busy p ps h = h.pinned_to refl

-- A transfer of the cache benchmark by DMA, of between 1 byte and the memory of the device, which is less
-- than 2^31 bytes and lies below 2^64, whose pages are pinned (for writing if it is from the user, else
-- for reading) and whose channel is ready, returns the number of its bytes and moves its counter on by 1
-- (modulo 2^64): counter_op_write if it is from the user, else counter_op_read; the other counter and
-- the memory stay as they were. It submits the pieces of the request, each once and in order; its block
-- starts at the multiple of the size that the counter names modulo the number of blocks, and lies in the
-- memory of the device. The pages pinned are released, each once; they are marked dirty after a copy
-- from the user, which has not written them, and not after a copy to the user, which has.
pub benchmark_driver_copy-Transferred :
    (dir : Direction) (m : Machine) (buf len : ℕ) (s : DeviceState) (c : ℕ) (busy : List Poll)
    (p : Poll) (ps : List Poll)
    → CanTransfer dir m buf len s c busy p ps
    → Transferred dir m buf len s c (benchmark_driver_copy dir m buf len s)
benchmark_driver_copy-Transferred dir m buf len s c busy p ps h =
    let q : RequestCopy = pinned_request m.env (request_of dir buf len s) in
    let (pin, count) =
      success-eq m.env (pin_write dir) (request_of dir buf len s) s.log h.documented
        (pinned-by_flag dir m buf len s c busy p ps h) in
    let done =
      dma_copy_policy-Copied shared dir m.channels q s.engine c busy p ps h.some_bytes
        (omega (arith, h.fits, h.small)) h.channel h.ready in
    let bounds = tmp_buf_bounds dir s.b_data len h.some_bytes h.fits h.small h.top in
    let whole : (len + 2 ^ 64 - 0) % 2 ^ 64 ≡ len = omega (arith, h.fits, h.small) in
    rw
      (
        guards-pass dir m buf len s h.buffer h.some_bytes h.fits h.small,
        by_dma dir m buf len s h.type,
        pin,
        done.returned,
      )
      (record {
        state = record {
          b_data = count_up dir s.b_data;
          engine = done.last;
          log = log_after (set_dirty dir) m.env.stored s.log;
        };
        returns =
            ap₂
              (λ (n : ℕ) (l : PageLog).
                returned (pos n)
                  (record { b_data = count_up dir s.b_data; engine = done.last; log = l }))
              whole
              (unpin_pinned m.env (set_dirty dir)
                (record q { chan = some c; dma_cookie = pos done.cookie; status = verdict p }) s.log
                refl refl);
        from_counted = λ e. rw e (refl, refl);
        to_counted = λ e. rw e (refl, refl);
        same_memory = same_memory dir s.b_data;
        from_released = λ e. rw e refl;
        to_released = λ e. rw e refl;
        from_block = λ e. bounds.0 ∙ ap (block_at s.b_data len) (ap (λ d. counter d s.b_data) e);
        to_block = λ e. bounds.0 ∙ ap (block_at s.b_data len) (ap (λ d. counter d s.b_data) e);
        within = bounds.2;
        copies = done.copies;
      })
