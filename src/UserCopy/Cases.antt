-- ===== src/UserCopy/Cases.antt =====
-- Concrete requests for the DMA copies of source/drivers/dma/dma_policy_ex_sh.c, and that they go through.
use dmacftu.Prelude.{
  ℕ, zero, suc, ◌+◌, ◌<◌, ◌≡◌, refl, true, false, List, [], ◌∷◌, Option, none, some, length, arith,
  ℤ, pos,
}
use dmacftu.Request.{dma_success, dma_in_progress, dma_init, RequestCopy, init_req_copy}
use dmacftu.Engine.{from_user, to_user, page_buf, Reply, Poll, Engine}
use dmacftu.Copy.{dma_copy_pages}
use dmacftu.Copy.Whole.{IsReady}
use dmacftu.Copy.Bytes.{Memory}
use dmacftu.Pin.{PinEnv, PageLog, dma_pin_user_pages, dma_unpin_user_pages, count_pages}
use dmacftu.Pin.Balance.{IsDocumented}
use dmacftu.Channels.{ChannelState, boot_exclusive, copy_dma_get_channel_boot}
use dmacftu.UserCopy.{dma_copy_user}
use dmacftu.UserCopy.Delivery.{GoesThrough, nth}

-- Ten bytes at a user address six bytes before a page boundary.
abbrev pub request : RequestCopy
request = record {
  chan = none;
  priority = 0;
  user_base = 4090;
  kernel_base = 1000;
  len = 10;
  pages = none;
  nr_pages = pos 0;
  dma_cookie = pos 0;
  status = dma_init;
}

pub request-init : init_req_copy 4090 1000 10 ≡ request
unfolding init_req_copy
request-init = refl

abbrev pub answer : Option ℕ → Reply
answer tx = record { buf_mapped = true; page_mapped = true; tx = tx }

abbrev pub last_poll : Poll
last_poll = record { status = dma_success; expired = false }

abbrev pub busy_poll : Poll
busy_poll = record { status = dma_in_progress; expired = false }

-- The channel has no descriptor at first, then takes two copies.
abbrev pub engine : Engine
engine = record {
  replies = answer none ∷ answer (some 5) ∷ answer (some 6) ∷ [];
  polls = busy_poll ∷ last_poll ∷ [];
  submitted = [];
  flushes = 0;
  bytes_transferred = 0;
  memcpy_count = 0;
}

abbrev pub channels : ChannelState
channels = record {
  copy_dmaengine_ref_count = pos 0;
  memcpy_entry = none;
  percpu_chan_copy = some 3;
  list_chan_prio = record {
    chan_prio = some 8 ∷ some 9 ∷ none ∷ none ∷ [];
    priority = 0 ∷ 1 ∷ 128 ∷ 128 ∷ [];
    size = 2;
  };
  copy_align = λ _. 0;
  boot_policy = boot_exclusive;
}

-- No channel for the kernel's own copies.
abbrev pub no_channels : ChannelState
no_channels = record channels { percpu_chan_copy = none }

abbrev pub env : PinEnv
env = record {
  kernel_ds = false;
  kmalloc = some (none ∷ none ∷ []);
  access_ok = λ _. true;
  got = pos 2;
  stored = 40 ∷ 41 ∷ [];
}

abbrev pub empty_log : PageLog
empty_log = record { dirtied = []; released = []; freed = 0 }

abbrev pub memory : Memory
memory = record { page = λ f o. f + o; kernel = λ a. a }

-- The whole call returns 0, with one flush for the refusal and one for the wait.
pub run-from_user :
    dma_copy_user from_user channels env request engine empty_log
    ≡ some (record {
      ret = pos 0;
      request = record request {
        chan = some 3;
        pages = some (some 40 ∷ some 41 ∷ []);
        nr_pages = pos 2;
        dma_cookie = pos 6;
        status = dma_success;
      };
      engine = record {
        replies = [];
        polls = [];
        submitted =
            record {
              chan = some 3;
              ends = page_buf from_user (some 40) 4090 1000;
              len = 6;
              mapped = true;
            }
            ∷ record {
              chan = some 3;
              ends = page_buf from_user (some 41) 0 1006;
              len = 4;
              mapped = true;
            }
            ∷ [];
        flushes = 2;
        bytes_transferred = 10;
        memcpy_count = 2;
      };
      log = record { dirtied = []; released = 40 ∷ 41 ∷ []; freed = 1 };
    })
unfolding dma_copy_user copy_dma_get_channel_boot dma_pin_user_pages dma_unpin_user_pages
    dma_copy_pages
run-from_user = refl

pub counted-two : (n : ℕ) → ◌≡◌ {A = ℤ} (pos 2) (pos n) → ◌≡◌ {A = ℕ} 2 n
counted-two n h = ground arith

pub env-room :
    (c : Option ℕ) (slots : List (Option ℕ))
    → env.kmalloc ≡ some slots
    → pos (length slots) ≡ count_pages (record request { chan = c })
env-room c slots h = ground arith

pub env-IsDocumented : (c : Option ℕ) → IsDocumented env (record request { chan = c })
env-IsDocumented c = record {
  room = env-room c;
  counted = counted-two;
  refused = λ n h. absurd (ground arith);
}

pub ready : IsReady from_user request engine (busy_poll ∷ []) last_poll []
ready = record {
  accepted = omega arith;
  mapped = (tt, (tt, (tt, tt)));
  polled = refl;
  waiting = ((refl, refl), tt);
  ended = λ h. cc;
  bytes_fit = omega arith;
  count_fits = omega arith;
}

pub IsReady-to_user : IsReady to_user request engine (busy_poll ∷ []) last_poll []
IsReady-to_user = record {
  accepted = omega arith;
  mapped = (refl, (refl, (refl, tt)));
  polled = refl;
  waiting = ((refl, refl), tt);
  ended = λ h. cc;
  bytes_fit = omega arith;
  count_fits = omega arith;
}

pub goes :
    GoesThrough from_user channels env request engine empty_log 3 (busy_poll ∷ []) last_poll []
unfolding copy_dma_get_channel_boot dma_pin_user_pages
goes = record {
  some_bytes = omega arith;
  few_bytes = omega arith;
  below_top = omega arith;
  channel = refl;
  documented = env-IsDocumented none;
  pinned = refl;
  ready = ready;
}

pub goes-to_user :
    GoesThrough to_user channels env request engine empty_log 3 (busy_poll ∷ []) last_poll []
unfolding copy_dma_get_channel_boot dma_pin_user_pages
goes-to_user = record {
  some_bytes = omega arith;
  few_bytes = omega arith;
  below_top = omega arith;
  channel = refl;
  documented = env-IsDocumented none;
  pinned = refl;
  ready = IsReady-to_user;
}

pub stored-distinct : (a b : ℕ) → a < 2 → b < 2 → nth env.stored a ≡ nth env.stored b → a ≡ b
stored-distinct zero zero la lb e = refl
stored-distinct zero (suc zero) la lb e = absurd (omega arith)
stored-distinct zero (suc (suc b)) la lb e = absurd (omega arith)
stored-distinct (suc zero) zero la lb e = absurd (omega arith)
stored-distinct (suc zero) (suc zero) la lb e = refl
stored-distinct (suc zero) (suc (suc b)) la lb e = absurd (omega arith)
stored-distinct (suc (suc a)) b la lb e = absurd (omega arith)
