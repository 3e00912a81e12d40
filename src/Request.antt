-- ===== src/Request.antt =====
-- The request of a DMA copy, source/include/linux/dmaengine.h. A channel and a page are known by
-- numbers; NULL is `none`.
use dmacftu.Prelude.{
  ℕ, ◌-◌, ◌%◌, ◌^◌, List, Option, none, some, get_elem?, ltb, if◌then◌else◌, ℤ, pos, negsuc,
}

-- `enum dma_status`.
pub data DmaStatus : Type 0 where
  dma_success dma_in_progress dma_paused dma_error dma_init : DmaStatus

-- `struct request_copy` and `struct request_copy_prio`, which adds `priority`: the copies of the
-- first kind leave that field 0.
pub record RequestCopy : Type 0 where
  pub chan : Option ℕ
  pub priority : ℕ
  pub user_base : ℕ
  pub kernel_base : ℕ
  pub len : ℕ
  pub pages : Option (List (Option ℕ))
  pub nr_pages : ℤ
  pub dma_cookie : ℤ
  pub status : DmaStatus

unfoldable pub init_req_copy_prio : ℕ → ℕ → ℕ → ℕ → RequestCopy
init_req_copy_prio user_b kernel_b length priority = record {
  chan = none;
  priority = priority;
  user_base = user_b;
  kernel_base = kernel_b;
  len = length;
  pages = none;
  nr_pages = pos 0;
  dma_cookie = pos 0;
  status = dma_init;
}

unfoldable pub init_req_copy : ℕ → ℕ → ℕ → RequestCopy
init_req_copy user_b kernel_b length = record {
  chan = none;
  priority = 0;
  user_base = user_b;
  kernel_base = kernel_b;
  len = length;
  pages = none;
  nr_pages = pos 0;
  dma_cookie = pos 0;
  status = dma_init;
}

-- `PAGE_SIZE` and `PAGE_SHIFT` of x86.
abbrev pub page_size : ℕ
page_size = 4096

-- The conversion of an `unsigned long` to `int`.
abbrev pub to_int : ℕ → ℤ
to_int n = if ltb (n % 2 ^ 32) (2 ^ 31) then pos (n % 2 ^ 32) else negsuc (2 ^ 32 - 1 - n % 2 ^ 32)

-- `pages[i]`; a read outside the array, or through NULL, is a NULL page.
abbrev pub page_at : Option (List (Option ℕ)) → ℕ → Option ℕ
page_at none i = none
page_at (some xs) i = elim (get_elem? xs i) [ none ↦ none | some p ↦ p ]
