-- ===== src/Pin.antt =====
-- Pinning and releasing the user pages of a request: dma_pin_user_pages, dma_unpin_user_pages of
-- source/drivers/dma/dma_policy_ex_sh.c, and their variants of dma_policy_prio.c.
-- What the kernel's memory management answers stands in a record.
pub mod Balance
use dmacftu.Prelude.{
  ℕ, zero, suc, ◌+◌, ◌-◌, ◌*◌, ◌/◌, ◌%◌, ◌^◌, Bool, true, false, not, ◌&&◌, List, [], ◌∷◌, ◌++◌,
  Option, none, some, if◌then◌else◌, ℤ, pos, negsuc, length, ◌==◌,
}
use dmacftu.Request.{RequestCopy, page_size, to_int}

pub data PinResult : Type 0 where
  pin_failed pin_successful pin_no_user : PinResult

-- Whether the address limit is the kernel's; the memory that `kmalloc` returns, as it was left, or
-- `none`; `access_ok` for VERIFY_WRITE (true) and VERIFY_READ; the result of `get_user_pages` and the
-- pages that it stores from the start of the array on.
pub record PinEnv : Type 0 where
  pub kernel_ds : Bool
  pub kmalloc : Option (List (Option ℕ))
  pub access_ok : Bool → Bool
  pub got : ℤ
  pub stored : List ℕ

-- The pages marked dirty, the pages released and the arrays freed so far.
pub record PageLog : Type 0 where
  pub dirtied : List ℕ
  pub released : List ℕ
  pub freed : ℕ

-- Addresses are `unsigned long`.
abbrev pub add_long : ℕ → ℕ → ℕ
add_long a b = (a + b) % 2 ^ 64

-- `PAGE_ALIGN(x)` and `x & PAGE_MASK`.
abbrev pub page_align : ℕ → ℕ
page_align x = add_long x 4095 / page_size * page_size

abbrev pub page_mask : ℕ → ℕ
page_mask x = x / page_size * page_size

-- The pages from `user_base` to the end of the request, counted as an `int`.
abbrev pub count_pages : RequestCopy → ℤ
count_pages q = to_int (
    (page_align (add_long q.user_base q.len) + 2 ^ 64 - page_mask q.user_base) % 2 ^ 64 / page_size)

-- The array after the pages are stored over its start.
abbrev pub store_pages : List ℕ → List (Option ℕ) → List (Option ℕ)
store_pages [] slots = slots
store_pages (p ∷ ps) [] = []
store_pages (p ∷ ps) (s ∷ slots) = some p ∷ store_pages ps slots

abbrev pub int_eq : ℤ → ℤ → Bool
int_eq (pos a) (pos b) = a == b
int_eq (negsuc a) (negsuc b) = a == b
int_eq _ _ = false

abbrev pub release_page : Bool → ℕ → PageLog → PageLog
release_page dirty p log = record log {
  dirtied = if dirty then log.dirtied ++ p ∷ [] else log.dirtied;
  released = log.released ++ p ∷ [];
}

-- The loop of dma_unpin_user_pages over the pages left, which stops at a NULL page.
unfoldable pub unpin_loop : Bool → ℕ → List (Option ℕ) → PageLog → PageLog
unpin_loop dirty zero xs log = log
unpin_loop dirty (suc n) [] log = log
unpin_loop dirty (suc n) (none ∷ xs) log = log
unpin_loop dirty (suc n) (some p ∷ xs) log = unpin_loop dirty n xs (release_page dirty p log)

-- The rounds of a loop `for (i = 0; i < n; i++)`.
abbrev pub rounds : ℤ → ℕ
rounds (pos n) = n
rounds (negsuc n) = 0

unfoldable pub dma_unpin_user_pages : RequestCopy → Bool → PageLog → PageLog
unfolding unpin_loop
dma_unpin_user_pages q dirty log = elim q.pages [
  | none ↦ log
  | some xs ↦
      let log' = unpin_loop dirty (rounds q.nr_pages) xs log in
      record log' { freed = log'.freed + 1 }
]

-- The label `unpin` of both functions.
abbrev pub unpin_fail : RequestCopy → PageLog → PinResult × RequestCopy × PageLog
unpin_fail q log = (pin_failed, q, dma_unpin_user_pages q false log)

-- From `get_user_pages` on.
abbrev pub pin_down :
    PinEnv → List (Option ℕ) → RequestCopy → PageLog → PinResult × RequestCopy × PageLog
pin_down env slots q log =
    let q' : RequestCopy = record q { pages = some (store_pages env.stored slots) } in
    if not (int_eq env.got q.nr_pages) then unpin_fail q' log else (pin_successful, q', log)

-- dma_pin_user_pages; `write` tells a copy to the user.
unfoldable pub dma_pin_user_pages :
    PinEnv → Bool → RequestCopy → PageLog → PinResult × RequestCopy × PageLog
unfolding dma_unpin_user_pages
dma_pin_user_pages env write q0 log =
    let q : RequestCopy = record q0 { nr_pages = count_pages q0 } in
    if env.kernel_ds then (pin_no_user, q0, log) else elim env.kmalloc [
      | none ↦ (pin_failed, record q { pages = none }, log)
      | some slots ↦
          let q1 : RequestCopy = record q { pages = some slots } in
          if not (env.access_ok true) && write
          then unpin_fail q1 log
          else if not (env.access_ok false) && not write
          then unpin_fail q1 log
          else pin_down env slots q1 log
    ]

-- dma_pin_user_pages_prio: no test of the address limit, nor of `access_ok`.
unfoldable pub dma_pin_user_pages_prio :
    PinEnv → RequestCopy → PageLog → PinResult × RequestCopy × PageLog
unfolding dma_unpin_user_pages
dma_pin_user_pages_prio env q0 log =
    let q : RequestCopy = record q0 { nr_pages = count_pages q0 } in
    elim env.kmalloc [
      | none ↦ (pin_failed, record q { pages = none }, log)
      | some slots ↦ pin_down env slots (record q { pages = some slots }) log
    ]
