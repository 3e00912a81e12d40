-- ===== src/Pin/Balance.antt =====
-- Pages pinned and pages released (dma_pin_user_pages, dma_unpin_user_pages of
-- source/drivers/dma/dma_policy_ex_sh.c and dma_policy_prio.c).
use dmacftu.Prelude.{
  ℕ, ◌+◌, ◌-◌, ◌/◌, ◌%◌, ◌^◌, ◌<◌, ◌≡◌, refl, ap, sym, ◌∙◌, Bool, List, [], ◌∷◌, ◌++◌, map, Option,
  some, if◌then◌else◌, pos, negsuc, length, arith, Option-cases, inl, inr,
}
use mathlib.Core.List.{append_assoc, append-nil}
use dmacftu.Request.{RequestCopy, page_size}
use dmacftu.Copy.Chunks.{pages_spanned}
use dmacftu.Pin.{
  pin_successful, PinEnv, PageLog, add_long, page_align, page_mask, count_pages, store_pages,
  unpin_loop, dma_unpin_user_pages, dma_pin_user_pages, pin_down, release_page,
}

-- The number of pages pinned is the number of pieces that the copy is cut into, for a request of less
-- than 2^31 bytes that does not end in the last page of the address space.
pub count_pages-eq-pages_spanned :
    (q : RequestCopy)
    → q.len < 2 ^ 31
    → q.user_base + q.len + 4095 < 2 ^ 64
    → count_pages q ≡ pos (pages_spanned (q.user_base % page_size) q.len)
count_pages-eq-pages_spanned q h k =
    let whole : (page_align (add_long q.user_base q.len) + 2 ^ 64 - page_mask q.user_base)
          % 2 ^ 64
          / page_size
        ≡ pages_spanned (q.user_base % page_size) q.len =
      omega arith in
    rw whole (ground arith)

store_all :
    (ps : List ℕ) (slots : List (Option ℕ))
    → length slots ≡ length ps
    → store_pages ps slots ≡ map some ps
store_all [] [] e = refl
store_all [] (x ∷ slots) e = absurd (omega arith)
store_all (p ∷ ps) [] e = absurd (omega arith)
store_all (p ∷ ps) (s ∷ slots) e = ap (λ xs. some p ∷ xs) (store_all ps slots (omega arith))

-- Releasing an array that starts with the pages ps releases them in order, and marks them dirty if
-- asked to.
unpin_loop-pages :
    (dirty : Bool) (ps : List ℕ) (log : PageLog)
    → unpin_loop dirty (length ps) (map some ps) log ≡ record log {
      dirtied = if dirty then log.dirtied ++ ps else log.dirtied;
      released = log.released ++ ps;
    }
unfolding unpin_loop
unpin_loop-pages dirty [] log = ground (arith, append-nil log.dirtied, append-nil log.released)
unpin_loop-pages dirty (p ∷ ps) log = ground (
  arith,
  unpin_loop-pages dirty ps (release_page dirty p log),
  append_assoc log.dirtied (p ∷ []) ps,
  append_assoc log.released (p ∷ []) ps,
)

-- Documented behaviour of what the pinning calls: the array allocated has an entry for each page, and
-- `get_user_pages` returns the number of pages that it has pinned and stored, or an error and stores
-- none.
pub record IsDocumented (env : PinEnv) (q : RequestCopy) : Type 0 where
  pub room :
      (slots : List (Option ℕ)) → env.kmalloc ≡ some slots → pos (length slots) ≡ count_pages q
  pub counted : (n : ℕ) → env.got ≡ pos n → length env.stored ≡ n
  pub refused : (n : ℕ) → env.got ≡ negsuc n → env.stored ≡ []

-- The log after the release of the pages ps with their array.
abbrev pub log_after : Bool → List ℕ → PageLog → PageLog
log_after dirty ps log = record log {
  dirtied = if dirty then log.dirtied ++ ps else log.dirtied;
  released = log.released ++ ps;
  freed = log.freed + 1;
}

unpin-pages :
    (q : RequestCopy) (dirty : Bool) (ps : List ℕ) (log : PageLog)
    → q.pages ≡ some (map some ps)
    → q.nr_pages ≡ pos (length ps)
    → dma_unpin_user_pages q dirty log ≡ log_after dirty ps log
unfolding dma_unpin_user_pages
unpin-pages q dirty ps log e n = ground (arith, unpin_loop-pages dirty ps log)

pub record Pinned (env : PinEnv) (q q' : RequestCopy) : Type 0 where
  pub pages : q'.pages ≡ some (map some env.stored)
  pub count : q'.nr_pages ≡ pos (length env.stored)
  pub all : count_pages q ≡ pos (length env.stored)

-- From `get_user_pages` on, a success has pinned every page of the request.
pin_down-Pinned :
    (env : PinEnv) (slots : List (Option ℕ)) (q : RequestCopy) (log : PageLog)
    → pos (length slots) ≡ q.nr_pages
    → ((n : ℕ) → env.got ≡ pos n → length env.stored ≡ n)
    → (pin_down env slots q log).0 ≡ pin_successful
    → ((pin_down env slots q log).1.pages ≡ some (map some env.stored))
      × ((pin_down env slots q log).1.nr_pages ≡ pos (length env.stored))
      × (q.nr_pages ≡ pos (length env.stored))
      × ((pin_down env slots q log).2 ≡ log)
pin_down-Pinned env slots q log room counted ok =
    ground (arith, counted (length slots), store_all env.stored slots)

-- The request with the array that `kmalloc` returned.
abbrev with_slots : RequestCopy → List (Option ℕ) → RequestCopy
with_slots q slots = record q { pages = some slots; nr_pages = count_pages q }

-- A success comes from `get_user_pages`.
success-pin_down :
    (env : PinEnv) (write : Bool) (q : RequestCopy) (log : PageLog)
    → (dma_pin_user_pages env write q log).0 ≡ pin_successful
    → (slots : List (Option ℕ)) × (env.kmalloc ≡ some slots)
      × (dma_pin_user_pages env write q log ≡ pin_down env slots (with_slots q slots) log)
unfolding dma_pin_user_pages
success-pin_down env write q log ok = elim (Option-cases env.kmalloc) [
  | inl e ↦ ground (arith, e)
  | inr (slots, e) ↦ (slots, e, ground (arith, e))
]

-- A success of dma_pin_user_pages has pinned each page of the request and released none; the release
-- that follows it then releases exactly these pages, once each, marks them dirty if asked to, and
-- frees the array.
pub pin_then_unpin :
    (env : PinEnv) (write dirty : Bool) (q : RequestCopy) (log : PageLog)
    → IsDocumented env q
    → let (result, q', log') = dma_pin_user_pages env write q log in
      result ≡ pin_successful
      → Pinned env q q'
        × (log' ≡ log)
        × (dma_unpin_user_pages q' dirty log' ≡ log_after dirty env.stored log)
unfolding dma_pin_user_pages
pin_then_unpin env write dirty q log d ok =
    let (slots, e, run) = success-pin_down env write q log ok in
    let done =
      pin_down-Pinned env slots (with_slots q slots) log (d.room slots e) d.counted
        (ap (λ r. r.0) (sym run) ∙ ok) in
    rw run (
      record { pages = done.0; count = done.1; all = done.2 },
      done.3,
      rw done.3 (
          unpin-pages (pin_down env slots (with_slots q slots) log).1 dirty env.stored log done.0
            done.1),
    )

-- The request after a success: the pages stored, and their number.
abbrev pub pinned_request : PinEnv → RequestCopy → RequestCopy
pinned_request env q = record q {
  pages = some (map some env.stored);
  nr_pages = pos (length env.stored);
}

pub success-eq :
    (env : PinEnv) (write : Bool) (q : RequestCopy) (log : PageLog)
    → IsDocumented env q
    → (dma_pin_user_pages env write q log).0 ≡ pin_successful
    → (dma_pin_user_pages env write q log ≡ (pin_successful, pinned_request env q, log))
      × (count_pages q ≡ pos (length env.stored))
success-eq env write q log d ok =
    let (slots, e, run) = success-pin_down env write q log ok in
    let done =
      pin_down-Pinned env slots (with_slots q slots) log (d.room slots e) d.counted
        (ap (λ r. r.0) (sym run) ∙ ok) in
    (ground (arith, run, ok, done), done.2)

pub unpin_pinned :
    (env : PinEnv) (dirty : Bool) (q : RequestCopy) (log : PageLog)
    → q.pages ≡ some (map some env.stored)
    → q.nr_pages ≡ pos (length env.stored)
    → dma_unpin_user_pages q dirty log ≡ log_after dirty env.stored log
unpin_pinned env dirty q log e n = unpin-pages q dirty env.stored log e n

-- Pinning leaves the length and the status of the request alone.
pub dma_pin_user_pages-keeps :
    (env : PinEnv) (write : Bool) (q : RequestCopy) (log : PageLog)
    → ((dma_pin_user_pages env write q log).1.len ≡ q.len)
      × ((dma_pin_user_pages env write q log).1.status ≡ q.status)
unfolding dma_pin_user_pages
dma_pin_user_pages-keeps env write q log = ground arith
