-- ===== src/Pool.antt =====
-- What the channel policies use of the channel allocator of source/drivers/dma/dmaengine.c:
-- dma_request_channel for DMA_MEMCPY with no filter, and dma_release_channel. Alloc/AsPool
-- fills it with the allocator.
use dmacftu.Prelude.{ℕ, ◌≡◌, ◌≢◌, List, [], ◌∷◌, ◌++◌, Option, none, some, All}

pub record Pool : Type 1 where
  pub State : Type 0
  pub request : State → Option ℕ × State
  pub release : ℕ → State → State
  -- The channels that are held exclusively, in the order in which they were given.
  pub Held : State → List ℕ → Type 0
  pub request_some :
      (s : State) (hs : List ℕ) (c : ℕ)
      → Held s hs
      → (request s).0 ≡ some c
      → Held (request s).1 (hs ++ c ∷ []) × All (λ h. h ≢ c) hs
  pub request_none :
      (s : State) (hs : List ℕ) → Held s hs → (request s).0 ≡ none → Held (request s).1 hs
  pub release_held :
      (s : State) (xs ys : List ℕ) (c : ℕ) → Held s (xs ++ c ∷ ys) → Held (release c s) (xs ++ ys)

-- `dma_release_channel(chan)`. The policies give it no NULL, on which the source would fault.
abbrev pub release_chan : (pool : Pool) → Option ℕ → pool.State → pool.State
release_chan pool none s = s
release_chan pool (some c) s = pool.release c s
