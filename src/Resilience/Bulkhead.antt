-- ===== src/Resilience/Bulkhead.antt =====
-- The bulkhead of clients/kis_resilience.py: `bulkhead_slot`, as the steps of the requests that go
-- through it. Between two steps of a request, any other one may make a step.
use kis_portfolio_mcp.Common.{
  ℕ, ◌+◌, ◌-◌, ◌≤◌, ◌<◌, ◌≡◌, refl, Option, none, some, leb, if◌then◌else◌, arith,
}

-- `BulkheadState`: the free places of the semaphore, and the waiting requests.
pub record BulkheadState : Type 0 where
  pub available : ℕ
  pub max_waiters : ℕ
  pub waiters : ℕ

-- The requests that wait in the body of `bulkhead_slot`, and those that run in its `with` block.
pub record Callers : Type 0 where
  pub waiting : ℕ
  pub running : ℕ

abbrev pub new_bulkhead : ℕ → ℕ → BulkheadState
new_bulkhead maximum max_waiters = record {
  available = maximum;
  max_waiters = max_waiters;
  waiters = 0;
}

-- Entering: none if the queue is full, and `KISBulkheadRejectedError` is raised.
unfoldable pub enter : BulkheadState → Option BulkheadState
enter b = if leb b.max_waiters b.waiters then none else some (record b { waiters = b.waiters + 1 })

-- `acquire` returns, and the inner `finally` runs.
abbrev pub acquired : BulkheadState → BulkheadState
acquired b = record b { available = b.available - 1; waiters = b.waiters - 1 }

-- The wait times out, and the inner `finally` runs.
abbrev pub timed_out : BulkheadState → BulkheadState
timed_out b = record b { waiters = b.waiters - 1 }

-- The outer `finally` of a request that had acquired its place.
abbrev pub left : BulkheadState → BulkheadState
left b = record b { available = b.available + 1 }

-- A step of some request.
pub data Step : BulkheadState × Callers → BulkheadState × Callers → Type 0 where
  enters :
      (b b' : BulkheadState) (c : Callers)
      → enter b ≡ some b'
      → Step (b, c) (b', record c { waiting = c.waiting + 1 })
  is_rejected : (b : BulkheadState) (c : Callers) → enter b ≡ none → Step (b, c) (b, c)
  acquires :
      (b : BulkheadState) (waiting running : ℕ)
      → 0 < b.available
      → Step
          (b, record { waiting = waiting + 1; running = running })
          (acquired b, record { waiting = waiting; running = running + 1 })
  times_out :
      (b : BulkheadState) (waiting running : ℕ)
      → Step
          (b, record { waiting = waiting + 1; running = running })
          (timed_out b, record { waiting = waiting; running = running })
  leaves :
      (b : BulkheadState) (waiting running : ℕ)
      → Step
          (b, record { waiting = waiting; running = running + 1 })
          (left b, record { waiting = waiting; running = running })

pub data Reachable (maximum max_waiters : ℕ) : BulkheadState × Callers → Type 0 where
  begins :
      Reachable maximum max_waiters
        (new_bulkhead maximum max_waiters, record { waiting = 0; running = 0 })
  steps :
      (x y : BulkheadState × Callers)
      → Reachable maximum max_waiters x
      → Step x y
      → Reachable maximum max_waiters y

-- The counters tell of the requests, and the bounds hold.
pub record IsBounded (maximum max_waiters : ℕ) (x : BulkheadState × Callers) : Type 0 where
  pub counted : x.0.waiters ≡ x.1.waiting
  pub free : x.0.available + x.1.running ≡ maximum
  pub limit : x.0.max_waiters ≡ max_waiters
  pub queued : x.1.waiting ≤ max_waiters

Step-IsBounded :
    (maximum max_waiters : ℕ) (x y : BulkheadState × Callers)
    → Step x y
    → IsBounded maximum max_waiters x
    → IsBounded maximum max_waiters y
unfolding enter
Step-IsBounded m w _ _ (enters b b' c e) h =
    let i = h.counted in
    let f = h.free in
    let l = h.limit in
    let q = h.queued in
    record {
      counted = ground arith;
      free = ground arith;
      limit = ground arith;
      queued = ground arith;
    }
Step-IsBounded m w _ _ (is_rejected b c e) h = h
Step-IsBounded m w _ _ (acquires b waiting running p) h =
    let i = h.counted in
    let f = h.free in
    let l = h.limit in
    let q = h.queued in
    record { counted = omega arith; free = omega arith; limit = l; queued = omega arith }
Step-IsBounded m w _ _ (times_out b waiting running) h =
    let i = h.counted in
    let f = h.free in
    let l = h.limit in
    let q = h.queued in record { counted = omega arith; free = f; limit = l; queued = omega arith }
Step-IsBounded m w _ _ (leaves b waiting running) h =
    let i = h.counted in
    let f = h.free in
    let l = h.limit in
    let q = h.queued in record { counted = i; free = omega arith; limit = l; queued = q }

-- However the requests interleave, at most the maximum is in flight and at most the set number waits;
-- the counters are those of the requests, so each place that is taken is given back.
pub Reachable-IsBounded :
    (maximum max_waiters : ℕ) (x : BulkheadState × Callers)
    → Reachable maximum max_waiters x
    → IsBounded maximum max_waiters x
Reachable-IsBounded m w _ begins = record {
  counted = refl;
  free = omega arith;
  limit = refl;
  queued = omega arith;
}
Reachable-IsBounded m w _ (steps x y r s) = Step-IsBounded m w x y s (Reachable-IsBounded m w x r)
