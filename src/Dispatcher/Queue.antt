-- ===== src/Dispatcher/Queue.antt =====
-- internal/dispatcher/dispatcher.go: the bounded queue of requests that wait for a worker, and the
-- `Retry-After` header of those that it turns away.
use eregion.Prelude.{
  ℕ, ◌+◌, ◌-◌, ◌*◌, ◌/◌, ◌≤◌, ◌<◌, ◌≡◌, refl, sym, ap, ◌∙◌, ◌⊎◌, Bool, true, false, List, [], ◌∷◌,
  ltb, leb, if◌then◌else◌, length, arith,
}
use eregion.Prelude.Counts.{count, remove}

-- The capacity has been validated as non-negative.
pub record Queue : Type 0 where
  pub capacity : ℕ
  pub waiting : ℕ

-- True if the request may wait.
unfoldable pub try_enter_queue : Queue → Queue × Bool
try_enter_queue q =
    if leb q.capacity 0
    then (q, false)
    else if leb q.capacity q.waiting
    then (q, false)
    else (record q { waiting = q.waiting + 1 }, true)

unfoldable pub leave_queue : Queue → Queue
leave_queue q = if ltb 0 q.waiting then record q { waiting = q.waiting - 1 } else q

-- Durations are nanoseconds. `math.Ceil(d.Seconds())` is exact for durations below 2 ^ 22 seconds,
-- where no nanosecond is lost in the sum of a float64.
abbrev pub second : ℕ
second = 1_000_000_000

unfoldable pub retry_after_seconds : ℕ → ℕ
retry_after_seconds d =
    if leb d 0 then 1 else let s = (d + (second - 1)) / second in if ltb s 1 then 1 else s

-- The header asks a client to wait at least the configured time and at least a second; and, unless
-- it asks for one second, less than a second more than the configured time.
pub retry_after_seconds_bounds :
    (d : ℕ)
    → let s = retry_after_seconds d in
      (1 ≤ s) × (d ≤ s * second) × ((s ≡ 1) ⊎ (s * second < d + second))
unfolding retry_after_seconds
retry_after_seconds_bounds d = ground arith

-- Requests, by number, that come and go. `members` are those inside.
pub record Waiters : Type 0 where
  pub queue : Queue
  pub members : List ℕ

abbrev pub admit : Bool → ℕ → List ℕ → List ℕ
admit true r members = r ∷ members
admit false r members = members

pub data Visit (s : Waiters) : Waiters → Type 0 where
  enter :
      (r : ℕ)
      → Visit s (record s {
        queue = (try_enter_queue s.queue).0;
        members = admit (try_enter_queue s.queue).1 r s.members;
      })
  leave :
      (r : ℕ)
      → 0 < count r s.members
      → Visit s (record s { queue = leave_queue s.queue; members = remove r s.members })

pub data Visits (s : Waiters) : Waiters → Type 0 where
  here : Visits s s
  next : {t u : Waiters} → Visits s t → Visit t u → Visits s u

length-remove : (a : ℕ) (xs : List ℕ) → 0 < count a xs → length (remove a xs) + 1 ≡ length xs
unfolding count remove
length-remove a [] h = absurd (omega arith)
length-remove a (x ∷ xs) h = ground (arith, length-remove a xs)

record Inv (c : ℕ) (s : Waiters) : Type 0 where
  exact : s.queue.waiting ≡ length s.members
  within : s.queue.waiting ≤ c
  fixed : s.queue.capacity ≡ c

Visit-Inv : {c : ℕ} {s t : Waiters} → Visit s t → Inv c s → Inv c t
unfolding try_enter_queue leave_queue
Visit-Inv (enter r) i = ground arith
Visit-Inv {c} {s} (leave r h) i = ground (arith, length-remove r s.members h)

Visits-Inv : {c : ℕ} {s t : Waiters} → Visits s t → Inv c s → Inv c t
Visits-Inv here i = i
Visits-Inv (next v w) i = Visit-Inv w (Visits-Inv v i)

-- However requests enter and leave, from an empty queue on: the counter is the number of requests
-- inside, it is never above the capacity, and a request is turned away exactly if the queue is full
-- (always, where the capacity is 0).
pub queue_exact :
    {s t : Waiters}
    → s.queue.waiting ≡ 0
    → s.members ≡ []
    → Visits s t
    → (t.queue.waiting ≡ length t.members)
      × (length t.members ≤ s.queue.capacity)
      × ((try_enter_queue t.queue).1 ≡ ltb (length t.members) s.queue.capacity)
unfolding try_enter_queue
queue_exact {s} {t} empty nobody v =
    let i =
      Visits-Inv {c = s.queue.capacity} v
        (record { exact = empty ∙ sym (ap length nobody); within = omega arith; fixed = refl }) in
    (i.exact, omega (arith, i.exact, i.within), ground (arith, i.exact, i.within, i.fixed))
