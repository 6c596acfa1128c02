-- ===== src/Attention/Scheduler/Aging.antt =====
-- The effective priority of a task that waits.
use prometheist.Base.{
  leb, ◌&&◌, ◌⊎◌, inl, inr, ℕ, ◌+◌, ◌-◌, ◌≤◌, ◌≡◌, refl, Bool, true, false, Option, none, some,
  if◌then◌else◌, min, arith,
}
use prometheist.Attention.Metadata.{derive_priority}
use prometheist.Attention.Scheduler.State.{AttentionTask, Scheduler}
use prometheist.Attention.Scheduler.Ranking.{due_after, service_due, effective_priority, is_queued}

due_later : (w : Option ℕ) (m n : ℕ) → m ≤ n → due_after w m ≡ true → due_after w n ≡ true
unfolding due_after
due_later none m n le h = h
due_later (some w) m n le h = ground arith

-- Numbers of priorities: a lower one is more urgent.
lower :
    (base guaranteed : ℕ) (queues early late : Bool)
    → (early ≡ true → late ≡ true)
    → (if queues then if late then min base guaranteed else base else base)
      ≤ (if queues then if early then min base guaranteed else base else base)
lower base guaranteed false early late h = omega arith
lower base guaranteed true false true h = omega arith
lower base guaranteed true false false h = omega arith
lower base guaranteed true true true h = omega arith
lower base guaranteed true true false h = absurd (cc (h refl))

upper :
    (base guaranteed : ℕ) (queues due : Bool)
    → (if queues then if due then min base guaranteed else base else base) ≤ base
upper base guaranteed false due = omega arith
upper base guaranteed true false = omega arith
upper base guaranteed true true = omega arith

bounded :
    (base guaranteed : ℕ) (queues due : Bool)
    → (queues && due) ≡ true
    → (if queues then if due then min base guaranteed else base else base) ≤ guaranteed
bounded base guaranteed true true h = omega arith
bounded base guaranteed true false h = absurd (cc h)
bounded base guaranteed false due h = absurd (cc h)

-- Whether the wait that is allowed, if any, is over.
abbrev pub is_over : Option ℕ → ℕ → ℕ → Bool
is_over none enqueued now = false
is_over (some wait) enqueued now = leb (enqueued + wait) now

over_due :
    (w : Option ℕ) (enqueued now : ℕ)
    → is_over w enqueued now ≡ true
    → due_after w (now - enqueued) ≡ true
unfolding due_after
over_due none enqueued now h = absurd (cc h)
over_due (some wait) enqueued now h = ground (arith, h)

overdue_cases :
    (base guaranteed : ℕ) (queues due over : Bool)
    → (over ≡ true → due ≡ true)
    → ((queues && over) ≡ false)
      ⊎ ((if queues then if due then min base guaranteed else base else base) ≤ guaranteed)
overdue_cases base guaranteed queues due false h = inl (ground arith)
overdue_cases base guaranteed false due true h = inl refl
overdue_cases base guaranteed true due true h =
    inr (bounded base guaranteed true due (ground (arith, h refl)))

-- The task is queued and has waited as long as its service class allows it to.
abbrev pub is_overdue : Scheduler → AttentionTask → ℕ → Bool
is_overdue s t now =
    is_queued t.status
    && is_over (s.service_guarantees t.metadata.service_class).max_wait_cycles t.enqueued_cycle now

module _ (s : Scheduler) (t : AttentionTask) where
  -- As the cycles go by the number of the effective priority of a task never rises, it is never
  -- above that of its criticality, and at a cycle at which the task is queued and has waited as
  -- long as its service class allows, it is not above the number that the class guarantees. A lower
  -- number is more urgent.
  pub effective_priority-ages :
      (now later : ℕ)
      → now ≤ later
      → (effective_priority s t later ≤ effective_priority s t now)
        × (effective_priority s t now ≤ derive_priority t.metadata)
        × ((is_overdue s t now ≡ false)
            ⊎ (effective_priority s t now
                ≤ (s.service_guarantees t.metadata.service_class).guaranteed_priority))
  unfolding effective_priority service_due
  effective_priority-ages now later le =
      let base = derive_priority t.metadata in
      let g = s.service_guarantees t.metadata.service_class in
      let due : ℕ → Bool = λ n. due_after g.max_wait_cycles (n - t.enqueued_cycle) in
      (
        lower base g.guaranteed_priority (is_queued t.status) (due now) (due later) (
            due_later g.max_wait_cycles (now - t.enqueued_cycle) (later - t.enqueued_cycle)
              (omega (arith, le))),
        upper base g.guaranteed_priority (is_queued t.status) (due now),
        overdue_cases base g.guaranteed_priority (is_queued t.status) (due now)
            (is_over g.max_wait_cycles t.enqueued_cycle now)
            (over_due g.max_wait_cycles t.enqueued_cycle now),
      )
