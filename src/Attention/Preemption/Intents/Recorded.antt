-- ===== src/Attention/Preemption/Intents/Recorded.antt =====
-- The event that records an acknowledgement.
use prometheist.Base.{
  ℕ, ◌≡◌, refl, sym, subst, true, false, some, List, [], ◌∷◌, String, ok, length, contains, keep,
  All, is_subset-contains, ◌==◌, ℕ_eq, String_eq, Bool-cases, inl, inr, arith, nat_eq_iff,
  ok-injective,
}
use prometheist.Attention.Resources.{Uuid}
use prometheist.Attention.Preemption.Intents.{
  PendingPreemption, checkpoint_acknowledged, validate_intent, validate_event, misplaced_checkpoint,
  event_of, make_preemption_event, acknowledge, acknowledge_match, acknowledge_pending,
}
use prometheist.Attention.Preemption.Intents.Acknowledged.{
  IsValid, validate_intent-valid, validate_intent-IsValid, acknowledge-IsValid, acknowledge-gates,
}

-- The reason that the method gives.
abbrev acknowledgement : String
acknowledgement = "checkpoint-only victim acknowledged a safe boundary"

-- An intent that the validator accepts and that waits for `k`.
abbrev Waits : ℕ → PendingPreemption → Type 0
Waits k p = (contains p.checkpoint_victim_task_ids k ≡ true) × IsValid p

waiting :
    (k : ℕ) (ps : List PendingPreemption)
    → All (λ p. validate_intent p ≡ ok p) ps
    → All (Waits k) (keep (λ p. contains p.checkpoint_victim_task_ids k) ps)
unfolding keep
waiting k [] h = tt
waiting k (p ∷ ps) h = elim (Bool-cases (contains p.checkpoint_victim_task_ids k)) [
  | inl e ↦ rw e ((e, validate_intent-IsValid p p h.0), waiting k ps h.1)
  | inr e ↦ rw e (waiting k ps h.1)
]

module _ ⦃u : Uuid⦄ (cycle sequence : ℕ) where
  victim :
      (k : ℕ) (p : PendingPreemption)
      → Waits k p
      → misplaced_checkpoint checkpoint_acknowledged (some k) p.victim_task_ids ≡ false
  unfolding misplaced_checkpoint
  victim k p (gate, v) =
      rw (is_subset-contains p.checkpoint_victim_task_ids p.victim_task_ids k v.selected gate) refl

  event_accepted :
      (k : ℕ) (p : PendingPreemption)
      → Waits k p
      → make_preemption_event p checkpoint_acknowledged cycle sequence acknowledgement (some k)
        ≡ ok (event_of p checkpoint_acknowledged cycle sequence acknowledgement (some k))
  unfolding make_preemption_event validate_event
  event_accepted k p w =
      let v = w.1 in
      let paired : (length p.victim_task_ids == length p.victim_assignment_ids) ≡ true = ground (
        arith,
        v.paired,
        nat_eq_iff (length p.victim_task_ids) (length p.victim_assignment_ids),
        nat_eq_iff (length p.victim_assignment_ids) (length p.victim_task_ids),
      ) in
      rw (v.victims, v.distinct, v.assignments, paired, v.apart, victim k p w) refl

  acknowledge-Waits : (k : ℕ) (p : PendingPreemption) → Waits k p → Waits k (acknowledge k p)
  acknowledge-Waits k p (gate, v) = (
    subst (λ (ks : List ℕ). contains ks k ≡ true) (sym (acknowledge-gates k p)) gate,
    acknowledge-IsValid k p gate v,
  )

  -- The intent is accepted, and so is the event of the acknowledgement.
  abbrev pub IsRecorded : ℕ → PendingPreemption → Type 0
  IsRecorded k q =
      (validate_intent q ≡ ok q)
      × (make_preemption_event q checkpoint_acknowledged cycle sequence acknowledgement (some k)
          ≡ ok (event_of q checkpoint_acknowledged cycle sequence acknowledgement (some k)))

  match-IsRecorded :
      (k : ℕ) (ms : List PendingPreemption) (q : PendingPreemption)
      → All (Waits k) ms
      → acknowledge_match k ms ≡ ok q
      → IsRecorded k q
  match-IsRecorded k [] q w h = absurd (cc h)
  match-IsRecorded k (p ∷ []) q w h =
      let after = acknowledge-Waits k p w.0 in
      subst (IsRecorded k) (ok-injective h)
        (validate_intent-valid (acknowledge k p) after.1, event_accepted k (acknowledge k p) after)
  match-IsRecorded k (p ∷ (r ∷ ms)) q w h = absurd (cc h)

  -- Where every pending intent is one that its validator accepts, and a task acknowledges a
  -- checkpoint without an error, the intent that `checkpoint_pending_preemption` stores is accepted
  -- by the validator again, and so is the event that it makes of the acknowledgement, at any cycle
  -- and epoch sequence.
  pub acknowledge_pending-IsRecorded :
      (k : ℕ) (pending : List PendingPreemption) (q : PendingPreemption)
      → All (λ p. validate_intent p ≡ ok p) pending
      → acknowledge_pending k pending ≡ ok q
      → IsRecorded k q
  unfolding acknowledge_pending
  acknowledge_pending-IsRecorded k pending q valid h =
      match-IsRecorded k (keep (λ p. contains p.checkpoint_victim_task_ids k) pending) q
        (waiting k pending valid) h
