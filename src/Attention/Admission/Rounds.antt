-- ===== src/Attention/Admission/Rounds.antt =====
-- What the loop of `reconcile_resource_admission` keeps, candidate by candidate.
use prometheist.Base.{
  ℕ, ◌+◌, ◌≡◌, refl, ap, subst, ◌∙◌, true, Option, none, some, List, [], ◌∷◌, String, ok, >>=-eq-ok,
  ok-injective, sum_of, sum_of-append, arith, contains, contains-append, ℕ_eq, Option-cases,
  beq_refl, Bool-cases, inl, inr,
}
use prometheist.Attention.Resources.{Uuid, ResourceClass, ResourceReservation}
use prometheist.Attention.Metadata.{quantitative_resource_requirements}
use prometheist.Attention.Scheduler.{AttentionTask, Scheduler, find_task}
use prometheist.Attention.Allocation.{Capacity, allocate, units_at}
use prometheist.Attention.Allocation.Contract.{
  units_in, required_in, units_at-append, units_in-append, allocate_conserves, allocate_exact,
}
use prometheist.Attention.Admission.Defs.{
  Round, is_active, admit, consider, admit_all, enabled_resources,
}

-- What the contract of task `k` asks for of one class.
unfoldable pub demand_of : Scheduler → ResourceClass → ℕ → ℕ
demand_of s c k = elim (find_task s.tasks k) [
  | none ↦ 0
  | some t ↦ required_in c (quantitative_resource_requirements t.metadata)
]

-- The reservations fit what there was, and are what the admitted tasks ask for.
pub record Fits (s : Scheduler) (free : Capacity) (r : Round) : Type 0 where
  pub conserved : (k : String) → r.remaining k + units_at k r.reservations ≡ free k
  pub exact : (c : ResourceClass) → units_in c r.reservations ≡ sum_of (demand_of s c) r.admitted

module _ ⦃u : Uuid⦄ (s : Scheduler) (free : Capacity) where
  demand_at :
      (c : ResourceClass) (k : ℕ) (t : AttentionTask)
      → find_task s.tasks k ≡ some t
      → demand_of s c k ≡ required_in c (quantitative_resource_requirements t.metadata)
  unfolding demand_of
  demand_at c k t found = rw (found, demand_of) refl

  admit-Fits :
      (k : ℕ) (r r' : Round) (t : AttentionTask) (o : Option (List ResourceReservation × Capacity))
      → find_task s.tasks k ≡ some t
      → allocate t.task_id
          (enabled_resources s)
          (quantitative_resource_requirements t.metadata)
          r.remaining
        ≡ o
      → Fits s free r
      → admit s k r o ≡ ok r'
      → Fits s free r'
  unfolding admit sum_of
  admit-Fits k r r' t none found e f h = elim (Bool-cases (is_active s.active_task_id k)) [
    | inl active ↦ absurd (cc (rw active at h))
    | inr passive ↦
        subst (Fits s free) (ok-injective (rw passive at h))
          (record { conserved = f.conserved; exact = f.exact })
  ]
  admit-Fits k r r' t (some (made, left)) found e f h =
      subst (Fits s free) (ok-injective h) (record {
        conserved = λ j. omega (
          arith,
          f.conserved j,
          units_at-append j r.reservations made,
          allocate_conserves t.task_id (enabled_resources s)
              (quantitative_resource_requirements t.metadata) r.remaining e j,
        );
        exact = λ c. omega (
          arith,
          f.exact c,
          units_in-append c r.reservations made,
          allocate_exact t.task_id (enabled_resources s)
              (quantitative_resource_requirements t.metadata) r.remaining e c,
          sum_of-append (demand_of s c) r.admitted (k ∷ []),
          demand_at c k t found,
        );
      })

  consider-Fits :
      (k : ℕ) (r r' : Round)
      → Fits s free r
      → consider s k r (find_task s.tasks k) ≡ ok r'
      → Fits s free r'
  unfolding consider
  consider-Fits k r r' f h = elim (Option-cases (find_task s.tasks k)) [
    | inl gone ↦ absurd (cc (rw gone at h))
    | inr (t, found) ↦ admit-Fits k r r' t _ found refl f (rw found at h)
  ]

  pub admit_all-Fits :
      (ks : List ℕ) (r r' : Round) → Fits s free r → admit_all s ks r ≡ ok r' → Fits s free r'
  unfolding admit_all
  admit_all-Fits [] r r' f h = subst (Fits s free) (ok-injective h) f
  admit_all-Fits (k ∷ ks) r r' f h =
      let (r'', first, rest) =
        >>=-eq-ok (consider s k r (find_task s.tasks k)) (λ r''. admit_all s ks r'') h in
      admit_all-Fits ks r'' r' (consider-Fits k r r'' f first) rest

  -- An admitted task stays admitted.
  admit-keeps :
      (j k : ℕ) (r r' : Round) (o : Option (List ResourceReservation × Capacity))
      → contains r.admitted j ≡ true
      → admit s k r o ≡ ok r'
      → contains r'.admitted j ≡ true
  unfolding admit contains
  admit-keeps j k r r' none m h = elim (Bool-cases (is_active s.active_task_id k)) [
    | inl active ↦ absurd (cc (rw active at h))
    | inr passive ↦ subst (λ v. contains v.admitted j ≡ true) (ok-injective (rw passive at h)) m
  ]
  admit-keeps j k r r' (some (made, left)) m h =
      subst (λ v. contains v.admitted j ≡ true) (ok-injective h)
        (ground (arith, contains-append r.admitted (k ∷ []) j, m))

  -- The active task is admitted, or the loop raises.
  admit-active :
      (a : ℕ) (r r' : Round) (o : Option (List ResourceReservation × Capacity))
      → s.active_task_id ≡ some a
      → admit s a r o ≡ ok r'
      → contains r'.admitted a ≡ true
  unfolding admit contains is_active
  admit-active a r r' none e h = absurd (cc (rw (ap (λ x. is_active x a) e ∙ beq_refl a) at h))
  admit-active a r r' (some (made, left)) e h =
      subst (λ v. contains v.admitted a ≡ true) (ok-injective h)
        (ground (arith, contains-append r.admitted (a ∷ []) a, beq_refl a))

  consider-some :
      (k : ℕ) (r r' : Round)
      → consider s k r (find_task s.tasks k) ≡ ok r'
      → (o : Option (List ResourceReservation × Capacity)) × (admit s k r o ≡ ok r')
  unfolding consider
  consider-some k r r' h = elim (Option-cases (find_task s.tasks k)) [
    | inl gone ↦ absurd (cc (rw gone at h))
    | inr (t, found) ↦ (_, rw found at h)
  ]

  admit_all-keeps :
      (j : ℕ) (ks : List ℕ) (r r' : Round)
      → contains r.admitted j ≡ true
      → admit_all s ks r ≡ ok r'
      → contains r'.admitted j ≡ true
  unfolding admit_all
  admit_all-keeps j [] r r' m h = subst (λ v. contains v.admitted j ≡ true) (ok-injective h) m
  admit_all-keeps j (k ∷ ks) r r' m h =
      let (r'', first, rest) =
        >>=-eq-ok (consider s k r (find_task s.tasks k)) (λ r''. admit_all s ks r'') h in
      let (o, step) = consider-some k r r'' first in
      admit_all-keeps j ks r'' r' (admit-keeps j k r r'' o m step) rest

  pub admit_all-active :
      (a : ℕ) (ks : List ℕ) (r r' : Round)
      → s.active_task_id ≡ some a
      → admit_all s (a ∷ ks) r ≡ ok r'
      → contains r'.admitted a ≡ true
  unfolding admit_all
  admit_all-active a ks r r' e h =
      let (r'', first, rest) =
        >>=-eq-ok (consider s a r (find_task s.tasks a)) (λ r''. admit_all s ks r'') h in
      let (o, step) = consider-some a r r'' first in
      admit_all-keeps a ks r'' r' (admit-active a r r'' o e step) rest
