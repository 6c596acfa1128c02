-- ===== src/Attention/Assignments/Plans.antt =====
-- What a plan that its validator accepts guarantees.
use prometheist.Base.{
  guarded, is_subset_of, All-imp, ℕ, ◌≡◌, refl, ap, subst, Bool, true, false, not, List, [], ◌∷◌,
  ◌++◌, String, Result, Error, ok, ◌>>◌, >>=-eq-ok, raise_if, ok-injective, sorted_by, All,
  contains, contains-append, is_subset, is_subset-contains, is_disjoint, is_disjoint-contains, ℕ_eq,
  nat_eq_iff, arith, pair_ordered, ℕ_ordered,
}
use prometheist.Attention.Preemption.Intents.{PendingPreemption}
use prometheist.Attention.Assignments.Defs.{SchedulingEpochPlan, pending_preemption_sort_key}
use prometheist.Attention.Assignments.Checks.{
  collect_pending, check_pending, check_identities, observes, validate_complete_plan,
}

snoc_own : (ks : List ℕ) (k : ℕ) → contains (ks ++ k ∷ []) k ≡ true
unfolding contains
snoc_own ks k = ground (arith, contains-append ks (k ∷ []) k, nat_eq_iff k k)

-- The targets and victims that the loop collects are those of the intents, behind those it had.
collected :
    (ps : List PendingPreemption) (targets victims ts vs : List ℕ)
    → collect_pending ps targets victims ≡ ok (ts, vs)
    → ((k : ℕ) → contains targets k ≡ true → contains ts k ≡ true)
      × ((k : ℕ) → contains victims k ≡ true → contains vs k ≡ true)
      × All
          (λ p. (contains ts p.target_task_id ≡ true) × (is_subset p.victim_task_ids vs ≡ true))
          ps
unfolding collect_pending
collected [] targets victims ts vs h = (
  λ k m. subst (λ xs. contains xs k ≡ true) (ap (λ r. r.0) (ok-injective h)) m,
  λ k m. subst (λ xs. contains xs k ≡ true) (ap (λ r. r.1) (ok-injective h)) m,
  tt,
)
collected (p ∷ ps) targets victims ts vs h =
    let (keeps_t, keeps_v, rest) =
      collected ps (targets ++ p.target_task_id ∷ []) (victims ++ p.victim_task_ids) ts vs (
        guarded (not (is_disjoint p.victim_task_ids victims)) _ _
          (guarded (contains targets p.target_task_id) _ _ h)) in
    (
      λ k m. keeps_t k (ground (arith, contains-append targets (p.target_task_id ∷ []) k, m)),
      λ k m. keeps_v k (ground (arith, contains-append victims p.victim_task_ids k, m)),
      (
        (
          keeps_t p.target_task_id (snoc_own targets p.target_task_id),
          is_subset_of p.victim_task_ids vs
              (λ k m. keeps_v k (ground (arith, contains-append victims p.victim_task_ids k, m))),
        ),
        rest,
      ),
    )

-- A target stays unadmitted, and the victims stay admitted.
abbrev pub Respects : List ℕ → PendingPreemption → Type 0
Respects admitted p =
    (contains admitted p.target_task_id ≡ false) × (is_subset p.victim_task_ids admitted ≡ true)

guard_passed :
    (b : Bool) (e : Error) {A : Type 0} (rest : Result A) {out : A}
    → (raise_if b e >> rest) ≡ ok out
    → (not b ≡ true) × (rest ≡ ok out)
guard_passed true e rest h = absurd (cc h)
guard_passed false e rest h = (refl, h)

last_guard : (b : Bool) (e : Error) {v : Unit {0}} → raise_if (not b) e ≡ ok v → b ≡ true
last_guard true e h = refl
last_guard false e h = absurd (cc h)

not-not : (b : Bool) → not (not b) ≡ true → b ≡ true
not-not true h = refl
not-not false h = absurd (cc h)

checked :
    (plan : SchedulingEpochPlan) (pending : List PendingPreemption) {v : Unit {0}}
    → is_disjoint plan.admitted_task_ids plan.unadmitted_task_ids ≡ true
    → check_pending plan pending ≡ ok v
    → All (Respects plan.admitted_task_ids) pending
unfolding check_pending
checked plan pending apart h =
    let ((ts, vs), loop, h1) = >>=-eq-ok (collect_pending pending [] []) _ h in
    let (_, h2) = guard_passed (not (is_disjoint ts vs)) _ _ h1 in
    let (sub, h3) = guard_passed (not (is_subset ts plan.unadmitted_task_ids)) _ _ h2 in
    let within = last_guard (is_subset vs plan.admitted_task_ids) _ h3 in
    let (_, _, all_in) = collected pending [] [] ts vs loop in
    All-imp _ (Respects plan.admitted_task_ids)
      (λ p (t, v).
        respects p
          (is_disjoint-contains plan.admitted_task_ids plan.unadmitted_task_ids p.target_task_id
            apart)
          (is_subset-contains ts plan.unadmitted_task_ids p.target_task_id (not-not _ sub) t)
          (is_subset_of p.victim_task_ids plan.admitted_task_ids (λ k m.
            is_subset-contains vs plan.admitted_task_ids k within
              (is_subset-contains p.victim_task_ids vs k v m))))
      pending all_in
  where
    respects :
        (p : PendingPreemption)
        → (contains plan.admitted_task_ids p.target_task_id ≡ true
            → contains plan.unadmitted_task_ids p.target_task_id ≡ false)
        → contains plan.unadmitted_task_ids p.target_task_id ≡ true
        → is_subset p.victim_task_ids plan.admitted_task_ids ≡ true
        → Respects plan.admitted_task_ids p
    respects p f m sub = (
      refuted (contains plan.admitted_task_ids p.target_task_id)
          (contains plan.unadmitted_task_ids p.target_task_id) f m,
      sub,
    )
      where
        refuted : (a b : Bool) → (a ≡ true → b ≡ false) → b ≡ true → a ≡ false
        refuted true b f m = absurd (cc (f refl))
        refuted false b f m = refl

module _ (intent_key : PendingPreemption → String) where
  identities-disjoint :
      (plan : SchedulingEpochPlan) (pending : List PendingPreemption) {v : Unit {0}}
      → check_identities intent_key plan pending ≡ ok v
      → is_disjoint plan.admitted_task_ids plan.unadmitted_task_ids ≡ true
  unfolding check_identities
  identities-disjoint plan pending h = ground arith

  -- In a plan that the validator accepts, the target of each pending preemption is not admitted and
  -- all of its victims are, whatever the JSON text of an intent is.
  pub validate_complete_plan-Respects :
      (plan accepted : SchedulingEpochPlan)
      → validate_complete_plan intent_key plan ≡ ok accepted
      → All (Respects accepted.admitted_task_ids) accepted.pending_preemptions
  unfolding validate_complete_plan
  validate_complete_plan-Respects plan accepted h =
      let pending = sorted_by pending_preemption_sort_key plan.pending_preemptions in
      let (x, first, h1) = >>=-eq-ok (check_identities intent_key plan pending) _ h in
      let (y, second, h2) = >>=-eq-ok (check_pending plan pending) _ h1 in
      let (_, h3) =
        guard_passed
          (not (observes plan.epoch plan.epoch.resource_observation_id plan.resource_observation)) _
          _ h2 in
      subst (λ p. All (Respects p.admitted_task_ids) p.pending_preemptions) (ok-injective h3)
        (checked plan pending (identities-disjoint plan pending first) second)
