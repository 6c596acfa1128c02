-- ===== src/Attention/Admission/Capacity.antt =====
-- What a plan of `reconcile_resource_admission` guarantees.
use prometheist.Base.{
  guarded, ℕ, ◌≤◌, ◌≡◌, refl, sym, ap, subst, ◌∙◌, true, some, List, [], ◌++◌, String, Result, ok,
  ℕ_ordered, String_ordered, pair_ordered, String_eq, err, >>=-eq-ok, if◌then◌else◌, sum_of,
  sum_of-sorted_by, sorted_by, arith, contains, ◌==◌, ℕ_eq, ◌||◌, not, keep,
}
use prometheist.Attention.Resources.{
  Uuid, ResourceClass, ResourceClass_eq, ResourceAdmissionPlan, validate_admission_plan,
  resource_reservation_sort_key,
}
use prometheist.Attention.Scheduler.{Scheduler, ids_of, ranked_dependency_satisfied}
use prometheist.Attention.Allocation.{units_at}
use prometheist.Attention.Allocation.Contract.{units_in}
use prometheist.Attention.Admission.Defs.{
  Round, admit_all, candidate_ids, capacity_of, enabled_resources, admission_plan,
  reconcile_resource_admission, active_first, is_active,
}
use prometheist.Attention.Admission.Rounds.{Fits, demand_of, admit_all-Fits, admit_all-active}

abbrev empty_round : Scheduler → Round
empty_round s = record {
  admitted = [];
  unadmitted = [];
  reservations = [];
  remaining = capacity_of (enabled_resources s);
}

abbrev plan_of : Round → ResourceAdmissionPlan
plan_of r = record {
  admitted_task_ids = r.admitted;
  unadmitted_task_ids = r.unadmitted;
  reservations = sorted_by resource_reservation_sort_key r.reservations;
}

-- The candidates that are not active.
abbrev others : Scheduler → List ℕ
others s =
    keep (λ k. not (is_active s.active_task_id k)) (ids_of (ranked_dependency_satisfied s s.cycle))

-- A plan that the validator accepts is passed on.
validated :
    (plan : ResourceAdmissionPlan) {out : ResourceAdmissionPlan}
    → validate_admission_plan plan ≡ ok out
    → plan ≡ out
unfolding validate_admission_plan
validated plan h = ground arith

module _ ⦃u : Uuid⦄ (s : Scheduler) where
  planned_of :
      (r : Result ResourceAdmissionPlan) {plan : ResourceAdmissionPlan}
      → (elim r as (λ _. Result ResourceAdmissionPlan × Scheduler) [
        | err e ↦ (err e, s)
        | ok p ↦ (
          ok p,
          record s {
            admitted_task_ids = p.admitted_task_ids;
            resource_reservations = p.reservations;
          },
        )
      ]).0
        ≡ ok plan
      → r ≡ ok plan
  planned_of (ok p) h = h
  planned_of (err e) h = absurd (cc h)

  planned :
      (plan : ResourceAdmissionPlan)
      → (reconcile_resource_admission s).0 ≡ ok plan
      → (r : Round) × (admit_all s (candidate_ids s) (empty_round s) ≡ ok r) × (plan_of r ≡ plan)
  unfolding reconcile_resource_admission admission_plan
  planned plan h =
      let (r, run, checked) =
        >>=-eq-ok (admit_all s (candidate_ids s) (empty_round s))
          (λ r. validate_admission_plan (plan_of r))
          (guarded (s.has_current_epoch || s.has_pending_plan) _ _
            (guarded s.resource_safety_required _ _ (planned_of (admission_plan s) h))) in
      (r, run, validated (plan_of r) checked)

  start-Fits : Fits s (capacity_of (enabled_resources s)) (empty_round s)
  unfolding units_at units_in sum_of
  start-Fits = record { conserved = λ k. ground arith; exact = λ c. refl }

  -- The reservations of a plan that `reconcile_resource_admission` returns come to no more than the
  -- admissible capacity of each pool that is enabled, and to nothing elsewhere.
  pub admission_within_capacity :
      (plan : ResourceAdmissionPlan) (k : String)
      → (reconcile_resource_admission s).0 ≡ ok plan
      → units_at k plan.reservations ≤ capacity_of (enabled_resources s) k
  unfolding units_at
  admission_within_capacity plan k h =
      let (r, run, e) = planned plan h in
      let f =
        admit_all-Fits s (capacity_of (enabled_resources s)) (candidate_ids s) (empty_round s) r
          start-Fits run in
      subst (λ p. units_at k p.reservations ≤ capacity_of (enabled_resources s) k) e
        (omega (
          arith,
          f.conserved k,
          sum_of-sorted_by resource_reservation_sort_key
              (λ v. if v.resource_id == k then v.units else 0) r.reservations,
        ))

  -- The reservations of a plan that `reconcile_resource_admission` returns come to exactly what the
  -- contracts of the admitted tasks ask for, in each class.
  pub admission_exact :
      (plan : ResourceAdmissionPlan) (c : ResourceClass)
      → (reconcile_resource_admission s).0 ≡ ok plan
      → units_in c plan.reservations ≡ sum_of (demand_of s c) plan.admitted_task_ids
  unfolding units_in
  admission_exact plan c h =
      let (r, run, e) = planned plan h in
      let f =
        admit_all-Fits s (capacity_of (enabled_resources s)) (candidate_ids s) (empty_round s) r
          start-Fits run in
      subst (λ p. units_in c p.reservations ≡ sum_of (demand_of s c) p.admitted_task_ids) e
        (sum_of-sorted_by resource_reservation_sort_key
            (λ v. if v.resource_class == c then v.units else 0) r.reservations
          ∙ f.exact c)

  -- A plan that `reconcile_resource_admission` returns admits the active task: where its contract
  -- does not fit, the method raises.
  pub admission_keeps_active :
      (plan : ResourceAdmissionPlan) (a : ℕ)
      → s.active_task_id ≡ some a
      → (reconcile_resource_admission s).0 ≡ ok plan
      → contains plan.admitted_task_ids a ≡ true
  unfolding candidate_ids active_first
  admission_keeps_active plan a e h =
      let (r, run, same) = planned plan h in
      subst (λ p. contains p.admitted_task_ids a ≡ true) same
        (admit_all-active s (capacity_of (enabled_resources s)) a (others s) (empty_round s) r e
          (ap (λ o. admit_all s (active_first o ++ others s) (empty_round s)) (sym e) ∙ run))
