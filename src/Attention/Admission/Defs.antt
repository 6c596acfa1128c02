-- ===== src/Attention/Admission/Defs.antt =====
-- attention.py: `execution_resources` and `reconcile_resource_admission`.
use prometheist.Base.{
  ℕ, Bool, false, not, ◌||◌, Option, none, some, List, [], ◌∷◌, ◌++◌, Result, ok, err,
  runtime_error, key_error, ◌>>=◌, ◌>>◌, raise_if, if◌then◌else◌, keep, sorted_by, ◌==◌, ℕ_eq,
  String_eq, ℕ_ordered, String_ordered, pair_ordered,
}
use prometheist.Attention.Resources.{
  Uuid, ExecutionResource, ResourceReservation, ResourceAdmissionPlan, admissible_capacity,
  validate_admission_plan, execution_resource_sort_key, resource_reservation_sort_key,
}
use prometheist.Attention.Metadata.{quantitative_resource_requirements}
use prometheist.Attention.Scheduler.{
  AttentionTask, Scheduler, Action, find_task, ids_of, ranked_dependency_satisfied,
}
use prometheist.Attention.Allocation.{Capacity, allocate}

-- execution_resources(enabled_only=True)
unfoldable pub enabled_resources : Scheduler → List ExecutionResource
enabled_resources s = sorted_by execution_resource_sort_key (keep (λ r. r.enabled) s.resources)

-- {resource.resource_id: resource.admissible_capacity ...}, and 0 at a name that it lacks
unfoldable pub capacity_of : List ExecutionResource → Capacity
capacity_of [] k = 0
capacity_of (r ∷ rs) k = if r.resource_id == k then admissible_capacity r else capacity_of rs k

unfoldable pub is_active : Option ℕ → ℕ → Bool
is_active none k = false
is_active (some a) k = a == k

unfoldable pub active_first : Option ℕ → List ℕ
active_first none = []
active_first (some a) = a ∷ []

unfoldable pub candidate_ids : Scheduler → List ℕ
unfolding active_first is_active
candidate_ids s =
    active_first s.active_task_id
    ++ keep (λ k. not (is_active s.active_task_id k))
        (ids_of (ranked_dependency_satisfied s s.cycle))

-- What the loop over the candidates has made so far.
pub record Round : Type 0 where
  pub admitted : List ℕ
  pub unadmitted : List ℕ
  pub reservations : List ResourceReservation
  pub remaining : Capacity

module _ ⦃u : Uuid⦄ (s : Scheduler) where
  -- One candidate, by what its allocation comes to.
  unfoldable pub admit : ℕ → Round → Option (List ResourceReservation × Capacity) → Result Round
  unfolding is_active
  admit k r none =
      if is_active s.active_task_id k
      then err (runtime_error "Active task resource requirements exceed the safe capacity envelope")
      else ok (record r { unadmitted = r.unadmitted ++ k ∷ [] })
  admit k r (some (made, left)) = ok (record {
    admitted = r.admitted ++ k ∷ [];
    unadmitted = r.unadmitted;
    reservations = r.reservations ++ made;
    remaining = left;
  })

  unfoldable pub consider : ℕ → Round → Option AttentionTask → Result Round
  unfolding admit
  consider k r none = err key_error
  consider k r (some t) = admit k r (
      allocate t.task_id (enabled_resources s) (quantitative_resource_requirements t.metadata)
        r.remaining)

  unfoldable pub admit_all : List ℕ → Round → Result Round
  unfolding consider
  admit_all [] r = ok r
  admit_all (k ∷ ks) r = do r' ← consider k r (find_task s.tasks k); admit_all ks r'

  unfoldable pub admission_plan : Result ResourceAdmissionPlan
  unfolding enabled_resources capacity_of candidate_ids admit_all
  admission_plan = do
    raise_if s.resource_safety_required
        (runtime_error "Host-safe admission requires an observed scheduling epoch")
    raise_if (s.has_current_epoch || s.has_pending_plan) (
        runtime_error
          "Reservation-only reconciliation is unavailable after epoch scheduling begins")
    r ← admit_all (candidate_ids s) (record {
      admitted = [];
      unadmitted = [];
      reservations = [];
      remaining = capacity_of (enabled_resources s);
    })
    validate_admission_plan (record {
      admitted_task_ids = r.admitted;
      unadmitted_task_ids = r.unadmitted;
      reservations = sorted_by resource_reservation_sort_key r.reservations;
    })

module _ ⦃u : Uuid⦄ where
  -- The plan's reservations are a dictionary by their identifiers, which the plan's validator has
  -- found to be distinct.
  unfoldable pub reconcile_resource_admission : Action ResourceAdmissionPlan
  unfolding admission_plan
  reconcile_resource_admission s = elim (admission_plan s) [
    | err e ↦ (err e, s)
    | ok plan ↦ (
      ok plan,
      record s {
        admitted_task_ids = plan.admitted_task_ids;
        resource_reservations = plan.reservations;
      },
    )
  ]
