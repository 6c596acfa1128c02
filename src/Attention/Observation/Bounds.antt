-- ===== src/Attention/Observation/Bounds.antt =====
-- How much new work an observation can admit, over all the pools of one host.
use prometheist.Base.{
  ◌*◌, >>=-eq-ok, guarded, overflow_error, ℕ, ◌+◌, ◌-◌, ◌≤◌, ◌≡◌, refl, subst, sym, Bool, true,
  false, not, ◌&&◌, ◌||◌, Option, none, some, List, [], ◌∷◌, map, String, ok, ltb, is_empty,
  contains, no_duplicates, keep, sum_of, sorted_by, All-sorted_by, All-imp, ◌==◌, ℕ_eq, String_eq,
  ℕ_ordered, String_ordered, pair_ordered, arith, Bool-cases, inl, inr, All,
}
use prometheist.Attention.Resources.{
  Uuid, ResourceClass, ResourceClass_eq, cpu_general, memory_ram, llm_inference, database,
  filesystem_io, network_io, ExecutionResource, ResourceReservation, execution_resource_sort_key,
}
use prometheist.Attention.Observation.Defs.{
  ResourceSafetyPolicy, HostResourceMetrics, ObservedResourceCapacity, ResourceObservationSnapshot,
  available_for_new_work, is_some, capacity_sort_key, validate_snapshot,
}
use prometheist.Attention.Observation.Build.{
  max_instant, observe_pools, host_cpu_resource_id, host_memory_resource_id, local_llm_resource_id,
  idle_units, host_reading, llm_reading, other_reading, read_pool, committed_units_of,
  total_llm_committed, sound_metrics, probe_errors_of, envelope_of, build_resource_observation,
}
use prometheist.Attention.Observation.Envelope.{IsSound, envelopes, observe_pools_returned}
use prometheist.Attention.Observation.Returns.{sorted_by-envelopes}

module _ {ℓ} {A : Type ℓ} (f : A → ℕ) (q : A → Bool) (name : A → String) (k : String) (b : ℕ) where
  -- Of the elements that pass the test, the one with the name has at most b, the others nothing.
  abbrev pub IsOnly : A → Type 0
  IsOnly x = q x ≡ true → ((name x == k) ≡ true → f x ≤ b) × ((name x == k) ≡ false → f x ≡ 0)

  sum_of_absent :
      (xs : List A) → contains (map name xs) k ≡ false → All IsOnly xs → sum_of f (keep q xs) ≡ 0
  unfolding contains sum_of keep
  sum_of_absent [] h s = refl
  sum_of_absent (x ∷ xs) h s = ground (arith, s.0, sum_of_absent xs)

  -- As names are distinct, there is one such element at most.
  pub sum_of_only :
      (xs : List A) → no_duplicates (map name xs) ≡ true → All IsOnly xs → sum_of f (keep q xs) ≤ b
  unfolding no_duplicates sum_of keep
  sum_of_only [] d s = omega arith
  sum_of_only (x ∷ xs) d s = elim (Bool-cases (name x == k)) [
    | inl e ↦ ground (arith, e, s.0, (String_eq.beq_iff (name x) k).0 e, sum_of_absent xs)
    | inr e ↦ ground (arith, e, s.0, sum_of_only xs)
  ]

-- The names of the host's pools are kept for pools of their class.
abbrev pub is_named : ExecutionResource → Bool
is_named r =
    (not (r.resource_id == host_cpu_resource_id) || r.resource_class == cpu_general)
    && (not (r.resource_id == host_memory_resource_id) || r.resource_class == memory_ram)

-- The pools of a class.
abbrev pub memory_pool : ObservedResourceCapacity → Bool
memory_pool c = c.resource_class == memory_ram

abbrev pub cpu_pool : ObservedResourceCapacity → Bool
cpu_pool c = c.resource_class == cpu_general

abbrev pub llm_pool : ObservedResourceCapacity → Bool
llm_pool c = c.resource_class == llm_inference

abbrev pub new_work : (ObservedResourceCapacity → Bool) → List ObservedResourceCapacity → ℕ
new_work q cs = sum_of available_for_new_work (keep q cs)

abbrev pub measured_memory : Option HostResourceMetrics → ℕ
measured_memory none = 0
measured_memory (some m) = m.memory_available_mib

abbrev pub measured_idle : ResourceSafetyPolicy → Option HostResourceMetrics → ℕ
measured_idle p none = 0
measured_idle p (some m) = idle_units p m

one_class :
    (c : ResourceClass)
    → ((c == cpu_general) ≡ true → ((c == memory_ram) ≡ false) × ((c == llm_inference) ≡ false))
      × ((c == memory_ram) ≡ true → (c == llm_inference) ≡ false)
one_class cpu_general = (λ h. (refl, refl), λ h. refl)
one_class memory_ram = (λ h. absurd (cc h), λ h. refl)
one_class llm_inference = (λ h. absurd (cc h), λ h. absurd (cc h))
one_class database = (λ h. absurd (cc h), λ h. absurd (cc h))
one_class filesystem_io = (λ h. absurd (cc h), λ h. absurd (cc h))
one_class network_io = (λ h. absurd (cc h), λ h. absurd (cc h))

module _ (p : ResourceSafetyPolicy) (sample : Option HostResourceMetrics)
    (rs : List ResourceReservation) where
  abbrev envelope : ExecutionResource → ℕ → ObservedResourceCapacity
  envelope r budget =
      let committed = committed_units_of rs r.resource_id in
      envelope_of r committed (read_pool p sample r committed budget)

  abbrev IsOnlyMemory : ObservedResourceCapacity → Type 0
  IsOnlyMemory =
      IsOnly available_for_new_work memory_pool (λ c. c.resource_id) host_memory_resource_id
        (measured_memory sample)

  abbrev IsOnlyCpu : ObservedResourceCapacity → Type 0
  IsOnlyCpu =
      IsOnly available_for_new_work cpu_pool (λ c. c.resource_id) host_cpu_resource_id
        (measured_idle p sample)

  abbrev IsOnlyLlm : ℕ → ObservedResourceCapacity → Type 0
  IsOnlyLlm = IsOnly available_for_new_work llm_pool (λ c. c.resource_id) local_llm_resource_id

  memory_only :
      (r : ExecutionResource) (budget : ℕ) → is_named r ≡ true → IsOnlyMemory (envelope r budget)
  unfolding read_pool host_reading llm_reading other_reading available_for_new_work
  memory_only r budget named h = ground (arith, one_class r.resource_class)

  cpu_only :
      (r : ExecutionResource) (budget : ℕ) → is_named r ≡ true → IsOnlyCpu (envelope r budget)
  unfolding read_pool host_reading llm_reading other_reading available_for_new_work
  cpu_only r budget named h = ground (arith, one_class r.resource_class)

  llm_only :
      (r : ExecutionResource) (budget limit : ℕ)
      → is_named r ≡ true
      → budget ≤ limit
      → IsOnlyLlm limit (envelope r budget)
  unfolding read_pool host_reading llm_reading other_reading available_for_new_work
  llm_only r budget limit named k h = ground (arith, one_class r.resource_class)

  budget_falls :
      (r : ExecutionResource) (committed budget : ℕ)
      → (read_pool p sample r committed budget).llm_new_budget ≤ budget
  unfolding read_pool host_reading llm_reading other_reading
  budget_falls r committed budget = ground arith

  envelopes-only :
      (pools : List ExecutionResource) (budget limit : ℕ)
      → All (λ r. is_named r ≡ true) pools
      → budget ≤ limit
      → All
          (λ c. IsOnlyMemory c × IsOnlyCpu c × IsOnlyLlm limit c)
          (envelopes p sample rs budget pools)
  envelopes-only [] budget limit n h = tt
  envelopes-only (r ∷ rest) budget limit n h = (
    (memory_only r budget n.0, cpu_only r budget n.0, llm_only r budget limit n.0 h),
    envelopes-only rest _ limit n.1
        (omega (arith, budget_falls r (committed_units_of rs r.resource_id) budget)),
  )

  new_work_of_envelopes :
      (cs : List ObservedResourceCapacity) (limit : ℕ)
      → no_duplicates (map (λ c. c.resource_id) cs) ≡ true
      → All (λ c. IsOnlyMemory c × IsOnlyCpu c × IsOnlyLlm limit c) cs
      → (new_work memory_pool cs ≤ measured_memory sample)
        × (new_work cpu_pool cs ≤ measured_idle p sample)
        × (new_work llm_pool cs ≤ limit)
  new_work_of_envelopes cs limit d h = (
    sum_of_only _ memory_pool (λ c. c.resource_id) host_memory_resource_id _ cs d
        (All-imp _ _ (λ c t. t.0) cs h),
    sum_of_only _ cpu_pool (λ c. c.resource_id) host_cpu_resource_id _ cs d
        (All-imp _ _ (λ c t. t.1) cs h),
    sum_of_only _ llm_pool (λ c. c.resource_id) local_llm_resource_id _ cs d
        (All-imp _ _ (λ c t. t.2) cs h),
  )

-- No more new work than the sample has room for, which is none where it is not sound.
abbrev pub IsWithinHost :
    ResourceSafetyPolicy → List ResourceReservation → ResourceObservationSnapshot → Type 0
IsWithinHost p rs o =
    let sample = sound_metrics o.healthy o.metrics in
    (new_work memory_pool o.capacities ≤ measured_memory sample)
    × (new_work cpu_pool o.capacities ≤ measured_idle p sample)
    × (new_work llm_pool o.capacities + total_llm_committed rs ≤ p.llm_concurrency_limit)

module _ ⦃u : Uuid⦄ (observation_json : ResourceObservationSnapshot → String) where
  -- What the validator returns is what it was given, with the capacities in order and distinct.
  validate_snapshot_returns :
      (o n : ResourceObservationSnapshot)
      → validate_snapshot observation_json o ≡ ok n
      → (no_duplicates (map (λ c. c.resource_id) o.capacities) ≡ true)
        × (n ≡ record o { capacities = sorted_by capacity_sort_key o.capacities })
  unfolding validate_snapshot
  validate_snapshot_returns o n h = ground arith

  -- Where every pool is valid and has no more committed than it may admit, and no pool has the name
  -- of the processor or of the memory of the host that is not of that class, a snapshot that is
  -- built offers no more new work than the sample has room for, over all pools of a class together:
  -- of memory no more than is available, of the processor no more than is idle, and of language
  -- models no more than the limit of the policy leaves beside what is committed; where the sample
  -- is not sound, of memory and processor nothing.
  pub build_resource_observation_bounds :
      (cycle captured_at : ℕ) (resources : List ExecutionResource) (rs : List ResourceReservation)
      (p : ResourceSafetyPolicy) (metrics : Option HostResourceMetrics) (errors : List String)
      (host_id : String) (o : ResourceObservationSnapshot)
      → All (IsSound rs) resources
      → All (λ r. is_named r ≡ true) resources
      → build_resource_observation observation_json cycle captured_at resources rs p metrics errors
          host_id
        ≡ ok o
      → IsWithinHost p rs o
  unfolding build_resource_observation
  build_resource_observation_bounds cycle captured_at resources rs p metrics errors host_id o sound
        named built =
      let limit = p.llm_concurrency_limit - total_llm_committed rs in
      let sample = sound_metrics (is_some metrics && is_empty (probe_errors_of errors)) metrics in
      let pools = sorted_by execution_resource_sort_key resources in
      elim (Bool-cases (ltb p.llm_concurrency_limit (total_llm_committed rs))) [
        | inl over ↦ absurd (cc (rw over at built))
        | inr within ↦
            let (cs, observed, rest) =
              >>=-eq-ok (observe_pools p sample rs limit pools) _ (rw within at built) in
            let same : envelopes p sample rs limit pools ≡ cs =
              observe_pools_returned p sample rs limit pools cs
                (All-sorted_by execution_resource_sort_key (IsSound rs) resources sound) observed in
            let in_time =
              guarded (ltb max_instant (captured_at + 1000000 * p.observation_max_age_seconds))
                overflow_error _ rest in
            let (distinct, e) = validate_snapshot_returns _ o (rw (sym same) at in_time) in
            let (memory, idle, llm) =
              new_work_of_envelopes p sample rs (envelopes p sample rs limit pools) limit distinct (
                envelopes-only p sample rs pools limit limit
                  (All-sorted_by execution_resource_sort_key (λ r. is_named r ≡ true) resources
                    named)
                  (omega arith)) in
            let total : new_work llm_pool (envelopes p sample rs limit pools)
                  + total_llm_committed rs
                ≤ p.llm_concurrency_limit =
              ground (arith, llm, within) in
            subst (IsWithinHost p rs) (sym e)
              (rw (sorted_by-envelopes p sample rs limit resources) (memory, idle, total))
      ]
