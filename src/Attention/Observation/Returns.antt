-- ===== src/Attention/Observation/Returns.antt =====
-- When an observation is built: the envelopes of sound pools make a snapshot that its validator
-- accepts.
use mathlib.Core.List.Perm
use prometheist.Base.{
  ◌+◌, ◌*◌, Bool, ℕ, ◌-◌, ◌≤◌, ◌<◌, ◌≡◌, refl, ap, true, false, ◌&&◌, Option, List, [], ◌∷◌, map,
  String, ok, ltb, is_empty, no_duplicates, no_duplicates-perm, sorted_by, sorted_by-perm,
  sorted_by-sorted, sorted_by-IsSortedBy, All-sorted_by, IsSortedBy, ◌==◌, ℕ_eq, String_eq,
  ℕ_ordered, String_ordered, pair_ordered, ◌<?◌, arith, All,
}
use prometheist.Attention.Resources.{
  Uuid, ExecutionResource, ResourceReservation, execution_resource_sort_key,
}
use prometheist.Attention.Observation.Defs.{
  ResourceSafetyPolicy, HostResourceMetrics, ObservedResourceCapacity, ResourceObservationSnapshot,
  resource_safety_policy, is_some, capacity_sort_key, deterministic_resource_observation_id,
  validate_snapshot,
}
use prometheist.Attention.Observation.Build.{
  max_instant, has_unbounded_load, total_llm_committed, sound_metrics, probe_errors_of,
  build_resource_observation,
}
use prometheist.Attention.Observation.Envelope.{
  AreReadable, has_unbounded_load_readable, IsSound, envelopes, observe_pools-envelopes,
}

module _ (p : ResourceSafetyPolicy) (sample : Option HostResourceMetrics)
    (rs : List ResourceReservation) where
  pub resource_ids-envelopes :
      (pools : List ExecutionResource) (budget : ℕ)
      → map (λ c. c.resource_id) (envelopes p sample rs budget pools)
        ≡ map (λ r. r.resource_id) pools
  resource_ids-envelopes [] budget = refl
  resource_ids-envelopes (r ∷ rest) budget =
      ap (λ (ks : List String). r.resource_id ∷ ks) (resource_ids-envelopes rest _)

  behind :
      (k : ℕ × String) (pools : List ExecutionResource) (budget : ℕ)
      → All (λ r. (execution_resource_sort_key r <? k) ≡ false) pools
      → All (λ c. (capacity_sort_key c <? k) ≡ false) (envelopes p sample rs budget pools)
  behind k [] budget h = tt
  behind k (r ∷ rest) budget h = (h.0, behind k rest _ h.1)

  envelopes-IsSortedBy :
      (pools : List ExecutionResource) (budget : ℕ)
      → IsSortedBy execution_resource_sort_key pools
      → IsSortedBy capacity_sort_key (envelopes p sample rs budget pools)
  envelopes-IsSortedBy [] budget s = tt
  envelopes-IsSortedBy (r ∷ rest) budget s =
      (behind (execution_resource_sort_key r) rest _ s.0, envelopes-IsSortedBy rest _ s.1)

  -- The validator finds the envelopes in the order that it sorts them into.
  pub sorted_by-envelopes :
      (budget : ℕ) (pools : List ExecutionResource)
      → let es = envelopes p sample rs budget (sorted_by execution_resource_sort_key pools) in
        sorted_by capacity_sort_key es ≡ es
  sorted_by-envelopes budget pools =
      sorted_by-sorted capacity_sort_key _
        (envelopes-IsSortedBy _ budget (sorted_by-IsSortedBy execution_resource_sort_key pools))

  pub no_duplicates-envelopes :
      (budget : ℕ) (pools : List ExecutionResource)
      → no_duplicates (map (λ r. r.resource_id) pools) ≡ true
      → no_duplicates (
          map
            (λ c. c.resource_id)
            (envelopes p sample rs budget (sorted_by execution_resource_sort_key pools)))
        ≡ true
  no_duplicates-envelopes budget pools h =
      rw (resource_ids-envelopes (sorted_by execution_resource_sort_key pools) budget) (
        no_duplicates-perm
          (Perm.symm (Perm.map _ (sorted_by-perm execution_resource_sort_key pools))) h)

module _ ⦃u : Uuid⦄ (observation_json : ResourceObservationSnapshot → String) where
  -- A snapshot with sorted, distinct pools and its own identity is accepted as it is.
  validate_snapshot_accepts :
      (o : ResourceObservationSnapshot)
      → 1 ≤ o.scheduler_cycle
      → (o.safety_policy_version == "") ≡ false
      → (o.host_id == "") ≡ false
      → o.captured_at < o.valid_until
      → o.healthy ≡ (is_some o.metrics && is_empty o.probe_errors)
      → o.safety_policy_version ≡ o.policy.policy_version
      → no_duplicates (map (λ c. c.resource_id) o.capacities) ≡ true
      → sorted_by capacity_sort_key o.capacities ≡ o.capacities
      → o.observation_id ≡ deterministic_resource_observation_id observation_json o
      → validate_snapshot observation_json o ≡ ok o
  unfolding validate_snapshot
  validate_snapshot_accepts o cycle version host_id lifetime health bound distinct sorted own =
      ground (
        arith,
        ap (λ (cs : List ObservedResourceCapacity). ok (record o { capacities = cs })) sorted,
        ap
            (λ (cs : List ObservedResourceCapacity).
              deterministic_resource_observation_id observation_json (record o { capacities = cs }))
            sorted,
        String_eq.beq_iff o.safety_policy_version o.policy.policy_version,
        ℕ_eq.beq_iff o.observation_id (deterministic_resource_observation_id observation_json o),
      )

  policy_sound :
      (p : ResourceSafetyPolicy)
      → resource_safety_policy p ≡ ok p
      → ((p.policy_version == "") ≡ false) × (1 ≤ p.observation_max_age_seconds)
  unfolding resource_safety_policy
  policy_sound p h = ground arith

  sound_metrics-finite :
      (healthy : Bool) (metrics : Option HostResourceMetrics)
      → has_unbounded_load metrics ≡ false
      → has_unbounded_load (sound_metrics healthy metrics) ≡ false
  unfolding sound_metrics
  sound_metrics-finite true metrics h = h
  sound_metrics-finite false metrics h = refl

  -- A snapshot is built, and accepted by all of its validators, where the policy is valid, the
  -- cycle is positive, the host has a name, the pools are valid and have distinct names, no pool
  -- has more committed than it may admit, no more language model slots are committed than the
  -- policy allows, the metrics are missing, or are valid, of a load that can be rounded and of
  -- counts below 2 ^ 44, and the lifetime of the snapshot ends before the last instant of a
  -- datetime.
  pub build_resource_observation_returns :
      (cycle captured_at : ℕ) (resources : List ExecutionResource) (rs : List ResourceReservation)
      (p : ResourceSafetyPolicy) (metrics : Option HostResourceMetrics) (errors : List String)
      (host_id : String)
      → resource_safety_policy p ≡ ok p
      → 1 ≤ cycle
      → (host_id == "") ≡ false
      → no_duplicates (map (λ r. r.resource_id) resources) ≡ true
      → All (IsSound rs) resources
      → total_llm_committed rs ≤ p.llm_concurrency_limit
      → AreReadable metrics
      → captured_at + 1000000 * p.observation_max_age_seconds ≤ max_instant
      → (o : ResourceObservationSnapshot) × (build_resource_observation observation_json cycle
            captured_at resources rs p metrics errors host_id
          ≡ ok o)
  unfolding build_resource_observation deterministic_resource_observation_id
  build_resource_observation_returns cycle captured_at resources rs p metrics errors host_id policy
        positive named distinct sound within readable in_time =
      let budget = p.llm_concurrency_limit - total_llm_committed rs in
      let sample = sound_metrics (is_some metrics && is_empty (probe_errors_of errors)) metrics in
      let pools = sorted_by execution_resource_sort_key resources in
      let observed =
        observe_pools-envelopes p sample rs budget pools
          (sound_metrics-finite (is_some metrics && is_empty (probe_errors_of errors)) metrics
            (has_unbounded_load_readable metrics readable))
          (All-sorted_by execution_resource_sort_key (IsSound rs) resources sound) in
      let open_gate : ltb p.llm_concurrency_limit (total_llm_committed rs) ≡ false = ground arith in
      let (version, lasting) = policy_sound p policy in
      let in_range : ltb max_instant (captured_at + 1000000 * p.observation_max_age_seconds)
          ≡ false =
        ground (arith, in_time) in
      rw (open_gate, observed, in_range)
        (
          _,
          validate_snapshot_accepts _ positive version named (omega (arith, lasting)) refl refl
              (no_duplicates-envelopes p sample rs budget resources distinct)
              (sorted_by-envelopes p sample rs budget resources) refl,
        )
