-- ===== src/Attention/Observation/Envelope.antt =====
-- What the readings of the pools may admit, and that their envelopes are accepted.
use prometheist.Base.{
  ◌<◌, ◌∙◌, ok-injective, guarded, overflow_error, >>=-eq-ok, ℕ, ◌-◌, ◌≤◌, ◌≡◌, refl, ap, false,
  Option, none, some, List, [], ◌∷◌, String, ok, is_blank, strip, ℕ_eq, String_eq, arith, All,
}
use prometheist.Attention.Resources.{
  ResourceClass_eq, ExecutionResource, ResourceReservation, execution_resource, admissible_capacity,
}
use prometheist.Attention.Resources.Valid.{execution_resource_sound}
use prometheist.Attention.Observation.Defs.{
  ResourceSafetyPolicy, HostResourceMetrics, ObservedResourceCapacity, observed_resource_capacity,
  host_resource_metrics,
}
use prometheist.Attention.Observation.Build.{
  host_reading, llm_reading, other_reading, read_pool, committed_units_of, envelope_of,
  observe_pools, has_unbounded_load, rounds_unbounded,
}

-- What a valid pool that is not overcommitted looks like.
abbrev pub IsSound : List ResourceReservation → ExecutionResource → Type 0
IsSound rs r =
    (execution_resource r ≡ ok r)
    × (committed_units_of rs r.resource_id ≤ r.capacity - r.system_headroom)

-- 2 ^ 44: the percentages of smaller counts are exact in Python's division of integers.
abbrev pub max_exact_count : ℕ
max_exact_count = 17592186044416

-- No metrics, or valid ones of a load that `round` takes and of counts whose percentages are exact.
abbrev pub AreReadable : Option HostResourceMetrics → Type 0
AreReadable none = Unit
AreReadable (some m) =
    (host_resource_metrics m ≡ ok m)
    × (has_unbounded_load (some m) ≡ false)
    × (m.logical_cpu_count < max_exact_count)
    × (m.memory_total_mib < max_exact_count)

pub has_unbounded_load_readable :
    (metrics : Option HostResourceMetrics)
    → AreReadable metrics
    → has_unbounded_load metrics ≡ false
has_unbounded_load_readable none h = refl
has_unbounded_load_readable (some m) h = h.1

-- The reading lies between what is committed and what the configuration calls safe.
admission-between :
    (p : ResourceSafetyPolicy) (sample : Option HostResourceMetrics) (r : ExecutionResource)
    (committed budget : ℕ)
    → committed ≤ r.capacity - r.system_headroom
    → let reading = read_pool p sample r committed budget in
      (committed ≤ reading.admission_capacity)
      × (reading.admission_capacity ≤ r.capacity - r.system_headroom)
unfolding read_pool host_reading llm_reading other_reading admissible_capacity
admission-between p none r committed budget h = ground arith
admission-between p (some m) r committed budget h = ground arith

observed_resource_capacity_accepts :
    (c : ObservedResourceCapacity)
    → is_blank (strip c.resource_id) ≡ false
    → strip c.resource_id ≡ c.resource_id
    → 1 ≤ c.configured_capacity
    → c.configured_headroom_units ≤ c.configured_capacity
    → c.committed_units ≤ c.admission_capacity
    → c.admission_capacity ≤ c.configured_capacity - c.configured_headroom_units
    → observed_resource_capacity c ≡ ok c
unfolding observed_resource_capacity
observed_resource_capacity_accepts c filled same positive fits low high =
    ground (arith, ap (λ (n : String). ok (record c { resource_id = n })) same)

-- The envelope of a sound pool passes its validator.
envelope_of-valid :
    (p : ResourceSafetyPolicy) (sample : Option HostResourceMetrics) (rs : List ResourceReservation)
    (r : ExecutionResource) (budget : ℕ)
    → IsSound rs r
    → let committed = committed_units_of rs r.resource_id in
      let c = envelope_of r committed (read_pool p sample r committed budget) in
      observed_resource_capacity c ≡ ok c
envelope_of-valid p sample rs r budget s =
    let committed = committed_units_of rs r.resource_id in
    let (filled, same, positive, fits) = execution_resource_sound r s.0 in
    let (low, high) = admission-between p sample r committed budget s.1 in
    observed_resource_capacity_accepts _ filled same positive fits low high

rounds_nothing :
    (sample : Option HostResourceMetrics) (r : ExecutionResource)
    → has_unbounded_load sample ≡ false
    → rounds_unbounded sample r ≡ false
rounds_nothing sample r f = ground (arith, f)

module _ (p : ResourceSafetyPolicy) (sample : Option HostResourceMetrics)
    (rs : List ResourceReservation) where
  -- The envelopes of pools that are sound, without the tests.
  abbrev pub envelopes : ℕ → List ExecutionResource → List ObservedResourceCapacity
  envelopes budget [] = []
  envelopes budget (r ∷ rest) =
      let committed = committed_units_of rs r.resource_id in
      let reading = read_pool p sample r committed budget in
      envelope_of r committed reading ∷ envelopes reading.llm_new_budget rest

  pub observe_pools-envelopes :
      (budget : ℕ) (pools : List ExecutionResource)
      → has_unbounded_load sample ≡ false
      → All (IsSound rs) pools
      → observe_pools p sample rs budget pools ≡ ok (envelopes budget pools)
  unfolding observe_pools
  observe_pools-envelopes budget [] f s = refl
  observe_pools-envelopes budget (r ∷ rest) f s =
      let committed = committed_units_of rs r.resource_id in
      let reading = read_pool p sample r committed budget in
      rw (rounds_nothing sample r f) (
        rw (envelope_of-valid p sample rs r budget s.0)
          (rw (observe_pools-envelopes reading.llm_new_budget rest f s.1) refl))

  -- Where the loop returns, these are the envelopes.
  pub observe_pools_returned :
      (budget : ℕ) (pools : List ExecutionResource) (cs : List ObservedResourceCapacity)
      → All (IsSound rs) pools
      → observe_pools p sample rs budget pools ≡ ok cs
      → envelopes budget pools ≡ cs
  unfolding observe_pools
  observe_pools_returned budget [] cs s h = ok-injective h
  observe_pools_returned budget (r ∷ rest) cs s h =
      let committed = committed_units_of rs r.resource_id in
      let reading = read_pool p sample r committed budget in
      let passed = guarded (rounds_unbounded sample r) overflow_error _ h in
      let (later, observed, e) =
        >>=-eq-ok (observe_pools p sample rs reading.llm_new_budget rest) _
          (rw (envelope_of-valid p sample rs r budget s.0) at passed) in
      ap (λ (es : List ObservedResourceCapacity). envelope_of r committed reading ∷ es)
        (observe_pools_returned reading.llm_new_budget rest later s.1 observed)
      ∙ ok-injective e
