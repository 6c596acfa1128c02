-- ===== src/Attention/Observation/Discovered.antt =====
-- The pools that discovery proposes, and that a first observation of them is built.
use prometheist.Base.{
  ◌+◌, ℕ, zero, suc, ◌*◌, ◌≤◌, ◌≡◌, refl, false, Option, none, some, List, [], ◌∷◌, String, ok,
  ◌>>=◌, contains, no_duplicates, sum_of, keep, sorted_by, strip, ◌==◌, ℕ_eq, String_eq, ℕ_ordered,
  String_ordered, pair_ordered, pair_lt, arith, All,
}
use prometheist.Attention.Resources.{
  Uuid, cpu_general, memory_ram, llm_inference, ExecutionResource, execution_resource,
}
use prometheist.Attention.Observation.Defs.{
  ResourceSafetyPolicy, HostResourceMetrics, ResourceObservationSnapshot, resource_safety_policy,
  host_resource_metrics, ceil_percent, cpu_system_headroom_units, memory_system_headroom_mib,
}
use prometheist.Attention.Observation.Build.{
  max_instant, pool, host_cpu_resource_id, host_memory_resource_id, local_llm_resource_id,
  local_sizes, discover_local_execution_resources, build_resource_observation, committed_units_of,
  total_llm_committed,
}
use prometheist.Attention.Observation.Envelope.{AreReadable, IsSound}
use prometheist.Attention.Observation.Returns.{build_resource_observation_returns}

mul_percent : (n p : ℕ) → p ≤ 100 → n * p ≤ n * 100
mul_percent zero p h = omega arith
mul_percent (suc n) p h = omega (arith, mul_percent n p h)

ceil_percent_le : (n p : ℕ) → p ≤ 100 → ceil_percent n p ≤ n
ceil_percent_le n p h = omega (arith, mul_percent n p h)

-- None, or metrics that their validator accepts.
abbrev pub AreSound : Option HostResourceMetrics → Type 0
AreSound none = Unit
AreSound (some m) = host_resource_metrics m ≡ ok m

readable-AreSound : (metrics : Option HostResourceMetrics) → AreReadable metrics → AreSound metrics
readable-AreSound none h = tt
readable-AreSound (some m) h = h.0

host_resource_metrics_sound :
    (m : HostResourceMetrics)
    → host_resource_metrics m ≡ ok m
    → (1 ≤ m.logical_cpu_count) × (1 ≤ m.memory_total_mib)
unfolding host_resource_metrics
host_resource_metrics_sound m h = ground arith

resource_safety_policy_sound :
    (p : ResourceSafetyPolicy)
    → resource_safety_policy p ≡ ok p
    → (p.cpu_system_headroom_percent ≤ 100) × (1 ≤ p.llm_concurrency_limit)
unfolding resource_safety_policy
resource_safety_policy_sound p h = ground arith

cpu_headroom_fits :
    (p : ResourceSafetyPolicy) (n : ℕ)
    → p.cpu_system_headroom_percent ≤ 100
    → cpu_system_headroom_units p n ≤ n
unfolding cpu_system_headroom_units
cpu_headroom_fits p n h = ground (arith, ceil_percent_le n p.cpu_system_headroom_percent h)

memory_headroom_fits : (p : ResourceSafetyPolicy) (n : ℕ) → memory_system_headroom_mib p n ≤ n
unfolding memory_system_headroom_mib
memory_headroom_fits p n = omega arith

-- The headroom that the policy asks for is a part of the capacity.
local_sizes_fit :
    (metrics : Option HostResourceMetrics) (p : ResourceSafetyPolicy)
    → AreSound metrics
    → resource_safety_policy p ≡ ok p
    → let ((cpus, cpu_headroom), (mib, mib_headroom)) = local_sizes metrics p in
      (1 ≤ cpus) × (cpu_headroom ≤ cpus) × (1 ≤ mib) × (mib_headroom ≤ mib)
unfolding local_sizes
local_sizes_fit none p m h = omega arith
local_sizes_fit (some m) p k h =
    let (cpus, mib) = host_resource_metrics_sound m k in
    (
      cpus,
      cpu_headroom_fits p m.logical_cpu_count (resource_safety_policy_sound p h).0,
      mib,
      memory_headroom_fits p m.memory_total_mib,
    )

cpu_valid :
    (n h : ℕ)
    → 1 ≤ n
    → h ≤ n
    → execution_resource (pool host_cpu_resource_id cpu_general n h)
      ≡ ok (pool host_cpu_resource_id cpu_general n h)
unfolding execution_resource strip
cpu_valid n h a b = ground arith

memory_valid :
    (n h : ℕ)
    → 1 ≤ n
    → h ≤ n
    → execution_resource (pool host_memory_resource_id memory_ram n h)
      ≡ ok (pool host_memory_resource_id memory_ram n h)
unfolding execution_resource strip
memory_valid n h a b = ground arith

llm_valid :
    (n : ℕ)
    → 1 ≤ n
    → execution_resource (pool local_llm_resource_id llm_inference n 0)
      ≡ ok (pool local_llm_resource_id llm_inference n 0)
unfolding execution_resource strip
llm_valid n a = ground arith

-- The pools, in their order.
abbrev local_pools : (ℕ × ℕ) × (ℕ × ℕ) → ℕ → List ExecutionResource
local_pools ((cpus, cpu_headroom), (mib, mib_headroom)) slots =
    pool host_cpu_resource_id cpu_general cpus cpu_headroom
    ∷ pool host_memory_resource_id memory_ram mib mib_headroom
    ∷ pool local_llm_resource_id llm_inference slots 0
    ∷ []

discover-local_pools :
    (metrics : Option HostResourceMetrics) (p : ResourceSafetyPolicy)
    → AreSound metrics
    → resource_safety_policy p ≡ ok p
    → discover_local_execution_resources metrics p
      ≡ ok (local_pools (local_sizes metrics p) p.llm_concurrency_limit)
unfolding discover_local_execution_resources sorted_by pair_lt
discover-local_pools metrics p m h =
    let (cpus, cpu_fits, mib, mib_fits) = local_sizes_fit metrics p m h in
    let ((n, a), (k, b)) = local_sizes metrics p in
    rw
      (
        cpu_valid _ _ cpus cpu_fits,
        memory_valid _ _ mib mib_fits,
        llm_valid _ (resource_safety_policy_sound p h).1,
      )
      refl

local_pools-IsSound :
    (sizes : (ℕ × ℕ) × (ℕ × ℕ)) (slots : ℕ)
    → (1 ≤ sizes.0.0) × (sizes.0.1 ≤ sizes.0.0) × (1 ≤ sizes.1.0) × (sizes.1.1 ≤ sizes.1.0)
    → 1 ≤ slots
    → All (IsSound []) (local_pools sizes slots)
unfolding committed_units_of keep sum_of
local_pools-IsSound ((n, a), (k, b)) slots (cpus, cpu_fits, mib, mib_fits) some_slot = (
  (cpu_valid n a cpus cpu_fits, omega arith),
  ((memory_valid k b mib mib_fits, omega arith), ((llm_valid slots some_slot, omega arith), tt)),
)

module _ ⦃u : Uuid⦄ (observation_json : ResourceObservationSnapshot → String) where
  -- With a valid policy, a positive cycle, a name of the host, metrics that are missing, or valid,
  -- of a load that can be rounded and of counts below 2 ^ 44, and a lifetime of the snapshot that
  -- ends before the last instant of a datetime, the pools of the host are discovered, and a
  -- snapshot of them is built where nothing is committed.
  pub discover_then_build :
      (cycle captured_at : ℕ) (p : ResourceSafetyPolicy) (metrics : Option HostResourceMetrics)
      (errors : List String) (host_id : String)
      → resource_safety_policy p ≡ ok p
      → 1 ≤ cycle
      → (host_id == "") ≡ false
      → AreReadable metrics
      → captured_at + 1000000 * p.observation_max_age_seconds ≤ max_instant
      → (o : ResourceObservationSnapshot) × ((discover_local_execution_resources metrics p
            >>= λ resources.
                build_resource_observation observation_json cycle captured_at resources [] p metrics
                  errors host_id)
          ≡ ok o)
  unfolding no_duplicates contains total_llm_committed sum_of keep
  discover_then_build cycle captured_at p metrics errors host_id h positive named readable in_time =
      let sizes = local_sizes_fit metrics p (readable-AreSound metrics readable) h in
      let some_slot = (resource_safety_policy_sound p h).1 in
      let resources = local_pools (local_sizes metrics p) p.llm_concurrency_limit in
      rw (discover-local_pools metrics p (readable-AreSound metrics readable) h) (
        build_resource_observation_returns observation_json cycle captured_at resources [] p metrics
          errors host_id h positive named refl
          (local_pools-IsSound (local_sizes metrics p) p.llm_concurrency_limit sizes some_slot)
          (omega arith) readable in_time)
