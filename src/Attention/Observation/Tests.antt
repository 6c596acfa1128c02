-- ===== src/Attention/Observation/Tests.antt =====
-- One host, and the theorems about observations at it.
use prometheist.Base.{
  err, overflow_error, none, sorted_by, pair_lt, ◌≡◌, refl, some, List, [], ◌∷◌, ok, ◌>>=◌, strip,
  String, contains, no_duplicates, keep, sum_of, arith,
}
use prometheist.Attention.Resources.{
  Uuid, cpu_general, memory_ram, llm_inference, ExecutionResource, ResourceReservation,
  execution_resource,
}
use prometheist.Attention.Observation.Defs.{
  observed_resource_capacity, hundredths, unbounded, ResourceSafetyPolicy, HostResourceMetrics,
  ResourceObservationSnapshot, resource_safety_policy, host_resource_metrics,
  cpu_system_headroom_units,
}
use prometheist.Attention.Observation.Build.{
  observe_pools, probe_errors_of, sound_metrics, pool, discover_local_execution_resources,
  build_resource_observation, committed_units_of, total_llm_committed, round_quotient, pressure_of,
  idle_units, credit_capture, cpu_percent_from_counters,
}
use prometheist.Attention.Observation.Returns.{build_resource_observation_returns}
use prometheist.Attention.Observation.Bounds.{IsWithinHost, build_resource_observation_bounds}
use prometheist.Attention.Observation.Discovered.{discover_then_build}

instance abbrev toy_uuid : Uuid
toy_uuid = record { uuid5 = λ n name. n; text = λ n. "uuid" }

abbrev default_policy : ResourceSafetyPolicy
default_policy = record {
  policy_version = "v0.7-resource-observation-v1";
  observation_max_age_seconds = 5;
  cpu_system_headroom_percent = 10;
  max_cpu_pressure_percent = 85;
  memory_system_headroom_percent = 10;
  memory_system_headroom_min_mib = 1024;
  uncertainty_headroom_percent = 20;
  llm_concurrency_limit = 1;
  default_process_cpu_units = 1;
  default_process_memory_mib = 512;
  default_llm_process_memory_mib = 4096;
}

-- Eight processors at a load of 2.5, and half of the memory free.
abbrev laptop : HostResourceMetrics
laptop = record {
  platform = "Linux";
  logical_cpu_count = 8;
  cpu_utilization_percent = 12;
  load_1m = some (hundredths 250);
  memory_total_mib = 16000;
  memory_available_mib = 8000;
}

abbrev held : List ResourceReservation
held =
    record {
      reservation_id = 1;
      task_id = 2;
      resource_id = "host-cpu";
      resource_class = cpu_general;
      units = 2;
    }
    ∷ []

abbrev pools : List ExecutionResource
pools =
    pool "host-ram-mib" memory_ram 16000 1600
    ∷ pool "host-cpu" cpu_general 8 1
    ∷ pool "local-llm" llm_inference 1 0
    ∷ []

abbrev text : ResourceObservationSnapshot → String
text o = o.host_id

pressure_test : pressure_of laptop ≡ 31
unfolding pressure_of round_quotient
pressure_test = refl

idle_test : idle_units default_policy laptop ≡ 5
unfolding idle_units pressure_of round_quotient
idle_test = refl

headroom_test : cpu_system_headroom_units default_policy 8 ≡ 1
unfolding cpu_system_headroom_units
headroom_test = refl

counters_test : cpu_percent_from_counters (100, 50) (300, 199) ≡ ok 26
unfolding cpu_percent_from_counters round_quotient
counters_test = refl

credit_test : (credit_capture 900 laptop).memory_available_mib ≡ 8900
unfolding credit_capture
credit_test = refl

build_resource_observation_returns_example :
    (o : ResourceObservationSnapshot) × (build_resource_observation text 3 1000 pools held
        default_policy
        (some laptop)
        []
        "local"
      ≡ ok o)
unfolding resource_safety_policy host_resource_metrics no_duplicates contains total_llm_committed
    keep sum_of execution_resource strip committed_units_of
build_resource_observation_returns_example =
    build_resource_observation_returns text 3 1000 pools held default_policy (some laptop) []
      "local" refl (omega arith) refl refl
      ((refl, omega arith), ((refl, omega arith), ((refl, omega arith), tt))) (omega arith)
      (refl, refl, omega arith, omega arith) (omega arith)

abbrev built :
    (o : ResourceObservationSnapshot) × (build_resource_observation text 3 1000 pools held
        default_policy
        (some laptop)
        []
        "local"
      ≡ ok o)
unfolding resource_safety_policy host_resource_metrics no_duplicates contains total_llm_committed
    keep sum_of execution_resource strip committed_units_of
built =
    build_resource_observation_returns text 3 1000 pools held default_policy (some laptop) []
      "local" refl (omega arith) refl refl
      ((refl, omega arith), ((refl, omega arith), ((refl, omega arith), tt))) (omega arith)
      (refl, refl, omega arith, omega arith) (omega arith)

build_resource_observation_bounds_example : IsWithinHost default_policy held built.0
unfolding execution_resource strip committed_units_of keep sum_of
build_resource_observation_bounds_example =
    build_resource_observation_bounds text 3 1000 pools held default_policy (some laptop) [] "local"
      built.0 ((refl, omega arith), ((refl, omega arith), ((refl, omega arith), tt)))
      (refl, (refl, (refl, tt))) built.1

discover_then_build_example :
    (o : ResourceObservationSnapshot) × ((discover_local_execution_resources
          (some laptop)
          default_policy
        >>= λ resources.
            build_resource_observation text 1 1000 resources [] default_policy
              (some laptop)
              []
              "local")
      ≡ ok o)
unfolding resource_safety_policy host_resource_metrics
discover_then_build_example =
    discover_then_build text 1 1000 default_policy (some laptop) [] "local" refl (omega arith) refl
      (refl, refl, omega arith, omega arith) (omega arith)

-- A load without bound, and a lifetime that ends behind the last instant, are not observed.
overloaded_test :
    build_resource_observation text 3 1000 pools [] default_policy
      (some (record laptop { load_1m = some unbounded }))
      []
      "local"
    ≡ err overflow_error
unfolding build_resource_observation observe_pools observed_resource_capacity total_llm_committed
    probe_errors_of sound_metrics committed_units_of keep sum_of sorted_by pair_lt strip
overloaded_test = refl

endless_test :
    build_resource_observation text 3 1000 [] []
      (record default_policy { observation_max_age_seconds = 315537897600 })
      none
      []
      "local"
    ≡ err overflow_error
unfolding build_resource_observation observe_pools total_llm_committed probe_errors_of keep sum_of
    sorted_by
endless_test = refl
