-- ===== src/Attention/Preemption/Tests.antt =====
-- Three assignments that can release capacity, and the theorems about victims at them.
use prometheist.Base.{
  ℕ, ◌≤◌, ◌≡◌, refl, true, false, some, List, [], ◌∷◌, ok, length, keep, any, sorted_by,
  no_duplicates, contains, pair_lt, sum_of, All, arith,
}
use prometheist.Attention.Resources.{ResourceRequirement, cpu_general}
use prometheist.Attention.Metadata.{units_of}
use prometheist.Attention.Preemption.Defs.{
  PreemptionCandidate, units_or_zero, tuple_lt, selection_lt, tuple_eq, lookup, put_state, improves,
  offer, next_coverage, extend, search_states, pick, required_classes, best_selection,
  ordered_candidates, select_minimum_victims,
}
use prometheist.Attention.Preemption.Coverage.{released, chosen}
use prometheist.Attention.Preemption.Minimal.{select_minimum_victims-minimal}
use prometheist.Attention.Preemption.Covers.{select_minimum_victims-covers}

abbrev cpu_candidate : ℕ → ℕ → ℕ → PreemptionCandidate
cpu_candidate k priority units = record {
  task_id = k;
  assignment_id = k;
  base_priority = priority;
  checkpoint_required = false;
  current_order = k;
  released_units = record { resource_class = cpu_general; units = units } ∷ [];
}

-- Two units are missing. Tasks 1 and 2 release one each; task 3, the most important, releases both.
abbrev missing : List ResourceRequirement
missing = record { resource_class = cpu_general; units = 2 } ∷ []

abbrev assigned : List PreemptionCandidate
assigned = cpu_candidate 1 5 1 ∷ cpu_candidate 2 5 1 ∷ cpu_candidate 3 2 2 ∷ []

abbrev victim : List PreemptionCandidate
victim = cpu_candidate 3 2 2 ∷ []

one_victim : select_minimum_victims missing assigned ≡ ok (some victim)
unfolding select_minimum_victims best_selection required_classes pick search_states extend
    next_coverage offer improves put_state lookup tuple_eq selection_lt tuple_lt units_or_zero
    units_of sorted_by keep any no_duplicates contains pair_lt
one_victim = refl

select_minimum_victims-covers_example :
    All (λ c. units_or_zero missing c ≤ released c victim) (required_classes missing)
select_minimum_victims-covers_example =
    select_minimum_victims-covers missing assigned victim one_victim

-- The first two of the ordered candidates cover the deficit as well.
covered_by_two :
    All
      (λ c.
        units_or_zero missing c
        ≤ released c (chosen (true ∷ true ∷ []) (ordered_candidates assigned)))
      (required_classes missing)
unfolding required_classes released chosen sum_of units_or_zero units_of sorted_by keep pair_lt
covered_by_two = (omega arith, tt)

select_minimum_victims-minimal_example :
    (victims : List PreemptionCandidate) × (some victim ≡ some victims)
    × (length victims ≤ length (chosen (true ∷ true ∷ []) (ordered_candidates assigned)))
select_minimum_victims-minimal_example =
    select_minimum_victims-minimal missing assigned (true ∷ true ∷ []) (some victim) one_victim
      covered_by_two
