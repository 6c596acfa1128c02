-- ===== src/Ordering.antt =====
-- attention_ordering.py (src/prometheist/attention_ordering.py): a deterministic topological order
-- of a work set by dependency, priority and identifier.
mod Greedy
pub mod Topology
pub mod Complete
pub mod Canonical
mod Tests
use prometheist.Base.{
  value_error_quoting, sorted_by, ℕ, zero, suc, ◌≡◌, refl, Bool, true, ◌&&◌, Option, none, some,
  List, [], ◌∷◌, ◌++◌, map, String, Result, ok, err, Error, value_error, ◌>>=◌, ◌>>◌, raise_if,
  if◌then◌else◌, leb, not, length, contains, no_duplicates, is_subset, is_disjoint, ◌==◌, String_eq,
  ℕ_eq, keep, any, all, strip, is_blank, discard, min_by, ℕ_ordered, String_ordered, pair_ordered,
  is_empty,
}

abbrev pub max_attention_work_priority : ℕ
max_attention_work_priority = 10000

pub record WorkItem : Type 0 where
  pub item_id : String
  pub priority : ℕ
  pub dependency_ids : List String

normalize_item_id : String → Result String
normalize_item_id value =
    let normalized = strip value in
    if is_blank normalized
    then err (value_error "attention work item_id must not be empty")
    else ok normalized

normalize_dependency_ids : List String → Result (List String)
normalize_dependency_ids values = do
  let normalized = map strip values
  raise_if (any is_blank normalized) (value_error "attention work dependencies must not be empty")
  raise_if (not (no_duplicates normalized))
      (value_error "attention work dependencies must not contain duplicates")
  ok normalized

-- The constructor of `AttentionWorkItem`, with the constraints of its fields and its validators.
-- A priority below zero is no number here.
pub work_item : String → ℕ → List String → Result WorkItem
unfolding normalize_item_id normalize_dependency_ids
work_item item_id priority dependency_ids = do
  name ← normalize_item_id item_id
  raise_if (not (leb priority max_attention_work_priority)) (value_error "priority is out of range")
  dependencies ← normalize_dependency_ids dependency_ids
  raise_if (contains dependencies name)
      (value_error "attention work item must not depend on itself")
  ok (record { item_id = name; priority = priority; dependency_ids = dependencies })

abbrev pub ids : List WorkItem → List String
ids items = map (λ item. item.item_id) items

-- by_id[item_id]
pub find_item : List WorkItem → String → Option WorkItem
find_item [] k = none
find_item (item ∷ items) k = if item.item_id == k then some item else find_item items k

-- by_id[item_id].dependency_ids and .priority; the loop asks for known identifiers only.
abbrev dependencies_of : Option WorkItem → List String
dependencies_of none = []
dependencies_of (some item) = item.dependency_ids

abbrev priority_of : Option WorkItem → ℕ
priority_of none = 0
priority_of (some item) = item.priority

module _ (items : List WorkItem) where
  pub dependencies : String → List String
  dependencies k = dependencies_of (find_item items k)

  pub priority : String → ℕ
  priority k = priority_of (find_item items k)

  abbrev pub decision_key : String → ℕ × String
  decision_key k = (priority k, k)

  -- not (set(by_id[item_id].dependency_ids) & remaining)
  abbrev pub is_ready : List String → String → Bool
  is_ready remaining k = is_disjoint (dependencies k) remaining

  abbrev pub ready : List String → List String
  ready remaining = keep (is_ready remaining) remaining

  abbrev pub next_item : List String → Option String
  next_item remaining = min_by decision_key (ready remaining)

  -- The `while` loop, by the rounds that are left. A set of remaining identifiers is a list here:
  -- what `min` picks does not depend on the order in which the set is iterated.
  pub order_loop : ℕ → List String → List String → Result (List String)
  order_loop rounds [] ordered = ok ordered
  order_loop zero (k ∷ ks) ordered = ok ordered
  order_loop (suc rounds) (k ∷ ks) ordered = elim (next_item (k ∷ ks)) [
    | none ↦ err (value_error "attention work dependencies contain a cycle")
    | some chosen ↦ order_loop rounds (discard chosen (k ∷ ks)) (ordered ++ chosen ∷ [])
  ]

  -- set(item.dependency_ids) - known_ids
  abbrev pub has_known_dependencies : WorkItem → Bool
  has_known_dependencies item = is_subset item.dependency_ids (ids items)

-- sorted(missing), for an item whose dependencies are distinct
abbrev missing : List WorkItem → WorkItem → List String
missing items item =
    sorted_by (λ k. k) (keep (λ k. not (contains (ids items) k)) item.dependency_ids)

-- The error of the first item in the listing that has missing dependencies.
missing_error : List WorkItem → List WorkItem → Error
unfolding sorted_by
missing_error items [] = value_error_quoting "attention work item has missing dependencies" []
missing_error items (item ∷ rest) =
    let later = missing_error items rest in
    if has_known_dependencies items item
    then later
    else value_error_quoting "attention work item has missing dependencies"
        (item.item_id ∷ missing items item)

pub deterministic_dependency_order : List WorkItem → Result (List String)
unfolding missing_error
deterministic_dependency_order items = do
  raise_if (not (no_duplicates (ids items)))
      (value_error "attention work set must not contain duplicate item ids")
  raise_if (not (all (has_known_dependencies items) items)) (missing_error items items)
  order_loop items (length items) (ids items) []
