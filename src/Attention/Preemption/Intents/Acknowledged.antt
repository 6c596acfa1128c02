-- ===== src/Attention/Preemption/Intents/Acknowledged.antt =====
-- Acknowledgements keep an intent valid, their events are valid, and when every checkpoint victim
-- has acknowledged, the intent may be executed.
use prometheist.Base.{
  ℕ, ◌≡◌, refl, sym, subst, ◌∙◌, Bool, true, false, not, ◌&&◌, List, [], ◌∷◌, Result, ok, ◌>>◌,
  raise_if, leb, length, contains, no_duplicates, is_subset, is_empty, ◌==◌, ℕ_eq, String_eq, Error,
  no_duplicates-snoc, is_subset-snoc, Bool-cases, inl, inr, arith, contains-append, nat_eq_iff,
  is_subset-contains, is_subset_of,
}
use prometheist.Attention.Preemption.Intents.{
  PendingPreemption, validate_intent, ready_to_execute, acknowledge,
}

-- What validate_intent asks.
pub record IsValid (p : PendingPreemption) : Type 0 where
  pub sequence : leb 1 p.requested_epoch_sequence ≡ true
  pub victims : is_empty p.victim_task_ids ≡ false
  pub distinct : no_duplicates p.victim_task_ids ≡ true
  pub assignments : no_duplicates p.victim_assignment_ids ≡ true
  pub paired : (length p.victim_assignment_ids == length p.victim_task_ids) ≡ true
  pub apart : contains p.victim_task_ids p.target_task_id ≡ false
  pub gated : is_empty p.checkpoint_victim_task_ids ≡ false
  pub gates : no_duplicates p.checkpoint_victim_task_ids ≡ true
  pub selected : is_subset p.checkpoint_victim_task_ids p.victim_task_ids ≡ true
  pub once : no_duplicates p.checkpointed_victim_task_ids ≡ true
  pub declared : is_subset p.checkpointed_victim_task_ids p.checkpoint_victim_task_ids ≡ true

pub validate_intent-valid : (p : PendingPreemption) → IsValid p → validate_intent p ≡ ok p
unfolding validate_intent
validate_intent-valid p v =
    rw
      (
        v.sequence, v.victims, v.distinct, v.assignments, v.paired, v.apart, v.gated, v.gates,
        v.selected, v.once, v.declared,
      )
      refl

guard_passed :
    {A : Type 0} (b : Bool) (e : Error) (rest : Result A) {out : A}
    → (raise_if b e >> rest) ≡ ok out
    → (b ≡ false) × (rest ≡ ok out)
guard_passed true e rest h = absurd (cc h)
guard_passed false e rest h = (refl, h)

not-false : (b : Bool) → not b ≡ false → b ≡ true
not-false true h = refl
not-false false h = absurd (cc h)

pub validate_intent-IsValid : (p q : PendingPreemption) → validate_intent p ≡ ok q → IsValid p
unfolding validate_intent
validate_intent-IsValid p q h =
    let (a, h1) = guard_passed (not (leb 1 p.requested_epoch_sequence)) _ _ h in
    let (b, h2) = guard_passed (is_empty p.victim_task_ids) _ _ h1 in
    let (c, h3) = guard_passed (not (no_duplicates p.victim_task_ids)) _ _ h2 in
    let (d, h4) = guard_passed (not (no_duplicates p.victim_assignment_ids)) _ _ h3 in
    let (e, h5) =
      guard_passed (not (length p.victim_assignment_ids == length p.victim_task_ids)) _ _ h4 in
    let (f, h6) = guard_passed (contains p.victim_task_ids p.target_task_id) _ _ h5 in
    let (g, h7) = guard_passed (is_empty p.checkpoint_victim_task_ids) _ _ h6 in
    let (i, h8) = guard_passed (not (no_duplicates p.checkpoint_victim_task_ids)) _ _ h7 in
    let (j, h9) =
      guard_passed (not (is_subset p.checkpoint_victim_task_ids p.victim_task_ids)) _ _ h8 in
    let (k, h10) = guard_passed (not (no_duplicates p.checkpointed_victim_task_ids)) _ _ h9 in
    let (l, _) =
      guard_passed (not (is_subset p.checkpointed_victim_task_ids p.checkpoint_victim_task_ids)) _ _
        h10 in
    record {
      sequence = not-false _ a;
      victims = b;
      distinct = not-false _ c;
      assignments = not-false _ d;
      paired = not-false _ e;
      apart = f;
      gated = g;
      gates = not-false _ i;
      selected = not-false _ j;
      once = not-false _ k;
      declared = not-false _ l;
    }

pub acknowledge-IsValid :
    (k : ℕ) (p : PendingPreemption)
    → contains p.checkpoint_victim_task_ids k ≡ true
    → IsValid p
    → IsValid (acknowledge k p)
unfolding acknowledge
acknowledge-IsValid k p gate v = elim (Bool-cases (contains p.checkpointed_victim_task_ids k)) [
  | inl done ↦ rw done v
  | inr fresh ↦ rw fresh (record {
    sequence = v.sequence;
    victims = v.victims;
    distinct = v.distinct;
    assignments = v.assignments;
    paired = v.paired;
    apart = v.apart;
    gated = v.gated;
    gates = v.gates;
    selected = v.selected;
    once = no_duplicates-snoc p.checkpointed_victim_task_ids k v.once fresh;
    declared =
        is_subset-snoc p.checkpointed_victim_task_ids k p.checkpoint_victim_task_ids v.declared
          gate;
  })
]

-- The acknowledgements of victims, one after the other.
unfoldable pub acknowledge_all : List ℕ → PendingPreemption → PendingPreemption
unfolding acknowledge
acknowledge_all [] p = p
acknowledge_all (k ∷ ks) p = acknowledge_all ks (acknowledge k p)

pub acknowledge-gates :
    (k : ℕ) (p : PendingPreemption)
    → (acknowledge k p).checkpoint_victim_task_ids ≡ p.checkpoint_victim_task_ids
unfolding acknowledge
acknowledge-gates k p = elim (Bool-cases (contains p.checkpointed_victim_task_ids k)) [
  | inl done ↦ rw done refl
  | inr fresh ↦ rw fresh refl
]

acknowledge-own :
    (k : ℕ) (p : PendingPreemption)
    → contains (acknowledge k p).checkpointed_victim_task_ids k ≡ true
unfolding acknowledge contains
acknowledge-own k p = elim (Bool-cases (contains p.checkpointed_victim_task_ids k)) [
  | inl done ↦ rw done done
  | inr fresh ↦
      rw fresh
        (ground (arith, contains-append p.checkpointed_victim_task_ids (k ∷ []) k, nat_eq_iff k k))
]

acknowledge-keeps :
    (k j : ℕ) (p : PendingPreemption)
    → contains p.checkpointed_victim_task_ids j ≡ true
    → contains (acknowledge k p).checkpointed_victim_task_ids j ≡ true
unfolding acknowledge
acknowledge-keeps k j p h = elim (Bool-cases (contains p.checkpointed_victim_task_ids k)) [
  | inl done ↦ rw done h
  | inr fresh ↦
      rw fresh (ground (arith, contains-append p.checkpointed_victim_task_ids (k ∷ []) j, h))
]

acknowledge_all-keeps :
    (ks : List ℕ) (j : ℕ) (p : PendingPreemption)
    → contains p.checkpointed_victim_task_ids j ≡ true
    → contains (acknowledge_all ks p).checkpointed_victim_task_ids j ≡ true
unfolding acknowledge_all
acknowledge_all-keeps [] j p h = h
acknowledge_all-keeps (k ∷ ks) j p h =
    acknowledge_all-keeps ks j (acknowledge k p) (acknowledge-keeps k j p h)

acknowledge_all-own :
    (ks : List ℕ) (j : ℕ) (p : PendingPreemption)
    → contains ks j ≡ true
    → contains (acknowledge_all ks p).checkpointed_victim_task_ids j ≡ true
unfolding acknowledge_all contains
acknowledge_all-own [] j p h = absurd (cc h)
acknowledge_all-own (k ∷ ks) j p h = elim (Bool-cases (k == j)) [
  | inl same ↦
      subst
        (λ i. contains (acknowledge_all ks (acknowledge k p)).checkpointed_victim_task_ids i ≡ true)
        ((nat_eq_iff k j).0 same)
        (acknowledge_all-keeps ks k (acknowledge k p) (acknowledge-own k p))
  | inr other ↦ acknowledge_all-own ks j (acknowledge k p) (rw other at h)
]

acknowledge_all-gates :
    (ks : List ℕ) (p : PendingPreemption)
    → (acknowledge_all ks p).checkpoint_victim_task_ids ≡ p.checkpoint_victim_task_ids
unfolding acknowledge_all
acknowledge_all-gates [] p = refl
acknowledge_all-gates (k ∷ ks) p =
    acknowledge_all-gates ks (acknowledge k p) ∙ acknowledge-gates k p

acknowledge_all-IsValid :
    (ks : List ℕ) (p : PendingPreemption)
    → is_subset ks p.checkpoint_victim_task_ids ≡ true
    → IsValid p
    → IsValid (acknowledge_all ks p)
unfolding acknowledge_all is_subset
acknowledge_all-IsValid [] p sub v = v
acknowledge_all-IsValid (k ∷ ks) p sub v =
    let (gate, rest) =
      both (contains p.checkpoint_victim_task_ids k) (is_subset ks p.checkpoint_victim_task_ids)
        sub in
    acknowledge_all-IsValid ks (acknowledge k p)
      (subst (λ gs. is_subset ks gs ≡ true) (sym (acknowledge-gates k p)) rest)
      (acknowledge-IsValid k p gate v)
  where
    both : (a b : Bool) → (a && b) ≡ true → (a ≡ true) × (b ≡ true)
    both a b h = (ground arith, ground arith)

-- From an intent that the validator accepts, when every checkpoint victim has acknowledged, in any
-- order and any number of times each, and no other task has, the intent is valid and may be
-- executed.
pub acknowledge_all-ready :
    (ks : List ℕ) (p q : PendingPreemption)
    → validate_intent p ≡ ok q
    → is_subset ks p.checkpoint_victim_task_ids ≡ true
    → is_subset p.checkpoint_victim_task_ids ks ≡ true
    → (validate_intent (acknowledge_all ks p) ≡ ok (acknowledge_all ks p))
      × (ready_to_execute (acknowledge_all ks p) ≡ true)
unfolding ready_to_execute
acknowledge_all-ready ks p q h sub sup =
    let v = acknowledge_all-IsValid ks p sub (validate_intent-IsValid p q h) in
    let r = acknowledge_all ks p in
    (
      validate_intent-valid r v,
      rw
          (
            v.declared,
            is_subset_of r.checkpoint_victim_task_ids r.checkpointed_victim_task_ids (λ j m.
                acknowledge_all-own ks j p (
                  is_subset-contains p.checkpoint_victim_task_ids ks j sup
                    (subst (λ gs. contains gs j ≡ true) (acknowledge_all-gates ks p) m))),
          )
          refl,
    )
