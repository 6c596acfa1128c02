-- ===== src/Worker/Store/Published.antt =====
-- The results seen from outside: a register for each step of each scheduler.
use prometheist.Base.{
  ℕ, ◌≡◌, refl, ap, ◌∙◌, Bool, false, ◌&&◌, Option, none, some, List, [], ◌∷◌, ◌++◌, String, any,
  ◌==◌, beq_refl, ℕ_eq, String_eq, arith,
}
use prometheist.Attention.Resources.{Uuid}
use prometheist.Attention.Observation.{ResourceSafetyPolicy, ResourceObservationSnapshot}
use prometheist.Worker.Protocol.{WorkerResult, WorkerClaimResourceObservation}
use prometheist.Worker.Store.Tables.{Rows, Store, find_row, results_conflict}
use prometheist.Worker.Store.Evolves.{AreDistinct}
use prometheist.Worker.Store.Moves.{Move, evolves, grants, resolves, Moves, stays, moves}
use prometheist.Worker.Store.Calls.{Call, perform-Moves}
use prometheist.Worker.Store.Runs.{perform_all, perform-AreDistinct}

-- What a component that reads results can see.
abbrev pub Publication : Type 0
Publication = String → ℕ → Option WorkerResult

abbrev pub published : Store → Publication
published s key step_id = find_row key (λ r. r.step_id == step_id) s.results

-- A register that is written once: nothing changes, or one empty place gets a result.
pub data Publishes (v w : Publication) : Type 0 where
  keeps : ((key : String) (step_id : ℕ) → w key step_id ≡ v key step_id) → Publishes v w
  writes :
      (key : String) (step_id : ℕ) (result : WorkerResult)
      → v key step_id ≡ none
      → w key step_id ≡ some result
      → ((k : String) (i : ℕ) → (k == key && i == step_id) ≡ false → w k i ≡ v k i)
      → Publishes v w

pub data PublishesAll : Publication → Publication → Type 0 where
  nothing : {v : Publication} → PublishesAll v v
  then_on : {v w x : Publication} → Publishes v w → PublishesAll w x → PublishesAll v x

module _ {Value : Type 0} (key : String) (test : Value → Bool) where
  pub find_row-append :
      (xs ys : Rows Value)
      → find_row key test (xs ++ ys)
        ≡ (elim (find_row key test xs) [ none ↦ find_row key test ys | some v ↦ some v ])
  unfolding find_row
  find_row-append [] ys = refl
  find_row-append (x ∷ xs) ys = ground (arith, find_row-append xs ys)

-- A new result conflicts with the one that its step has.
no_result_yet :
    (key : String) (result : WorkerResult) (rows : Rows WorkerResult)
    → any (results_conflict (key, result)) rows ≡ false
    → find_row key (λ r. r.step_id == result.step_id) rows ≡ none
unfolding any find_row
no_result_yet key result [] h = refl
no_result_yet key result ((k, r) ∷ rows) h = ground (
  arith,
  no_result_yet key result rows,
  String_eq.beq_iff k key,
  String_eq.beq_iff key k,
  ℕ_eq.beq_iff r.step_id result.step_id,
  ℕ_eq.beq_iff result.step_id r.step_id,
)

found_last :
    (key : String) (result : WorkerResult)
    → find_row key (λ r. r.step_id == result.step_id) ((key, result) ∷ []) ≡ some result
unfolding find_row
found_last key result = ground (arith, beq_refl key, beq_refl result.step_id)

missed_last :
    (key k : String) (i : ℕ) (result : WorkerResult)
    → (k == key && i == result.step_id) ≡ false
    → find_row k (λ r. r.step_id == i) ((key, result) ∷ []) ≡ none
unfolding find_row
missed_last key k i result h = ground (
  arith,
  String_eq.beq_iff k key,
  String_eq.beq_iff key k,
  ℕ_eq.beq_iff i result.step_id,
  ℕ_eq.beq_iff result.step_id i,
)

or_last : {A : Type 0} (o : Option A) → (elim o [ none ↦ none | some v ↦ some v ]) ≡ o
or_last none = refl
or_last (some v) = refl

-- A result that is stored under the unique constraints is one write.
added-Publishes :
    (key : String) (result : WorkerResult) (s t : Store)
    → any (results_conflict (key, result)) s.results ≡ false
    → t.results ≡ s.results ++ (key, result) ∷ []
    → Publishes (published s) (published t)
added-Publishes key result s t new added =
    let at_step : WorkerResult → Bool = λ r. r.step_id == result.step_id in
    let nothing_there = no_result_yet key result s.results new in
    let last : Rows WorkerResult = (key, result) ∷ [] in
    writes key result.step_id result nothing_there
      (rw (added, find_row-append key at_step s.results last, nothing_there)
        (found_last key result))
      λ k i h.
        let before = find_row k (λ r. r.step_id == i) s.results in
        rw added (
          find_row-append k (λ r. r.step_id == i) s.results last
          ∙ ap (λ (n : Option WorkerResult). elim before [ none ↦ n | some v ↦ some v ])
              (missed_last key k i result h)
          ∙ or_last before)

module _ ⦃u : Uuid⦄ (key : String) where
  same-Publishes : (s t : Store) → t.results ≡ s.results → Publishes (published s) (published t)
  same-Publishes s t same = keeps λ k i. ap (find_row k (λ (r : WorkerResult). r.step_id == i)) same

  Move-Publishes : (s t : Store) → Move key s t → Publishes (published s) (published t)
  Move-Publishes s t (evolves e same kept) = same-Publishes s t same
  Move-Publishes s t (grants g) = same-Publishes s t g.same_results
  Move-Publishes s t (resolves result new added same steps) =
      added-Publishes key result s t new added

  Moves-PublishesAll : {s t : Store} → Moves key s t → PublishesAll (published s) (published t)
  Moves-PublishesAll stays = nothing
  Moves-PublishesAll (moves {s = s} {m = m} first rest) =
      then_on (Move-Publishes s m first) (Moves-PublishesAll rest)

PublishesAll-trans : {v w x : Publication} → PublishesAll v w → PublishesAll w x → PublishesAll v x
PublishesAll-trans nothing q = q
PublishesAll-trans (then_on first p) q = then_on first (PublishesAll-trans p q)

module _ ⦃u : Uuid⦄ (observation_json : ResourceObservationSnapshot → String)
    (claim_json : WorkerClaimResourceObservation → String)
    (default_policy : ResourceSafetyPolicy) where
  -- Where the claims break no unique constraint, any calls on the store, of any schedulers and in
  -- any order, whether each returns or raises, do to the results of the steps what a register does
  -- that is written once: each change gives one step of one scheduler that had no result its
  -- result, and leaves every other as it was.
  pub perform_all-PublishesAll :
      (calls : List (String × Call)) (s : Store)
      → AreDistinct s.claims
      → PublishesAll
          (published s)
          (published (perform_all observation_json claim_json default_policy calls s))
  unfolding perform_all
  perform_all-PublishesAll [] s d = nothing
  perform_all-PublishesAll ((key, call) ∷ calls) s d =
      PublishesAll-trans
        (Moves-PublishesAll key
          (perform-Moves observation_json claim_json default_policy key call s d))
        (perform_all-PublishesAll calls _
          (perform-AreDistinct observation_json claim_json default_policy key call s d))
