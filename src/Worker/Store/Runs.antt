-- ===== src/Worker/Store/Runs.antt =====
-- What holds of the claims after any calls.
use prometheist.Base.{sym, subst, List, [], ◌∷◌, String, All, All-append}
use prometheist.Attention.Resources.{Uuid}
use prometheist.Attention.Observation.{ResourceSafetyPolicy, ResourceObservationSnapshot}
use prometheist.Worker.Protocol.{WorkerClaim, WorkerClaimResourceObservation}
use prometheist.Worker.Store.Tables.{Rows, Store}
use prometheist.Worker.Store.Evolves.{IsBounded, AreDistinct}
use prometheist.Worker.Store.Kept.{AreDistinct-Evolves, AreDistinct-snoc, IsBounded-Evolves}
use prometheist.Worker.Store.Moves.{Move, evolves, grants, resolves, Moves, stays, moves}
use prometheist.Worker.Store.Calls.{Call, perform, perform-Moves}

abbrev pub AreBounded : Rows WorkerClaim → Type 0
AreBounded = All (λ row. IsBounded row.1)

-- What every move keeps, a row of moves keeps.
pub Moves-keep :
    ⦃u : Uuid⦄ (key : String) (P : Store → Type 0)
    → ((s t : Store) → Move key s t → P s → P t)
    → {s t : Store} → Moves key s t
    → P s
    → P t
Moves-keep key P step stays p = p
Moves-keep key P step (moves {s = s} {m = m} first rest) p =
    Moves-keep key P step rest (step s m first p)

module _ ⦃u : Uuid⦄ (key : String) where
  pub Move-AreDistinct : (s t : Store) → Move key s t → AreDistinct s.claims → AreDistinct t.claims
  Move-AreDistinct s t (evolves e same kept) d = AreDistinct-Evolves s.claims t.claims e d
  Move-AreDistinct s t (grants g) d =
      subst AreDistinct (sym g.added) (AreDistinct-snoc s.claims (key, g.claim) g.apart d)
  Move-AreDistinct s t (resolves result new added same steps) d = subst AreDistinct (sym same) d

  Move-AreBounded : (s t : Store) → Move key s t → AreBounded s.claims → AreBounded t.claims
  Move-AreBounded s t (evolves e same kept) b = IsBounded-Evolves s.claims t.claims e b
  Move-AreBounded s t (grants g) b =
      subst AreBounded (sym g.added)
        (All-append (λ row. IsBounded row.1) s.claims ((key, g.claim) ∷ []) b (g.bounded, tt))
  Move-AreBounded s t (resolves result new added same steps) b = subst AreBounded (sym same) b

module _ ⦃u : Uuid⦄ (observation_json : ResourceObservationSnapshot → String)
    (claim_json : WorkerClaimResourceObservation → String)
    (default_policy : ResourceSafetyPolicy) where
  -- Calls of several schedulers, one after the other.
  unfoldable pub perform_all : List (String × Call) → Store → Store
  unfolding perform
  perform_all [] s = s
  perform_all ((key, call) ∷ calls) s =
      perform_all calls (perform observation_json claim_json default_policy key call s)

  pub perform-AreDistinct :
      (key : String) (call : Call) (s : Store)
      → AreDistinct s.claims
      → AreDistinct (perform observation_json claim_json default_policy key call s).claims
  perform-AreDistinct key call s d =
      Moves-keep key (λ t. AreDistinct t.claims) (Move-AreDistinct key)
        (perform-Moves observation_json claim_json default_policy key call s d) d

  -- What every move keeps holds after any calls.
  pub perform_all-keeps :
      (P : Store → Type 0)
      → ((key : String) (s t : Store) → Move key s t → P s → P t)
      → (calls : List (String × Call)) (s : Store) → AreDistinct s.claims
      → P s
      → P (perform_all calls s)
  unfolding perform_all
  perform_all-keeps P step [] s d p = p
  perform_all-keeps P step ((key, call) ∷ calls) s d p =
      perform_all-keeps P step calls _ (perform-AreDistinct key call s d) (
        Moves-keep key P (step key)
          (perform-Moves observation_json claim_json default_policy key call s d) p)

  -- Where the claims break no unique constraint and each lease ends at most an hour after the last
  -- sign of life of its worker, that is so after any calls.
  pub perform_all-AreBounded :
      (calls : List (String × Call)) (s : Store)
      → AreDistinct s.claims
      → AreBounded s.claims
      → AreBounded (perform_all calls s).claims
  perform_all-AreBounded calls s d b =
      perform_all-keeps (λ t. AreBounded t.claims) Move-AreBounded calls s d b
