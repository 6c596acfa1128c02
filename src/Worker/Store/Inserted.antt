-- ===== src/Worker/Store/Inserted.antt =====
-- The unique constraints of the claims, against a lease that the guards let through.
use prometheist.Base.{
  ℕ, ◌<◌, ◌≡◌, refl, Bool, true, false, ◌&&◌, ◌||◌, none, [], ◌∷◌, ◌++◌, String, ok, ltb, leb, any,
  All, ◌==◌, ℕ_eq, String_eq, arith, Bool-cases, inl, inr, nat_eq_iff, OnOk_value, ap, subst, sym,
}
use prometheist.Attention.Resources.{Uuid}
use prometheist.Attention.Observation.{ResourceSafetyPolicy, ResourceObservationSnapshot}
use prometheist.Worker.Protocol.{WorkerClaim, WorkerClaimResourceObservation}
use prometheist.Worker.Store.Tables.{
  Rows, Store, find_row, find_rows, max_of, is_active, is_live, claims_conflict,
}
use prometheist.Worker.Store.Writes.{insert_claim}
use prometheist.Worker.Store.Claiming.{
  ClaimCall, Reading, expire_claims, next_attempt, lease_for, read_for_claim,
}
use prometheist.Worker.Store.Admitted.{claims_admit}
use prometheist.Worker.Store.Grants.{claim_denial-none}
use prometheist.Worker.Store.ReadForClaim.{IsRead, read_for_claim-IsRead}
use prometheist.Worker.Store.Kept.{conflict_sym}

bools_apart :
    (own id same_step same_attempt c_active x_active same_assignment lasts : Bool)
    → (own ≡ true → id ≡ false)
    → (own ≡ true → same_step ≡ true → same_assignment ≡ true)
    → (own && same_step ≡ true → same_attempt ≡ false)
    → (own && (same_assignment && (c_active && lasts))) ≡ false
    → (c_active ≡ true → lasts ≡ true)
    → (own
        && (id
            || same_step && same_attempt
            || c_active && x_active && (same_step || same_assignment)))
      ≡ false
bools_apart own id same_step same_attempt c_active x_active same_assignment lasts a b c d e =
    ground (arith, a, b, c, d, e)

-- The row is not the claim's own, and a claim of the same step is on the same assignment.
abbrev pub Fits : String → WorkerClaim → String × WorkerClaim → Type 0
Fits key x (k, c) =
    (k == key) ≡ true
    → ((c.claim_id == x.claim_id) ≡ false)
      × ((c.step_id == x.step_id) ≡ true → (c.assignment_id == x.assignment_id) ≡ true)

-- A lease that is active has not run out.
abbrev Lasts : ℕ → String × WorkerClaim → Type 0
Lasts at (k, c) = is_active c ≡ true → ltb at c.lease_expires_at ≡ true

expire_claims-Fits :
    (key : String) (x : WorkerClaim) (at : ℕ) (xs : Rows WorkerClaim)
    → All (Fits key x) xs
    → All (Fits key x) (expire_claims at xs)
unfolding expire_claims
expire_claims-Fits key x at [] h = tt
expire_claims-Fits key x at ((k, c) ∷ xs) h =
    elim (Bool-cases (is_active c && leb c.lease_expires_at at)) [
      | inl e ↦ rw e (h.0, expire_claims-Fits key x at xs h.1)
      | inr e ↦ rw e (h.0, expire_claims-Fits key x at xs h.1)
    ]

expire_claims-Lasts : (at : ℕ) (xs : Rows WorkerClaim) → All (Lasts at) (expire_claims at xs)
unfolding expire_claims
expire_claims-Lasts at [] = tt
expire_claims-Lasts at ((k, c) ∷ xs) =
    elim (Bool-cases (is_active c && leb c.lease_expires_at at)) [
      | inl e ↦ rw e ((λ live. absurd (cc live)), expire_claims-Lasts at xs)
      | inr e ↦ rw e ((λ live. ground (arith, e, live)), expire_claims-Lasts at xs)
    ]

module _ (key : String) (x : WorkerClaim) (at : ℕ) where
  row_apart :
      (k : String) (c : WorkerClaim)
      → Fits key x (k, c)
      → Lasts at (k, c)
      → ((k == key && c.step_id == x.step_id) ≡ true → c.attempt < x.attempt)
      → (k == key && (c.assignment_id == x.assignment_id && is_live at c)) ≡ false
      → claims_conflict (key, x) (k, c) ≡ false
  row_apart k c fits lasts later free =
      conflict_sym (k, c) (key, x)
        (bools_apart (k == key) (c.claim_id == x.claim_id) (c.step_id == x.step_id)
          (c.attempt == x.attempt) (is_active c) (is_active x) (c.assignment_id == x.assignment_id)
          (ltb at c.lease_expires_at) (λ own. (fits own).0) (λ own. (fits own).1)
          (λ same. ground (arith, later same, nat_eq_iff c.attempt x.attempt)) free lasts)

  abbrev attempts_of : Rows WorkerClaim → ℕ
  attempts_of ys =
      max_of (λ (c : WorkerClaim). c.attempt)
        (find_rows key (λ (c : WorkerClaim). c.step_id == x.step_id) ys)

  attempts_before :
      (k : String) (c : WorkerClaim) (ys : Rows WorkerClaim)
      → attempts_of ((k, c) ∷ ys) < x.attempt
      → ((k == key && c.step_id == x.step_id) ≡ true → c.attempt < x.attempt)
        × (attempts_of ys < x.attempt)
  unfolding find_rows max_of
  attempts_before k c ys later = elim (Bool-cases (k == key && c.step_id == x.step_id)) [
    | inl e ↦ let more = rw e at later in (λ same. ground (arith, more), ground (arith, more))
    | inr e ↦ (λ same. absurd (cc (e, same)), rw e at later)
  ]

  -- Rows that have not run out, none of them on the assignment.
  all_apart :
      (ys : Rows WorkerClaim)
      → All (Fits key x) ys
      → All (Lasts at) ys
      → attempts_of ys < x.attempt
      → find_row key (λ c. c.assignment_id == x.assignment_id && is_live at c) ys ≡ none
      → any (claims_conflict (key, x)) ys ≡ false
  unfolding any find_row find_rows max_of
  all_apart [] fits lasts later free = refl
  all_apart ((k, c) ∷ ys) fits lasts later free =
      elim (Bool-cases (k == key && (c.assignment_id == x.assignment_id && is_live at c))) [
        | inl e ↦ absurd (cc (rw e at free))
        | inr e ↦
            let (own, rest) = attempts_before k c ys later in
            rw (row_apart k c fits.0 lasts.0 own e)
              (all_apart ys fits.1 lasts.1 rest (rw e at free))
      ]

module _ ⦃u : Uuid⦄ (observation_json : ResourceObservationSnapshot → String)
    (claim_json : WorkerClaimResourceObservation → String) (default_policy : ResourceSafetyPolicy)
    (key : String) where
  -- The lease that is granted on what was read.
  abbrev pub next_lease : ClaimCall → Reading → Store → ℕ → ℕ → WorkerClaim
  next_lease call r m observation_id claim_id =
      record (lease_for observation_json claim_json default_policy key call r observation_id
        (next_attempt observation_json claim_json default_policy key r.step.step_id m)) {
          claim_id = claim_id;
        }

  -- Where what was read for a claim leaves no reason to deny it, no claim of the scheduler has the
  -- identifier of the new one, and every claim that the step has had is on the assignment of the
  -- step, the new lease with the next attempt is inserted, after the observation of the claim is
  -- stored: neither the primary key, nor the attempt, nor the two indexes on active claims refuse
  -- it.
  pub read_for_claim-insert_claim :
      (call : ClaimCall) (s m : Store) (r : Reading) (observation_id claim_id : ℕ)
      (xs : Rows WorkerClaimResourceObservation)
      → read_for_claim observation_json claim_json default_policy key call s ≡ ok (r, m)
      → r.reason ≡ none
      → All (Fits key (next_lease call r m observation_id claim_id)) s.claims
      → insert_claim key
          (next_lease call r m observation_id claim_id)
          (record m { observations = xs })
        ≡ ok (record m {
          observations = xs;
          claims = m.claims ++ (key, next_lease call r m observation_id claim_id) ∷ [];
        })
  unfolding insert_claim
  read_for_claim-insert_claim call s m r observation_id claim_id xs is_read unopposed fits =
      let lease = next_lease call r m observation_id claim_id in
      let (same, _, admitted) =
        OnOk_value (IsRead observation_json claim_json default_policy key call s) _
          (read_for_claim-IsRead observation_json claim_json default_policy key call s) is_read in
      let a = admitted unopposed in
      let (_, free) = claim_denial-none key r.step a.latest a.existing call.captured_at m (
        claims_admit key a.state r.step a.latest a.existing call.captured_at a.policy call.policy
          a.committed m a.structure_admits) in
      let rows = ap (λ (n : Store). n.claims) (sym same) in
      rw
        (all_apart key lease call.captured_at m.claims
          (subst (All (Fits key lease)) rows
            (expire_claims-Fits key lease call.captured_at s.claims fits))
          (subst (All (Lasts call.captured_at)) rows
            (expire_claims-Lasts call.captured_at s.claims))
          (omega arith) free)
        refl
