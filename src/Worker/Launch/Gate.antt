-- ===== src/Worker/Launch/Gate.antt =====
-- worker_runtime.py: _is_transient_resource_denial, beside the gate of the claim.
use prometheist.Base.{
  ℕ, ◌≡◌, refl, ap, sym, ◌∙◌, Bool, true, false, not, ◌||◌, Option, none, some, List, [], ◌∷◌,
  String, ok, if◌then◌else◌, ltb, nat_eq, length, is_empty, any, contains, sorted_by, ℕ_eq,
  String_eq, ℕ_ordered, String_ordered, pair_ordered, arith, inl, inr, Option-cases,
}
use prometheist.Attention.Resources.{ResourceReservation}
use prometheist.Attention.Observation.{ResourceObservationSnapshot, available_for_new_work, is_some}
use prometheist.Worker.Protocol.{WorkerStep, is_granted, WorkerClaimResourceObservation}
use prometheist.Worker.Store.Tables.{Store, find_rows}
use prometheist.Worker.Store.Load.{load_target_reservations, reservation_row_key}
use prometheist.Worker.Store.Denials.{find_capacity, capacity_denial, resource_claim_denial}

-- Whether the pool of a reservation is not observed, or has no room for it.
unfoldable pub lacks : ResourceObservationSnapshot → ResourceReservation → Bool
unfolding find_capacity available_for_new_work
lacks snapshot r = elim (find_capacity snapshot.capacities r.resource_id) [
  | none ↦ true
  | some c ↦ ltb (available_for_new_work c) r.units
]

-- SELECT ... ORDER BY resource_id ASC, reservation_id ASC
abbrev pub reservation_rows : String → List ℕ → Store → List ResourceReservation
reservation_rows key ids s =
    sorted_by reservation_row_key
      (find_rows key (λ r. contains ids r.reservation_id) s.scheduler.reservations)

-- _is_transient_resource_denial
unfoldable pub is_transient_resource_denial : String → WorkerClaimResourceObservation → Store → Bool
unfolding lacks find_rows
is_transient_resource_denial key observation s =
    let ids = observation.target_reservation_ids in
    let rows = reservation_rows key ids s in
    if is_granted observation.decision
    then false
    else if not observation.resource_snapshot.healthy
    then true
    else if is_empty ids
    then false
    else if not (nat_eq (length rows) (length ids))
    then false
    else any (lacks observation.resource_snapshot) rows

room_cases :
    (short rest : Bool) (later : Option String)
    → rest ≡ is_some later
    → (short || rest) ≡ is_some (if short then some "claim resource lacks safe capacity" else later)
room_cases true rest later h = refl
room_cases false rest later h = h

probe_cases :
    (healthy rest : Bool) (later : Option String)
    → rest ≡ is_some later
    → (if not healthy then true else rest)
      ≡ is_some (if not healthy then some "claim-time host resource probe failed closed" else later)
probe_cases true rest later h = h
probe_cases false rest later h = refl

any-lacks :
    (snapshot : ResourceObservationSnapshot) (rs : List ResourceReservation)
    → any (lacks snapshot) rs ≡ is_some (capacity_denial snapshot rs)
unfolding any lacks capacity_denial
any-lacks snapshot [] = refl
any-lacks snapshot (r ∷ rest) =
    elim (Option-cases (find_capacity snapshot.capacities r.resource_id)) [
      | inl e ↦ rw (lacks, e) (rw (capacity_denial, e) refl)
      | inr (c, e) ↦
          rw (lacks, e)
            (rw (capacity_denial, e)
              (room_cases (ltb (available_for_new_work c) r.units) _ (capacity_denial snapshot rest)
                (any-lacks snapshot rest)))
    ]

target_rows :
    (key : String) (step : WorkerStep) (s : Store) (target : List ResourceReservation)
    → load_target_reservations key step s ≡ ok target
    → reservation_rows key step.reservation_ids s ≡ target
unfolding load_target_reservations
target_rows key step s target h = ground (arith, h)

-- Where each reservation has its row, the tests on the number of rows change nothing.
complete_rows :
    (snapshot : ResourceObservationSnapshot) (ids : List ℕ) (rows : List ResourceReservation)
    → length rows ≡ length ids
    → (if is_empty ids
        then false
        else if not (nat_eq (length rows) (length ids))
        then false
        else any (lacks snapshot) rows)
      ≡ any (lacks snapshot) rows
unfolding any
complete_rows snapshot [] [] h = refl
complete_rows snapshot [] (r ∷ rows) h = absurd (omega (arith, h))
complete_rows snapshot (i ∷ ids) rows h = ground (arith, h)

-- For a denied observation of a step whose reservations are all retained, each with one row, the
-- launcher takes the denial as transient exactly if the resource gate of the claim denies on the
-- snapshot of the observation, whatever other reason the denial had.
pub is_transient_resource_denial-gate :
    (key : String) (o : WorkerClaimResourceObservation) (step : WorkerStep) (s : Store)
    (target : List ResourceReservation)
    → is_granted o.decision ≡ false
    → o.target_reservation_ids ≡ step.reservation_ids
    → load_target_reservations key step s ≡ ok target
    → length target ≡ length step.reservation_ids
    → is_transient_resource_denial key o s
      ≡ is_some (resource_claim_denial o.resource_snapshot target)
unfolding is_transient_resource_denial resource_claim_denial
is_transient_resource_denial-gate key o step s target denied same loaded complete =
    let ids = o.target_reservation_ids in
    let rows : reservation_rows key ids s ≡ target =
      ap (λ ids. reservation_rows key ids s) same ∙ target_rows key step s target loaded in
    let counted : length (reservation_rows key ids s) ≡ length ids =
      ap (λ (rs : List ResourceReservation). length rs) rows
      ∙ complete
      ∙ ap (λ (ks : List ℕ). length ks) (sym same) in
    rw denied (
      probe_cases o.resource_snapshot.healthy _ (capacity_denial o.resource_snapshot target) (
        complete_rows o.resource_snapshot ids (reservation_rows key ids s) counted
        ∙ ap (any (lacks o.resource_snapshot)) rows
        ∙ any-lacks o.resource_snapshot target))
