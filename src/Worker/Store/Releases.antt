-- ===== src/Worker/Store/Releases.antt =====
-- A claim that is released, as the next operation finds it.
use prometheist.Base.{
  ℕ, ◌≡◌, refl, true, false, not, String, Result, ok, err, OnOk, OnOk-bind, OnOk-if, OnOk_value,
}
use prometheist.Attention.Resources.{Uuid}
use prometheist.Worker.Protocol.{
  WorkerClaim, WorkerClaimStatus, active, checkpointed, completed, abandoned, released,
}
use prometheist.Worker.Store.Tables.{Store, is_active, is_released}
use prometheist.Worker.Store.Load.{lock_claim, require_worker}
use prometheist.Worker.Store.Writes.{set_claim_status}
use prometheist.Worker.Store.Leases.{
  Outcome, done, expired, transaction, release_body, release_worker_claim,
}
use prometheist.Worker.Store.Moves.{lock_claim_row}
use prometheist.Worker.Store.Settling.{set_status}

module _ ⦃u : Uuid⦄ (key : String) (claim_id : ℕ) where
  -- The claim is locked with the status RELEASED.
  abbrev pub IsReleased : Store → Type 0
  IsReleased t = (c : WorkerClaim) × (lock_claim key claim_id t ≡ ok c) × (c.status ≡ released)

  abbrev Releases : Outcome WorkerClaim × Store → Type 0
  Releases (done c, t) = IsReleased t
  Releases (expired, t) = Unit

  released_only :
      (status : WorkerClaimStatus)
      → (elim status [ released ↦ true | _ ↦ false ]) ≡ true
      → status ≡ released
  released_only released h = refl
  released_only active h = absurd (cc h)
  released_only checkpointed h = absurd (cc h)
  released_only completed h = absurd (cc h)
  released_only abandoned h = absurd (cc h)

  released_status : (c : WorkerClaim) → is_released c ≡ true → c.status ≡ released
  released_status c h = released_only c.status h

  release_body-Releases :
      (worker_id : String) (s : Store) → OnOk Releases (release_body key claim_id worker_id s)
  unfolding release_body
  release_body-Releases worker_id s = OnOk-bind Releases (lock_claim key claim_id s) _ λ c locked.
      OnOk-bind Releases (require_worker c worker_id) _ λ o owned.
        OnOk-if Releases (is_released c) _ _ (λ again. (c, locked, released_status c again))
          λ unreleased.
            OnOk-if Releases (not (is_active c)) _ _ (λ closed. tt)
              λ running. OnOk-bind Releases (set_claim_status key claim_id released s) _ λ t set.
                OnOk-bind Releases (lock_claim key claim_id t) _ λ e relocked.
                  let (row, found, valid) = lock_claim_row key claim_id s c locked in
                  let (closed, _, _) =
                    OnOk_value _ _ (set_status key claim_id released s row c found valid) set in
                  (record c { status = released }, closed, refl)

  returned-IsReleased :
      (body : Result (Outcome WorkerClaim × Store)) (s : Store) (c : WorkerClaim)
      → OnOk Releases body
      → (transaction body s).0 ≡ ok c
      → IsReleased (transaction body s).1
  returned-IsReleased (ok (done v, t)) s c h e = h
  returned-IsReleased (ok (expired, t)) s c h e = absurd (cc e)
  returned-IsReleased (err error) s c h e = absurd (cc e)

  pub release_worker_claim-IsReleased :
      (worker_id : String) (s : Store) (c : WorkerClaim)
      → (release_worker_claim key claim_id worker_id s).0 ≡ ok c
      → IsReleased (release_worker_claim key claim_id worker_id s).1
  unfolding release_worker_claim
  release_worker_claim-IsReleased worker_id s c e =
      returned-IsReleased _ s c (release_body-Releases worker_id s) e
