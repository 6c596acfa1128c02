-- ===== src/Worker/Store/Kept.antt =====
-- What claims keep while they change in place, and while one more is added.
use prometheist.Base.{
  ℕ, ◌≡◌, refl, ap, ◌∙◌, Bool, true, false, ◌&&◌, ◌||◌, Option, none, some, List, [], ◌∷◌, ◌++◌,
  map, String, if◌then◌else◌, ltb, any, ◌==◌, ℕ_eq, String_eq, arith, Bool-cases, inl, inr, All,
  All-append,
}
use prometheist.Worker.Protocol.{WorkerClaim}
use prometheist.Worker.Store.Tables.{Rows, is_row, find_rows, latest_by, is_active, claims_conflict}
use prometheist.Worker.Store.Evolves.{IsBounded, ClaimEvolves, Evolves, AreDistinct}

active_pair :
    (a b a' b' key ids attempts owners : Bool)
    → (a ≡ false → a' ≡ false)
    → (b ≡ false → b' ≡ false)
    → (key && (ids || attempts || a && b && owners)) ≡ false
    → (key && (ids || attempts || a' && b' && owners)) ≡ false
active_pair a b a' b' key ids attempts owners f g h = ground arith

conflict-Evolves :
    (x y x' y' : String × WorkerClaim)
    → ClaimEvolves x x'
    → ClaimEvolves y y'
    → claims_conflict x y ≡ false
    → claims_conflict x' y' ≡ false
conflict-Evolves (k, c) (j, d) (k', c') (j', d') (p, ci, si, ai, ni, fx, bx)
      (q, cj, sj, aj, nj, fy, by) h =
    let idle_c : is_active c ≡ false → is_active c' ≡ false = λ i. ap is_active (fx i) ∙ i in
    let idle_d : is_active d ≡ false → is_active d' ≡ false = λ i. ap is_active (fy i) ∙ i in
    rw (p, q, ci, si, ai, ni, cj, sj, aj, nj)
      (active_pair (is_active c) (is_active d) (is_active c') (is_active d') (k == j)
        (c.claim_id == d.claim_id) (c.step_id == d.step_id && c.attempt == d.attempt)
        (c.step_id == d.step_id || c.assignment_id == d.assignment_id) idle_c idle_d h)

All-Evolves :
    (x x' : String × WorkerClaim) (ys ys' : Rows WorkerClaim)
    → ClaimEvolves x x'
    → Evolves ys ys'
    → All (λ y. claims_conflict x y ≡ false) ys
    → All (λ y. claims_conflict x' y ≡ false) ys'
All-Evolves x x' [] [] e es h = tt
All-Evolves x x' [] (y' ∷ ys') e es h = elim es [ ]
All-Evolves x x' (y ∷ ys) [] e es h = elim es [ ]
All-Evolves x x' (y ∷ ys) (y' ∷ ys') e es h =
    (conflict-Evolves x y x' y' e es.0 h.0, All-Evolves x x' ys ys' e es.1 h.1)

pub AreDistinct-Evolves :
    (xs ys : Rows WorkerClaim) → Evolves xs ys → AreDistinct xs → AreDistinct ys
AreDistinct-Evolves [] [] e d = tt
AreDistinct-Evolves [] (y ∷ ys) e d = elim e [ ]
AreDistinct-Evolves (x ∷ xs) [] e d = elim e [ ]
AreDistinct-Evolves (x ∷ xs) (y ∷ ys) e d =
    (All-Evolves x y xs ys e.0 e.1 d.0, AreDistinct-Evolves xs ys e.1 d.1)

pub IsBounded-Evolves :
    (xs ys : Rows WorkerClaim)
    → Evolves xs ys
    → All (λ row. IsBounded row.1) xs
    → All (λ row. IsBounded row.1) ys
IsBounded-Evolves [] [] e h = tt
IsBounded-Evolves [] (y ∷ ys) e h = elim e [ ]
IsBounded-Evolves (x ∷ xs) [] e h = elim e [ ]
IsBounded-Evolves (x ∷ xs) (y ∷ ys) e h = (e.0.6 h.0, IsBounded-Evolves xs ys e.1 h.1)

pub conflict_sym :
    (x y : String × WorkerClaim) → claims_conflict x y ≡ false → claims_conflict y x ≡ false
conflict_sym (k, c) (j, d) h = ground (
  arith,
  String_eq.beq_iff k j,
  String_eq.beq_iff j k,
  ℕ_eq.beq_iff c.claim_id d.claim_id,
  ℕ_eq.beq_iff d.claim_id c.claim_id,
)

pub AreDistinct-snoc :
    (xs : Rows WorkerClaim) (x : String × WorkerClaim)
    → any (claims_conflict x) xs ≡ false
    → AreDistinct xs
    → AreDistinct (xs ++ x ∷ [])
unfolding any
AreDistinct-snoc [] x h d = (tt, tt)
AreDistinct-snoc (y ∷ ys) x h d = (
  All-append _ ys (x ∷ []) d.0 (conflict_sym x y (ground (arith, h)), tt),
  AreDistinct-snoc ys x (ground (arith, h)) d.1,
)

module _ (key : String) (step_id : ℕ) where
  abbrev pub claims_of : Rows WorkerClaim → List WorkerClaim
  claims_of xs = find_rows key (λ c. c.step_id == step_id) xs

  -- The attempts at a step keep their numbers and their order.
  abbrev pub attempts_of : Rows WorkerClaim → List ℕ
  attempts_of xs = map (λ c. c.attempt) (claims_of xs)

  row_evolves :
      (x y : String × WorkerClaim)
      → ClaimEvolves x y
      → is_row key (λ c. c.step_id == step_id) y ≡ is_row key (λ c. c.step_id == step_id) x
  row_evolves (k, c) (j, d) e = rw (e.0, e.2) refl

  pub attempts_of-Evolves :
      (xs ys : Rows WorkerClaim) → Evolves xs ys → attempts_of ys ≡ attempts_of xs
  unfolding find_rows
  attempts_of-Evolves [] [] e = refl
  attempts_of-Evolves [] (y ∷ ys) e = elim e [ ]
  attempts_of-Evolves (x ∷ xs) [] e = elim e [ ]
  attempts_of-Evolves (x ∷ xs) (y ∷ ys) e =
      ground (arith, row_evolves x y e.0, e.0.4, attempts_of-Evolves xs ys e.1)

  abbrev pub latest_of : Rows WorkerClaim → Option WorkerClaim
  latest_of xs = latest_by (λ c. c.attempt) (claims_of xs)

  -- The latest claim is still the latest, whatever has become of it.
  abbrev pub LatestEvolves : Option WorkerClaim → Option WorkerClaim → Type 0
  LatestEvolves none none = Unit
  LatestEvolves none (some d) = ⊥
  LatestEvolves (some c) none = ⊥
  LatestEvolves (some c) (some d) = (d.attempt ≡ c.attempt) × (is_active c ≡ false → d ≡ c)

  latest_step :
      (c d : WorkerClaim) (m n : Option WorkerClaim)
      → d.attempt ≡ c.attempt
      → (is_active c ≡ false → d ≡ c)
      → LatestEvolves m n
      → LatestEvolves
          (elim m [ none ↦ some c | some w ↦ if ltb w.attempt c.attempt then some c else some w ])
          (elim n [ none ↦ some d | some w ↦ if ltb w.attempt d.attempt then some d else some w ])
  latest_step c d none none a s e = (a, s)
  latest_step c d none (some w) a s e = elim e [ ]
  latest_step c d (some v) none a s e = elim e [ ]
  latest_step c d (some v) (some w) a s e = elim (Bool-cases (ltb v.attempt c.attempt)) [
    | inl h ↦
        let there : ltb w.attempt d.attempt ≡ true = ground (arith, h, a, e.0) in
        rw (h, there) (a, s)
    | inr h ↦
        let there : ltb w.attempt d.attempt ≡ false = ground (arith, h, a, e.0) in rw (h, there) e
  ]

  pub latest_of-Evolves :
      (xs ys : Rows WorkerClaim) → Evolves xs ys → LatestEvolves (latest_of xs) (latest_of ys)
  unfolding find_rows latest_by
  latest_of-Evolves [] [] e = tt
  latest_of-Evolves [] (y ∷ ys) e = elim e [ ]
  latest_of-Evolves (x ∷ xs) [] e = elim e [ ]
  latest_of-Evolves (x ∷ xs) (y ∷ ys) e =
      elim (Bool-cases (is_row key (λ c. c.step_id == step_id) x)) [
        | inl h ↦
            rw (row_evolves x y e.0, h)
              (latest_step x.1 y.1 (latest_of xs) (latest_of ys) e.0.4 e.0.5
                (latest_of-Evolves xs ys e.1))
        | inr h ↦ rw (row_evolves x y e.0, h) (latest_of-Evolves xs ys e.1)
      ]
