-- ===== src/Worker/Store/RegisterMoves.antt =====
-- The registration of a step, as moves.
use prometheist.Base.{
  ℕ, refl, not, List, [], ◌∷◌, String, any, contains, ◌==◌, ℕ_eq, String_eq, ℕ_ordered,
  String_ordered, Bool-cases, inl, inr, OnOk, OnOk-bind, OnOk-raise, OnOk_value,
}
use prometheist.Attention.Resources.{Uuid}
use prometheist.Worker.Protocol.{
  WorkerStep, WorkerEffectPolicy, worker_step, deterministic_worker_step_id,
}
use prometheist.Worker.Store.Tables.{Store, steps_conflict, insert_row}
use prometheist.Worker.Store.Load.{required, load_step}
use prometheist.Worker.Store.Writes.{insert_immutable_step, same_step}
use prometheist.Worker.Store.Register.{new_step, register_body, current_assignment, find_task_row}
use prometheist.Worker.Store.Evolves.{Evolves-refl}
use prometheist.Worker.Store.Moves.{Move, evolves, one_move, StepsKept-refl}
use prometheist.Worker.Store.LeaseMoves.{Reached}

module _ ⦃u : Uuid⦄ (key : String) where
  insert_immutable_step-Move :
      (step : WorkerStep) (s : Store) → OnOk (λ t. Move key s t) (insert_immutable_step key step s)
  unfolding insert_immutable_step insert_row
  insert_immutable_step-Move step s =
      let P : Store → Type 0 = λ t. Move key s t in
      let next = record s { steps = insert_row steps_conflict (key, step) s.steps } in
      OnOk-bind P (load_step key step.step_id next) _ λ stored loaded.
        OnOk-raise P (not (same_step stored step)) _ _ λ same.
          elim (Bool-cases (any (steps_conflict (key, step)) s.steps)) [
            | inl e ↦ evolves (Evolves-refl s.claims) refl (rw e (StepsKept-refl key s))
            | inr e ↦ evolves (Evolves-refl s.claims) refl (rw e ((key, step) ∷ [], refl))
          ]

  pub register_body-Moves :
      (assignment_id : ℕ) (step_key capability : String) (input_refs : List String)
      (effect_policy : WorkerEffectPolicy) (s : Store)
      → OnOk
          (Reached key s)
          (register_body key assignment_id step_key capability input_refs effect_policy s)
  unfolding register_body
  register_body-Moves assignment_id step_key capability input_refs effect_policy s =
      let P = Reached key {V = WorkerStep} s in
      OnOk-bind P (current_assignment key assignment_id s) _ λ a current.
        OnOk-bind P (required _ (find_task_row s.scheduler.tasks a.task_id)) _ λ task there.
          OnOk-raise P (not (task.revision == a.task_revision)) _ _ λ same.
            OnOk-raise P (not (contains task.required_capabilities capability)) _ _ λ declared.
              OnOk-bind P (deterministic_worker_step_id assignment_id step_key) _ λ step_id made.
                OnOk-bind P
                  (worker_step
                    (new_step key a step_id step_key capability input_refs effect_policy))
                  _
                  λ step valid. OnOk-bind P (insert_immutable_step key step s) _ λ t stored.
                    one_move key
                      (OnOk_value (λ t. Move key s t) _ (insert_immutable_step-Move step s) stored)
