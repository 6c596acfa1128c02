-- ===== src/Attention/Focus/Completion.antt =====
-- `complete_task` on the task that has the focus.
use prometheist.Base.{
  ℕ, ◌≡◌, ◌≢◌, refl, sym, ap, subst, ◌∙◌, true, Option, none, some, [], ◌∷◌, String, ok,
  no_duplicates, ℕ_eq,
}
use prometheist.Attention.Resources.{Uuid}
use prometheist.Attention.Scheduler.{
  AttentionTask, TaskStatus, new, queued, running, suspended, blocked, completed, failed, Scheduler,
  Action, ids_of, transition, is_running, invalidate_scheduling_plan,
}
use prometheist.Attention.Scheduler.Laws.{runner_found}
use prometheist.Attention.Focus.Defs.{fetch}
use prometheist.Attention.Focus.Lifecycle.{
  complete_task, complete_from, store_state, validate_focus,
}
use prometheist.Attention.Focus.Focused.{option_list}
use prometheist.Attention.Focus.Triples.{
  Active, Loose, Outcome, Triple-stop, replace_at, transition_at, moved, updated,
}
use prometheist.Attention.Focus.Steps.{fetch_found, Triple-update}
use prometheist.Attention.Focus.Decisions.{bind_ok}
use prometheist.Attention.Focus.Preserved.{state-IsUpdate}
use prometheist.Attention.Focus.Reach.{validate_focus_sound}

is_running-status : (x : TaskStatus) → is_running x ≡ true → x ≡ running
is_running-status new h = absurd (cc h)
is_running-status queued h = absurd (cc h)
is_running-status running h = refl
is_running-status suspended h = absurd (cc h)
is_running-status blocked h = absurd (cc h)
is_running-status completed h = absurd (cc h)
is_running-status failed h = absurd (cc h)

module _ ⦃u : Uuid⦄ where
  abbrev finished : String
  finished = "all durable worker steps completed"

  -- Task `k` completes, and the focus still names it.
  stopped :
      (s : Scheduler) (k : ℕ)
      → Active (some k) s
      → validate_focus (transition k completed finished s).1 ≢ ok tt
  unfolding invalidate_scheduling_plan
  stopped s k (f, e) valid =
      let (t, found, _) = runner_found s.tasks k f.distinct (f.running ∙ ap option_list e) in
      let at = transition_at s k completed finished t found in
      let loose : Loose k (moved s t completed finished) =
        subst (λ r. Outcome (λ _. Loose k) r.0 r.1) at
          ((Triple-stop k completed finished refl).at s (f, e)) in
      let kept =
        validate_focus_sound (moved s t completed finished) loose.0.distinct
          (sym (ap (λ r. validate_focus r.1) at) ∙ valid) in
      nil_cons (sym loose.0.running ∙ kept.running ∙ ap option_list e)
    where
      nil_cons : [] ≡ k ∷ [] → ⊥
      nil_cons h = cc

  stored :
      (s : Scheduler) (k : ℕ) (state : Option String)
      → Active (some k) s
      → (s' : Scheduler) × (store_state k state s ≡ (ok tt, s')) × Active (some k) s'
  unfolding store_state
  stored s k none p = (s, refl, p)
  stored s k (some state) (f, e) =
      let (t, found, _) = runner_found s.tasks k f.distinct (f.running ∙ ap option_list e) in
      let update : AttentionTask → AttentionTask = λ t. record t { resumable_state = state } in
      let at = replace_at s k update t found in
      (
        updated s (update t),
        at,
        subst (λ r. Outcome (λ _. Active (some k)) r.0 r.1) at
            ((Triple-update (some k) k update (state-IsUpdate state)).at s (f, e)),
      )

  -- `complete_task` does not ask whether the task has the focus. Called on the active task of a
  -- scheduler whose task identifiers are distinct and which the snapshot check on tasks and focus
  -- accepts, it leaves a scheduler that the check refuses.
  pub complete_task-active :
      (s : Scheduler) (k : ℕ) (state : Option String)
      → no_duplicates (ids_of s.tasks) ≡ true
      → validate_focus s ≡ ok tt
      → s.active_task_id ≡ some k
      → validate_focus (complete_task k state s).1 ≢ ok tt
  unfolding complete_task complete_from
  complete_task-active s k state d h e valid =
      let f = validate_focus_sound s d h in
      let (t, found, runs) = runner_found s.tasks k f.distinct (f.running ∙ ap option_list e) in
      let (s', at, active) = stored s k state (f, e) in
      let last : Unit {0} → Action (Unit {0}) = λ _. transition k completed finished in
      let reached =
        bind_ok (fetch k) (λ t. complete_from k state t.status) s s t (fetch_found s k t found)
        ∙ ap (λ x. complete_from k state x s) (is_running-status t.status runs)
        ∙ bind_ok (store_state k state) last s s' tt at in
      stopped s' k active (sym (ap (λ r. validate_focus r.1) reached) ∙ valid)
