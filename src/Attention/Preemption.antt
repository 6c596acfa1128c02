-- ===== src/Attention/Preemption.antt =====
-- The choice of the tasks that release capacity to a blocked task: `select_minimum_victims` of
-- attention_preemption.py.
mod Defs
mod States
mod Tests
pub mod Coverage
pub mod Minimal
pub mod Intents
pub mod Covers
unfoldable pub use Defs.{
  units_or_zero, tuple_lt, selection_lt, tuple_eq, lookup, put_state, improves, offer,
  next_coverage, extend, search_states, pick, required_classes, best_selection,
  select_minimum_victims,
}
pub use Defs.*
