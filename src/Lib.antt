-- ===== src/Lib.antt =====
-- Prometheist: the deterministic scheduling of its attention, and the leases of its workers.
--
-- The program keeps tasks and execution resources, and decides which task has the focus and which
-- tasks may run; workers borrow what was assigned under leases. Everything below src/prometheist of the repository is Python; paths here are from
-- the repository's root.
--
-- Ordering models src/prometheist/attention_ordering.py: `work_item` is the constructor of
-- `AttentionWorkItem` with its validators, `deterministic_dependency_order` the function of that
-- name. Its loop runs on fuel, one round for each item: each round removes an item.
--
-- Attention models src/prometheist/attention_resources.py and parts of attention.py:
--   Resources     the resource classes, pools, requirements, reservations and their validators
--   Metadata      SchedulingMetadata, its resource contract, and the service guarantees
--   Allocation    _allocate_task_resources, _resource_class_deficits and
--                 _hold_available_task_capacity, over pools in their canonical order
--   Scheduler     the state of JITAttentionScheduler, its tasks and transitions, and the ranking
--                 of the queue
--   Admission     reconcile_resource_admission and execution_resources
--   Preemption    attention_preemption.py: select_minimum_victims with its dynamic program, the
--                 intents and events with their validators and identities
--   Assignments   attention_assignments.py: assignments, epochs and plans with their validators, and
--                 the identities of assignments and epochs
--   Observation   attention_observation.py: the policy, the snapshot with its validators, discovery,
--                 and how a snapshot is built from a sample of the host
--   Focus         the single-focus operations: submit, advance_cycle, reconcile_focus,
--                 checkpoint_active, complete_active, fail_active, set_resumable_state and
--                 complete_task, with the part of _validate_snapshot about tasks and focus
-- The focus reads the ranking of the scheduler, which reads the contract of a task and the
-- capacity of the pools. The admission goes over the same ranking and allocates the pools, and the
-- deficits of an allocation are what victims are chosen for.
--
-- Worker models src/prometheist/worker_protocol.py, worker_store.py and worker_runtime.py:
--   Protocol      the records of a worker's life, their validators and identities
--   Launch        worker_runtime.py: Gate has _is_transient_resource_denial, Retries the rounds of
--                 GuardedWorkerLauncher.claim, one for each attempt that is allowed, Start launch,
--                 Failed what is left where a process does not start
--   Store         the tables of schema.sql with their unique constraints, what is read and written of
--                 them, and the operations: Register, Claiming (with Denials) and Leases. Calls has
--                 them as one type, with what the scheduler writes in between, its closing of expired
--                 leases (attention_store.py) included. Moves is what an
--                 operation can do to the tables; LeaseMoves and ClaimMoves show that each does no
--                 more; Runs, Published and AtMostOnce follow the moves over any calls. Admitted,
--                 Authorized, HandedOut and Inserted are about a lease that is granted, Settling and Retries
--                 about a completion that is sent again, Closings and Raises about errors.
-- A claim of a worker builds an observation of the host first, with the reservations of all live
-- claims, and is granted against it and against the epoch that the scheduler committed.
--
-- How the state is read. A method is a function from a scheduler to a result and a scheduler: what
-- it wrote before it raised stays written. A dictionary is an association list in insertion order.
-- A UUID is the number that its 32 hexadecimal digits write, `uuid5` and the text of a UUID are a
-- parameter (Attention.Resources.Uuid). A text that is JSON is passed on unread. Instants are
-- microseconds since the first one of a datetime. The texts of error messages that quote a value
-- leave the value out, but for the error of missing dependencies. That a sum of instants leaves the
-- range of a datetime is modelled of the lifetime of a snapshot, not of the leases.
-- A transaction of the store is a function from the tables to what it returns or raises and the
-- tables it leaves; one that raises is rolled back. The readings of the clock and of the probe are
-- arguments. Foreign keys and CHECK constraints are left to the validators, which have the same
-- tests. A JSON object is its canonical text, and the JSON texts of snapshots and observations are
-- parameters. `load_1m` counts hundredths, as the probe rounds it, or is unbounded; percentages are
-- worked out as if Python's division of integers had no rounding errors.
-- Of the epochs the scheduler keeps here whether there is one, whether a plan is pending and
-- whether an observation is pending, which is what the operations ask.
--
-- Base has what the components share: equality and order as interfaces, Python's `sorted`, `min`
-- and `str.strip`, results with the exceptions that are raised, and lemmas on lists.
--
-- Not modelled: the planning and the commit of scheduling epochs, the probes of the host and the controller
-- around an observation, perception, memory, the stores and the user interface.
-- What of these is input and output, a network call or SQL stays outside.
pub mod Base
pub mod Worker
pub mod Ordering
pub mod Attention
