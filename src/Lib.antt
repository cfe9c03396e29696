-- ===== src/Lib.antt =====
-- A verification library for Sarmady, the cognitive runtime under src/sarmady/.
--
-- The program keeps canonical semantic state (events, evidence, claims, relations between claims,
-- memory entries and their lifecycle events) in SQLite tables with one append-only semantic log,
-- and derives from it the heads of keys, resolved states, context projections and the records of
-- model invocations. A write logs itself and makes the projections stale that depend on it; a
-- projection is the ground of a cognitive request, whose invocation may leave an artifact that asks
-- for more context; the host decides over it, which may create a child request.
--
-- Parts and files:
--   Prelude, Outcome, Time, Host: shared names; calls that may raise; instants; and the functions of
--     Python's standard library that the program uses, as one record of parameters.
--   Values: values.py (freeze_value, FrozenMapping, thaw_value).
--   Epistemic, Memory, Context, Cognition: the data classes of epistemic/models.py,
--     memory/models.py, context/models.py and cognition/, each with its __post_init__ as a function
--     check_... that gives the object or the exception. Identifiers are numbers.
--   Store: the tables of storage/sqlite/schema.py as lists of rows in one record Db, the log and
--     the invalidation (store.py, projection_store.py). Store/Resolution and Store/ResolvedState are
--     resolution.py; Store/ClaimHeads is the table claim_heads and its rebuild; Store/Epistemic is
--     commit_claim_bundle of epistemic_store.py; Store/Memory is memory_store.py; Store/Capture is
--     the dependency capture of store.py; Store/Projection is projection_store.py; Store/Cognitive
--     is cognitive_store.py; Store/ContextNeed is context_need_store.py. Store/History runs
--     transactions one after another, Store/Admission, Store/Quiet, Store/Writes and
--     Store/Staleness are about the writes of a commit, Store/Lifecycle is about the lifecycle
--     column of memory_entries beside the events of memory_lifecycle_events, Store/AppendOnly is
--     about the tables whose rows stay; Store/Migration is the migration of older stores in
--     schema.py.
--   Context/Planning: context/planning.py. Retrieval: context/candidates.py and context/_lexical.py.
--   Compiler: context/compiler.py and context/coverage.py, each a walk over the captured reads of
--     Store/Capture that ends in a registration (Store/Projection/Registration).
--   Observation: epistemic/service.py. Runtime: runtime/model.py, with the adapter, the readings of
--     the clock and new identifiers as arguments; Store/Reasoning: reasoning_store.py, and
--     Cognition/Reasoning: cognition/reasoning.py.
--   Fulfillment: context/fulfillment.py, with the outcomes of accept in Fulfillment/Outcomes and /Accepted. Kernel: kernel/authority.py and kernel/action.py; Kernel/Identity and
--     Store/Identity: kernel/identity.py and identity_store.py.
--   Tests: runs at concrete inputs.
--
-- A transaction's body is a function from Db to a result: a body that raises leaves the database
-- that was there, as the rollback does. Unique indexes and foreign keys are guards of the inserts.
-- The log is walked in the order of its entries, which is the order of seq.
--
-- Fuel: only walk_lineage, the loop of resolve_state over the revision parents, runs on fuel, one
-- more than there are parents, and raises an exception that Python does not have when it is used
-- up; Store/ResolvedState/Fuel has the loop without fuel. Every other loop is structural.
--
-- Times: to order a naive and an aware value raises, where no constructor rules it out before.
--
-- Not modelled: SQL text and row codecs, locks and threads (writes are
-- serialized by the write lock), and exceptions that are not an Exception of
-- Python. The type tests of the constructors are the model's types, and an
-- exception's message is without the values that the source puts into it.
pub mod Prelude
pub mod Outcome
pub mod Time
pub mod Values
pub mod Epistemic
pub mod Memory
pub mod Host
pub mod Context
pub mod Cognition
pub mod Observation
pub mod Compiler
pub mod Runtime
pub mod Store
pub mod Kernel
pub mod Retrieval
pub mod Fulfillment
mod Tests
