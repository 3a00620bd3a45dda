-- ===== src/Lib.antt =====
-- A verification library for RADICAL-Orbit: the scheduling core of its task dispatcher, and the routing
-- and event delivery of its broker, and the policy of its federation.
--
-- The program. A broker connects clients and endpoints, routes their calls, watches over their
-- sockets and delivers events to subscribers. A task
-- dispatcher, a plugin of the broker, holds pools. A pool declares members, which say where pilots
-- come from and of what size; its pilots are batch jobs (or adopted endpoints) that run tasks through
-- rhapsody. A policy decides which member gets a pilot and which task goes to which pilot; the
-- dispatcher carries it out, follows the pilots' liveness and the reports on tasks, and notifies.
--
-- Which file models what (paths are from the repository's root):
--   Queues         src/radical/orbit/queues.py. `push` and `drain`, as turns of the event loop.
--   Events         src/radical/orbit/broker_events.py, EventRouter. `ingest`, `fan_out`, the counters.
--   Subscriptions  the same file: `update_subscription`, `_reindex` and `_matches`.
--   Broker         src/radical/orbit/broker.py, with the records of protocol.py. Broker has the state,
--                  the topology and its delivery to hosted plugins; Broker/Endpoints is `_register`,
--                  `_on_socket_drop`, the grace timers and `_disconnect`; Broker/Calls is the table of
--                  calls and the routing; Broker/Steps is the routing loop, as a relation. The other
--                  children are named for what they are about: Sound the invariant, Table and Bounds
--                  the caps, Sweep and Answered the loops that fail calls, Takeover who may replace
--                  whom, Shown the deliveries, Paths the paths and names of plugins.
--   Federation     src/radical/orbit/federation_state.py: members, resources, state words, the ledger.
--                  Federation/Policy is BudgetLoadPolicy of src/radical/orbit/federation_policy.py;
--                  Federation/Choice is about `pick_class`, Federation/Leaving about `drop_resource`.
--   Values         JSON and the numbers that attributes hold.
--   Match          src/radical/orbit/task_dispatcher_match.py, `satisfies`.
--   Config         src/radical/orbit/task_dispatcher_config.py: PilotSize, PoolMember, PoolConfig.
--                  Config/Declare and its children are `parse_pools` and all it calls.
--   State          src/radical/orbit/task_dispatcher_state.py: PilotRecord, TaskRecord, `node_hours`.
--   Pool           src/radical/orbit/plugin_task_dispatcher.py, PoolState.
--   Conservative   src/radical/orbit/task_dispatcher_strategy_conservative.py. The guards and hooks are
--                  in Conservative, `on_tick` in Conservative/Tick, `pick_dispatch` in
--                  Conservative/Dispatch.
--   Admission      src/radical/orbit/plugin_task_dispatcher.py, `parse_requirements`.
--   Dispatcher     src/radical/orbit/plugin_task_dispatcher.py, the plugin itself: notifications and
--                  flushes; Dispatcher/Ending is `_mark_task_failed` and `_cancel_task`;
--                  Dispatcher/Claims is `_claim` and `_drain_pending`; Dispatcher/Terminal is
--                  `_on_event` to `_handle_task_terminal`; Dispatcher/Pilots is `_activate_pilot`,
--                  `_finalize_pilot` and `_reconcile_pilots_for`; its child Submit is `_submit_pilot`.
--                  Dispatcher/Slots and Dispatcher/Sound state the invariant of the ledger; the children
--                  of Sound follow it through the handlers, and Sound/Life/Runs through any order of
--                  them; Sound/Enough is about the budget of a drain.
--   Prelude        helpers: tests, lists, dicts in insertion order, stable sorting, counting.
--   Samples        a small pool, and runs of the theorems on it.
--
-- How state and calls correspond. An object that the code mutates is a record, and a method is a
-- function from record to record; a record of a pilot or a task is kept under its id, since its
-- holders share it. A handler runs without interruption to its next `await`; `_cancel_task`, which
-- awaits the pilot in between, is two steps. In the broker a send is taken to return at once, but the
-- teardown of a socket is cut at its broadcast. A websocket is the number of its connection. A KeyError or a TypeError is the result `raised` or
-- `raises`. A log line is left out.
--
-- Numbers. Times are whole milliseconds and memory is in units of 1/1024 GB, where the code has
-- floats (the parsers of declarations take the conversion as an argument); a budget is in nodes
-- times milliseconds, and fractions of budgets are compared by cross
-- multiplication. Numbers are unbounded, as Python's are. `-` on ℕ stops at 0, and stands only where
-- the code has max(0, ..) or tested before; a difference that may be negative is an integer.
--
-- Loops. `_drain_pending` is bounded in the code by the length of the pending queue, and its model
-- counts the same number down; every other loop follows a list. No fuel is needed. The policy of the
-- pool is the conservative one: another registered policy is not modelled.
--
-- Not modelled: the JSON store (a persist copies the records), what happens on the network and on
-- disk (whether a directory can be made, the expansion of `~`, and the size of a payload as JSON are
-- arguments, in `Settings`), psij and rhapsody, which run on the other side of an event, and the
-- choice of fresh ids. A dispatcher is modelled with one pool, so an event for another pool leaves
-- it as it is. The submission of a task, the coroutines `_do_pilot_submit` and `_do_rhapsody_submit`,
-- the persistence view of a configuration, the admission of requirements to a pool, sessions, the federation
-- plugin and the other plugins are left to later modules.
pub mod Prelude
pub mod Queues
pub mod Values
pub mod Match
pub mod Config
pub mod Federation
pub mod State
pub mod Pool
pub mod Broker
pub mod Conservative
pub mod Admission
pub mod Dispatcher
pub mod Samples
pub mod Subscriptions
pub mod Events
