-- ===== src/Dispatcher/Claims.antt =====
-- plugin_task_dispatcher.py, `_drain_pending` and `_claim`: tasks are handed to pilots.
use radical_orbit.Prelude.{
  ℕ, zero, suc, ◌+◌, String, Bool, true, false, not, ◌&&◌, ◌||◌, Option, none, some, List, [], ◌∷◌,
  ◌++◌, if◌then◌else◌, or_default, length, ◌==◌, nat_eq, string_eq, option_eq, pair_eq,
}
use radical_orbit.Prelude.Dict.{Dict, lookup, insert}
use radical_orbit.Prelude.Int.{int_eq}
use radical_orbit.Prelude.Texts.{join_by}
use radical_orbit.Values.{Fields}
use radical_orbit.Config.{PoolMember}
use radical_orbit.Config
use radical_orbit.State.{PilotRecord, TaskState, TaskRecord, is_queued}
use radical_orbit.Pool.{PoolState, pending_queue}
use radical_orbit.Conservative.{Outcome, returns, raised}
use radical_orbit.Conservative.Dispatch.{pick_dispatch}
use radical_orbit.Dispatcher.{
  Host, submit_tasks, set_task, set_pilot, with_pool, notify_task, persist, create_task,
}
use radical_orbit.Dispatcher.Ending.{mark_task_failed}

is_shared : Option PoolMember → Bool
is_shared none = true
is_shared (some m) = m.shared_fs

member_base : (String → String) → Bool → Option String → String → String
member_base expand shared none fallback = fallback
member_base expand shared (some b) fallback =
    if b == "" then fallback else if shared then expand b else b

base_of : (String → String) → Option PoolMember → String → String
unfolding member_base
base_of expand none fallback = fallback
base_of expand (some m) fallback = member_base expand m.shared_fs m.scratch_base fallback

-- The task with its cwd under the placed member's scratch directory, when it has none of its own.
unfoldable pub place_cwd : Host → TaskRecord → Option PoolMember → TaskRecord
unfolding base_of
place_cwd h t m =
    if t.cwd_assigned
    then record t {
      cwd = join_by "/" (base_of h.settings.expand_user m h.pool.scratch_base) t.task_id;
    }
    else t

unfoldable pub may_place : Host → TaskRecord → Option PoolMember → Bool
unfolding is_shared
may_place h placed m = not (placed.cwd_assigned && is_shared m) || h.settings.make_dir placed.cwd

unfoldable pub run_on : TaskRecord → PilotRecord → ℕ → PoolState → PoolState
unfolding set_task set_pilot
run_on t p now ps =
    set_pilot p.pid (record p { in_flight = p.in_flight + 1; started_tasks = p.started_tasks + 1 })
      (set_task t.task_id
        (record t {
          state = TaskState.running;
          pilot_id = some p.pid;
          member_id = some p.member_id;
          started_at = some now;
        })
        ps)

-- `_claim`, and whether the claim stands.
unfoldable pub claim : TaskRecord → PilotRecord → ℕ → Host → Host × Bool
unfolding place_cwd may_place run_on mark_task_failed
claim t p now h =
    let m = Config.member h.pool.config p.member_id in
    let placed = place_cwd h t m in
    if may_place h placed m then (with_pool (run_on placed p now h.pool) h, true) else (
      mark_task_failed t.task_id (join_by placed.cwd "could not create task cwd " ": ") now
          (with_pool (set_task t.task_id placed h.pool) h),
      false,
    )

abbrev pub Assigned : Type 0
Assigned = Dict String (List String)

-- assigned.setdefault(pid, []).append(task)
assign : String → String → Assigned → Assigned
assign pid tid a = insert pid (or_default (lookup pid a) [] ++ (tid ∷ [])) a

unfoldable pub after_claim :
    (Host → Assigned → Host × Assigned) → Host × Bool → String → String → Assigned → Host × Assigned
unfolding assign
after_claim rest (h, true) pid tid a = rest h (assign pid tid a)
after_claim rest (h, false) pid tid a = rest h a

unfoldable pub drain_pick :
    (Host → Assigned → Host × Assigned)
    → Outcome (Option (TaskRecord × PilotRecord))
    → ℕ
    → Host
    → Assigned
    → Host × Assigned
unfolding after_claim
drain_pick rest raised now h a = (h, a)
drain_pick rest (returns none) now h a = (h, a)
drain_pick rest (returns (some (t, p))) now h a =
    if is_queued t.state then after_claim rest (claim t p now h) p.pid t.task_id a else (h, a)

-- The loop, with the number of picks that are left to it.
unfoldable pub drain_loop : ℕ → ℕ → Host → Assigned → Host × Assigned
unfolding drain_pick
drain_loop zero now h a = (h, a)
drain_loop (suc n) now h a =
    drain_pick (drain_loop n now) (pick_dispatch h.policy h.pool now) now h a

unfoldable pub notify_found : Option TaskRecord → Host → Host
unfolding notify_task
notify_found none h = h
notify_found (some t) h = notify_task t Fields.end h

unfoldable pub notify_tasks : List String → Host → Host
unfolding notify_found
notify_tasks [] h = h
notify_tasks (tid ∷ tids) h = notify_tasks tids (notify_found (lookup tid h.pool.tasks) h)

unfoldable pub start_submits : Assigned → Host → Host
unfolding notify_tasks create_task
start_submits [] h = h
start_submits ((pid, tids) ∷ a) h =
    start_submits a (create_task (submit_tasks pid tids) (notify_tasks tids h))

unfoldable pub finish_drain : Host × Assigned → Host
unfolding start_submits persist
finish_drain (h, []) = h
finish_drain (h, (e ∷ a)) = start_submits (e ∷ a) (persist h)

-- `_drain_pending`
unfoldable pub drain_pending : ℕ → Host → Host
unfolding finish_drain drain_loop
drain_pending now h = finish_drain (drain_loop (length (pending_queue h.pool)) now h [])
