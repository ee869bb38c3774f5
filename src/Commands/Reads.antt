-- ===== src/Commands/Reads.antt =====
-- Commands that only read.
use node_red_contrib_bull.Prelude.{
  String, ◌≡◌, refl, Bool, true, false, ◌&&◌, ◌||◌, List, [], ◌∷◌, some, arith, str_eq_iff,
}
use node_red_contrib_bull.Js.Text.{elem, is_prefix}
use node_red_contrib_bull.Js.Value.{Fields}
use node_red_contrib_bull.Js.Program.{Calls, Calls-mono}
use node_red_contrib_bull.Library.{queue, worker, flow_producer, job, Call, invoke, look}
use node_red_contrib_bull.Commands.Names
use node_red_contrib_bull.Commands.Names.{Command}
use node_red_contrib_bull.Commands.Permitted.{Allowed, queue_methods, job_methods}
use node_red_contrib_bull.Commands.Dispatch.{command_of, select, dispatch_command}
use node_red_contrib_bull.Commands.Calls.{dispatch_command-Calls}

-- A method that BullMQ names as a getter or a test.
unfoldable pub is_getter : String → Bool
is_getter method = is_prefix "get" method || is_prefix "is" method || is_prefix "export" method

-- A call that changes no queue and no job.
abbrev pub IsRead : Call → Type 0
IsRead (invoke target method args) = is_getter method ≡ true
IsRead (look _) = Unit

-- The commands that a flow may send without changing anything.
abbrev pub is_read_command : Command → Bool
is_read_command Names.get_job = true
is_read_command Names.get_jobs = true
is_read_command Names.get_job_state = true
is_read_command Names.get_delayed = true
is_read_command Names.get_prioritized = true
is_read_command Names.get_counts_per_priority = true
is_read_command Names.get_deduplication_job_id = true
is_read_command Names.get_job_scheduler = true
is_read_command Names.get_job_schedulers = true
is_read_command Names.get_job_schedulers_count = true
is_read_command Names.get_job_counts = true
is_read_command Names.is_paused = true
is_read_command Names.is_maxed = true
is_read_command Names.get_global_concurrency = true
is_read_command Names.get_global_rate_limit = true
is_read_command Names.get_rate_limit_ttl = true
is_read_command Names.get_job_logs = true
is_read_command Names.get_version = true
is_read_command Names.export_prometheus_metrics = true
is_read_command _ = false

abbrev all_getters : List String → Bool
all_getters [] = true
all_getters (m ∷ ms) = is_getter m && all_getters ms

elem-is_getter :
    (method : String) (names : List String)
    → all_getters names ≡ true
    → elem method names ≡ true
    → is_getter method ≡ true
unfolding elem
elem-is_getter method [] g e = cc
elem-is_getter method (m ∷ ms) g e = ground (arith, str_eq_iff method m, elem-is_getter method ms)

only_getters :
    (c : Command)
    → is_read_command c ≡ true
    → (all_getters (queue_methods c) ≡ true) × (all_getters (job_methods c) ≡ true)
unfolding is_getter is_prefix
only_getters Names.get_job h = (refl, refl)
only_getters _ h = (cc, cc)

Allowed-IsRead : (c : Command) → is_read_command c ≡ true → (k : Call) → Allowed c k → IsRead k
Allowed-IsRead c h (invoke queue method args) p =
    elem-is_getter method (queue_methods c) (only_getters c h).0 p.0
Allowed-IsRead c h (invoke (job j) method args) p =
    elem-is_getter method (job_methods c) (only_getters c h).1 p
Allowed-IsRead c h (invoke worker method args) p = absurd p
Allowed-IsRead c h (invoke flow_producer method args) p = absurd p
Allowed-IsRead c h (look v) p = tt

-- A reading command calls methods of BullMQ only that are named as getters or tests, whatever else
-- the message holds and whatever BullMQ answers.
pub dispatch_command-IsRead :
    (msg : Fields) (c : Command)
    → select (command_of msg) ≡ some c
    → is_read_command c ≡ true
    → Calls IsRead (dispatch_command msg)
dispatch_command-IsRead msg c e h = Calls-mono (Allowed-IsRead c h) (dispatch_command-Calls msg c e)
