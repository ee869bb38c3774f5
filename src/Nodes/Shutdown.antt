-- ===== src/Nodes/Shutdown.antt =====
-- bull-queue.js: how resources are closed, `closeBudgetFor` to `closeResourcePair`. The clock and what was
-- done to the resources are a state that is passed on; how long each promise of the libraries takes to
-- settle is a parameter, `none` for one that never settles. Of a promise and a timer that are due at the
-- same time, the promise counts as the first.
pub mod Bounds
pub mod Hanging
use node_red_contrib_bull.Prelude.{
  ℕ, ◌+◌, String, Bool, true, false, not, ◌&&◌, List, [], ◌∷◌, Option, none, some, leb, str_eq,
  if◌then◌else◌,
}
use node_red_contrib_bull.Js.Value.{Value, Result, ok, err, truthy}
use node_red_contrib_bull.Connections.Config.{postgres_connection_timeout_ms}

-- A client of ioredis that can be disconnected, by a number.
abbrev pub Client : Type 0
Client = ℕ

-- A connection of ioredis: it has no method `close`.
pub record Connection : Type 0 where
  pub client : Client
  pub status : String

-- A resource of BullMQ: the raw clients of its backend, where there are some, and whether it has a lock
-- manager and a stopper of the stalled checks.
pub record Resource : Type 0 where
  pub name : ℕ
  pub clients : Option (Client × Option Client)
  pub lock_manager : Bool
  pub stalled_check_stopper : Bool

-- How long the promises take, and what closing a lock manager gives.
pub record Delays : Type 0 where
  pub quit : Client → Option ℕ
  pub close : ℕ → Option ℕ
  pub lock_manager : ℕ → ℕ × Result (Unit {0})

pub data Action : Type 0 where
  quits disconnects : Client → Action
  closes_resource closes_lock_manager stops_checks : ℕ → Action

pub record Clock : Type 0 where
  pub elapsed : ℕ
  pub done : List Action

abbrev pub close_grace_ms : ℕ
close_grace_ms = 1000

abbrev pub graceful_close_ms : ℕ
graceful_close_ms = 10000

abbrev pub postgres_close_ms : ℕ
postgres_close_ms = postgres_connection_timeout_ms + close_grace_ms

unfoldable pub close_budget_for : Option Connection → ℕ
close_budget_for none = postgres_close_ms
close_budget_for (some c) = if str_eq c.status "ready" then graceful_close_ms else close_grace_ms

pub data Race : Type 0 where
  settled timeout : Race

abbrev pub wait : ℕ → Clock → Clock
wait ms t = record t { elapsed = t.elapsed + ms }

abbrev pub act : Action → Clock → Clock
act a t = record t { done = a ∷ t.done }

-- `settleWithin`: which comes first, and the clock then. A promise that is rejected has settled, too.
unfoldable pub settle_within : Option ℕ → ℕ → Clock → Race × Clock
settle_within none ms t = (timeout, wait ms t)
settle_within (some after) ms t =
    if leb after ms then (settled, wait after t) else (timeout, wait ms t)

-- `disconnectClient`: what it throws is caught.
abbrev pub disconnect_client : Option Client → Clock → Clock
disconnect_client none t = t
disconnect_client (some c) t = act (disconnects c) t

abbrev pub disconnect_clients : Option (Client × Option Client) → Clock → Clock
disconnect_clients none t = t
disconnect_clients (some (client, blocking)) t =
    disconnect_client blocking (disconnect_client (some client) t)

abbrev pub stop_checks : Resource → Clock → Clock
stop_checks r t = if r.stalled_check_stopper then act (stops_checks r.name) t else t

-- The await of `lockManager.close()`: if it rejects, what follows is skipped.
abbrev pub after_lock_manager : Resource → ℕ × Result (Unit {0}) → Clock → Result (Unit {0}) × Clock
after_lock_manager r (ms, ok _) t = (ok tt, stop_checks r (wait ms t))
after_lock_manager r (ms, err e) t = (err e, wait ms t)

-- `if (firstError) throw firstError;`
abbrev pub throw_first : Result (Unit {0}) → Result (Unit {0})
throw_first (ok u) = ok u
throw_first (err e) = if truthy e then err e else ok tt

module _ (delays : Delays) where
  -- `forceDisconnect` of a resource of BullMQ.
  unfoldable pub force_disconnect : Resource → Clock → Result (Unit {0}) × Clock
  force_disconnect r t =
      let disconnected = disconnect_clients r.clients t in
      if r.lock_manager
      then after_lock_manager r (delays.lock_manager r.name)
          (act (closes_lock_manager r.name) disconnected)
      else (ok tt, stop_checks r disconnected)

  abbrev pub after_quit : Connection → Race × Clock → Clock
  after_quit c (settled, t) = t
  after_quit c (timeout, t) = disconnect_client (some c.client) t

  -- `closeResource` of a connection of ioredis.
  unfoldable pub close_connection : Connection → Clock → Clock
  close_connection c t =
      if str_eq c.status "ready"
      then after_quit c
          (settle_within (delays.quit c.client) close_grace_ms (act (quits c.client) t))
      else disconnect_client (some c.client) t

  abbrev pub after_close : Resource → Race × Clock → Result (Unit {0}) × Clock
  after_close r (settled, t) = (ok tt, t)
  after_close r (timeout, t) = force_disconnect r t

  -- `closeResource` of a resource of BullMQ, for the connection that gives its budget.
  unfoldable pub close_resource : Resource → Option Connection → Clock → Result (Unit {0}) × Clock
  close_resource r connection t = after_close r (
      settle_within (delays.close r.name) (close_budget_for connection)
        (act (closes_resource r.name) t))

  abbrev pub close_optional : Option Connection → Clock → Clock
  close_optional none t = t
  close_optional (some c) t = close_connection c t

  -- `closeResourcePair`: the connection is closed whatever the first close gives; its own close throws
  -- nothing.
  abbrev pub then_connection :
      Option Connection → Result (Unit {0}) × Clock → Result (Unit {0}) × Clock
  then_connection connection (first, t) = (throw_first first, close_optional connection t)

  unfoldable pub close_resource_pair :
      Resource → Option Connection → Clock → Result (Unit {0}) × Clock
  close_resource_pair owner connection t =
      then_connection connection (close_resource owner connection t)
