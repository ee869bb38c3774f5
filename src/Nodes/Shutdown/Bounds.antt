-- ===== src/Nodes/Shutdown/Bounds.antt =====
-- How long the close of a resource of bull-queue.js takes.
use node_red_contrib_bull.Prelude.{
  ℕ, ◌+◌, ◌≤◌, ◌≡◌, refl, Option, none, some, arith, str_eq, Bool-cases, inl, inr,
}
use node_red_contrib_bull.Js.Value.{Result, ok, err}
use node_red_contrib_bull.Nodes.Shutdown.{
  Client, Connection, Resource, Delays, quits, closes_resource, closes_lock_manager, Clock,
  close_grace_ms, postgres_close_ms, close_budget_for, Race, settled, timeout, wait, act,
  settle_within, disconnect_clients, stop_checks, after_lock_manager, force_disconnect, after_quit,
  close_connection, after_close, close_resource, close_optional, close_resource_pair,
}

settle_within-bound :
    (delay : Option ℕ) (ms : ℕ) (t : Clock) → (settle_within delay ms t).1.elapsed ≤ t.elapsed + ms
unfolding settle_within
settle_within-bound none ms t = omega arith
settle_within-bound (some after) ms t = ground arith

clients-elapsed :
    (clients : Option (Client × Option Client)) (t : Clock)
    → (disconnect_clients clients t).elapsed ≡ t.elapsed
clients-elapsed none t = refl
clients-elapsed (some (a, none)) t = refl
clients-elapsed (some (a, some b)) t = refl

stop_checks-elapsed : (r : Resource) (t : Clock) → (stop_checks r t).elapsed ≡ t.elapsed
stop_checks-elapsed r t = ground arith

module _ (delays : Delays) (lock_ms : ℕ) where
  lock_manager-bound :
      (r : Resource) (reply : ℕ × Result (Unit {0})) (t : Clock)
      → reply.0 ≤ lock_ms
      → (after_lock_manager r reply t).1.elapsed ≤ t.elapsed + lock_ms
  lock_manager-bound r (ms, ok u) t h = ground (arith, stop_checks-elapsed r (wait ms t))
  lock_manager-bound r (ms, err e) t h = omega arith

  force_disconnect-bound :
      (r : Resource) (t : Clock)
      → (delays.lock_manager r.name).0 ≤ lock_ms
      → (force_disconnect delays r t).1.elapsed ≤ t.elapsed + lock_ms
  unfolding force_disconnect
  force_disconnect-bound r t h = elim (Bool-cases r.lock_manager) [
    | inl held ↦ rw held (
        ground (
          arith,
          clients-elapsed r.clients t,
          lock_manager-bound r (delays.lock_manager r.name)
              (act (closes_lock_manager r.name) (disconnect_clients r.clients t)) h,
        ))
    | inr free ↦ rw free (
        ground (
          arith,
          clients-elapsed r.clients t,
          stop_checks-elapsed r (disconnect_clients r.clients t),
        ))
  ]

  after_quit-elapsed :
      (c : Connection) (x : Race × Clock) → (after_quit delays c x).elapsed ≡ x.1.elapsed
  after_quit-elapsed c (settled, t) = refl
  after_quit-elapsed c (timeout, t) = refl

  close_connection-bound :
      (c : Connection) (t : Clock)
      → (close_connection delays c t).elapsed ≤ t.elapsed + close_grace_ms
  unfolding close_connection
  close_connection-bound c t = elim (Bool-cases (str_eq c.status "ready")) [
    | inl live ↦ rw live (
        ground (
          arith,
          after_quit-elapsed c
              (settle_within (delays.quit c.client) close_grace_ms (act (quits c.client) t)),
          settle_within-bound (delays.quit c.client) close_grace_ms (act (quits c.client) t),
        ))
    | inr down ↦ rw down (omega arith)
  ]

  after_close-bound :
      (r : Resource) (x : Race × Clock)
      → (delays.lock_manager r.name).0 ≤ lock_ms
      → (after_close delays r x).1.elapsed ≤ x.1.elapsed + lock_ms
  after_close-bound r (settled, t) h = omega arith
  after_close-bound r (timeout, t) h = force_disconnect-bound r t h

  budget-bound : (connection : Option Connection) → close_budget_for connection ≤ postgres_close_ms
  unfolding close_budget_for
  budget-bound none = omega arith
  budget-bound (some c) = ground arith

  close_optional-bound :
      (connection : Option Connection) (t : Clock)
      → (close_optional delays connection t).elapsed ≤ t.elapsed + close_grace_ms
  close_optional-bound none t = omega arith
  close_optional-bound (some c) t = close_connection-bound c t

  -- Closing a resource and its connection takes at most 12 seconds and the time that its lock
  -- manager takes to close, also where neither promise of the libraries ever settles.
  pub close_resource_pair-elapsed :
      (owner : Resource) (connection : Option Connection) (t : Clock)
      → (delays.lock_manager owner.name).0 ≤ lock_ms
      → (close_resource_pair delays owner connection t).1.elapsed ≤ t.elapsed + 12000 + lock_ms
  unfolding close_resource_pair close_resource
  close_resource_pair-elapsed owner connection t h = omega (
    arith,
    close_optional-bound connection (close_resource delays owner connection t).1,
    after_close-bound owner
        (settle_within (delays.close owner.name) (close_budget_for connection)
          (act (closes_resource owner.name) t))
        h,
    settle_within-bound (delays.close owner.name) (close_budget_for connection)
        (act (closes_resource owner.name) t),
    budget-bound connection,
  )
