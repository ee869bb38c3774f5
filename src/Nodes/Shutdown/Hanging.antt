-- ===== src/Nodes/Shutdown/Hanging.antt =====
-- What is done to a resource of bull-queue.js that does not close.
use node_red_contrib_bull.Prelude.{
  ℕ, ◌≡◌, Bool, true, false, List, ◌∷◌, Option, none, some, str_eq, if◌then◌else◌, Bool-cases, inl,
  inr, leb,
}
use node_red_contrib_bull.Js.Value.{Result, ok, err}
use node_red_contrib_bull.Nodes.Shutdown.{
  Client, Connection, Resource, Delays, Action, quits, disconnects, Clock, close_grace_ms, Race,
  settled, timeout, wait, act, settle_within, disconnect_clients, stop_checks, after_lock_manager,
  force_disconnect, after_quit, close_connection, close_resource, close_optional,
  close_resource_pair,
}

-- The action was carried out.
pub data Did (a : Action) : List Action → Type 0 where
  last : {rest : List Action} → Did a (a ∷ rest)
  before : {b : Action} {rest : List Action} → Did a rest → Did a (b ∷ rest)

Did-if :
    (a : Action) (b : Bool) (x y : Clock)
    → Did a x.done
    → Did a y.done
    → Did a (if b then x else y).done
Did-if a true x y h k = h
Did-if a false x y h k = k

stop_checks-Did :
    (a : Action) (r : Resource) (t : Clock) → Did a t.done → Did a (stop_checks r t).done
stop_checks-Did a r t h = Did-if a r.stalled_check_stopper _ _ (before h) h

lock_manager-Did :
    (a : Action) (r : Resource) (reply : ℕ × Result (Unit {0})) (t : Clock)
    → Did a t.done
    → Did a (after_lock_manager r reply t).1.done
lock_manager-Did a r (ms, ok u) t h = stop_checks-Did a r (wait ms t) h
lock_manager-Did a r (ms, err e) t h = h

module _ (delays : Delays) where
  force_disconnect-Did :
      (a : Action) (r : Resource) (t : Clock)
      → Did a (disconnect_clients r.clients t).done
      → Did a (force_disconnect delays r t).1.done
  unfolding force_disconnect
  force_disconnect-Did a r t h = elim (Bool-cases r.lock_manager) [
    | inl held ↦ rw held (lock_manager-Did a r (delays.lock_manager r.name) _ (before h))
    | inr free ↦ rw free (stop_checks-Did a r (disconnect_clients r.clients t) h)
  ]

  settle_within-Did :
      (a : Action) (delay : Option ℕ) (ms : ℕ) (t : Clock)
      → Did a t.done
      → Did a (settle_within delay ms t).1.done
  unfolding settle_within
  settle_within-Did a none ms t h = h
  settle_within-Did a (some after) ms t h = elim (Bool-cases (leb after ms)) [
    | inl first ↦ rw first h
    | inr late ↦ rw late h
  ]

  after_quit-Did :
      (a : Action) (c : Connection) (x : Race × Clock)
      → Did a x.1.done
      → Did a (after_quit delays c x).done
  after_quit-Did a c (settled, t) h = h
  after_quit-Did a c (timeout, t) h = before h

  close_connection-Did :
      (a : Action) (c : Connection) (t : Clock)
      → Did a t.done
      → Did a (close_connection delays c t).done
  unfolding close_connection
  close_connection-Did a c t h =
      Did-if a (str_eq c.status "ready") _ _
        (after_quit-Did a c
          (settle_within (delays.quit c.client) close_grace_ms (act (quits c.client) t))
          (settle_within-Did a (delays.quit c.client) close_grace_ms (act (quits c.client) t)
            (before h)))
        (before h)

  close_optional-Did :
      (a : Action) (connection : Option Connection) (t : Clock)
      → Did a t.done
      → Did a (close_optional delays connection t).done
  close_optional-Did a none t h = h
  close_optional-Did a (some c) t h = close_connection-Did a c t h

  -- When the close of a resource never settles, and its backend has a client and a blocking client
  -- of ioredis, both are disconnected, whatever the other promises do.
  pub close_resource_pair_hanging :
      (owner : Resource) (connection : Option Connection) (client blocking : Client) (t : Clock)
      → delays.close owner.name ≡ none
      → owner.clients ≡ some (client, some blocking)
      → Did (disconnects client) (close_resource_pair delays owner connection t).1.done
        × Did (disconnects blocking) (close_resource_pair delays owner connection t).1.done
  unfolding close_resource_pair close_resource settle_within
  close_resource_pair_hanging owner connection client blocking t hangs has_clients = (
    close_optional-Did _ connection _
        (rw hangs (force_disconnect-Did _ owner _ (rw has_clients (before last)))),
    close_optional-Did _ connection _
        (rw hangs (force_disconnect-Did _ owner _ (rw has_clients last))),
  )

  -- The connection is closed, too, whatever the close of its owner gives: a connection that is ready is
  -- asked to quit and another is disconnected.
  pub close_resource_pair-connection :
      (owner : Resource) (c : Connection) (t : Clock)
      → Did
          (if str_eq c.status "ready" then quits c.client else disconnects c.client)
          (close_resource_pair delays owner (some c) t).1.done
  unfolding close_resource_pair close_connection
  close_resource_pair-connection owner c t = elim (Bool-cases (str_eq c.status "ready")) [
    | inl live ↦
        let asked = act (quits c.client) (close_resource delays owner (some c) t).1 in
        rw live (
          after_quit-Did (quits c.client) c
            (settle_within (delays.quit c.client) close_grace_ms asked)
            (settle_within-Did (quits c.client) (delays.quit c.client) close_grace_ms asked last))
    | inr down ↦ rw down last
  ]
