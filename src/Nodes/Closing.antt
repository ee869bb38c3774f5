-- ===== src/Nodes/Closing.antt =====
-- bull-queue.js: how the configuration node and the nodes with a resource close, up to their call of `done`.
-- The resources that close at the same time start at the same time, each with a clock of its own; a state of
-- the libraries that is tested when they start is a parameter.
pub mod Waiting
pub mod Outcomes
use node_red_contrib_bull.Prelude.{
  ℕ, String, Bool, true, false, List, [], ◌∷◌, Option, none, some, leb, if◌then◌else◌,
}
use node_red_contrib_bull.Js.Value.{Value, Result, ok, err}
use node_red_contrib_bull.Acknowledgements.{Registry}
use node_red_contrib_bull.Nodes.Shutdown.{Resource, Delays, Clock, close_resource_pair}
use node_red_contrib_bull.Nodes.Shutdown
use node_red_contrib_bull.Nodes.Resources.{
  Connection, Tracked, Server, take_owner, release_resource, all_reversed, on_close,
}
use node_red_contrib_bull.Nodes.Lifecycle.{close_run_node}

-- The objects of the libraries, by the numbers that the configuration node gave them.
pub record World : Type 0 where
  pub resource : ℕ → Resource
  pub connection : ℕ → Shutdown.Connection

-- What a promise comes to, and when.
abbrev pub Settled : Type 0
Settled = Result (Unit {0}) × ℕ

abbrev pub and_fulfilled : ℕ → Settled → Settled
and_fulfilled at (ok u, last) = (ok u, if leb at last then last else at)
and_fulfilled at (err e, first) = (err e, first)

abbrev pub and_rejected : Value → ℕ → Settled → Settled
and_rejected e at (ok u, last) = (err e, at)
and_rejected e at (err later, first) = if leb at first then (err e, at) else (err later, first)

abbrev pub and_settled : Settled → Settled → Settled
and_settled (ok u, at) rest = and_fulfilled at rest
and_settled (err e, at) rest = and_rejected e at rest

-- What `done` is called with, and when, and whether the status of the node was cleared.
pub record Closed : Type 0 where
  pub done : Result (Unit {0})
  pub at : ℕ
  pub cleared : Bool

abbrev pub finish_close : Settled → Closed
finish_close (ok u, at) = record { done = ok u; at = at; cleared = true }
finish_close (err e, at) = record { done = err e; at = at; cleared = false }

module _ (delays : Delays) (world : World) (now : ℕ) where
  abbrev pub described : Option Connection → Option Shutdown.Connection
  described none = none
  described (some c) = some (world.connection c.address)

  -- `closeResourcePair` of an entry of the Map, from now on.
  unfoldable pub closed_pair : Tracked → Settled
  closed_pair t =
      let (result, clock) =
        close_resource_pair delays (world.resource t.owner) (described t.connection)
          (record { elapsed = now; done = [] }) in
      (result, clock.elapsed)

  -- `Promise.all` of `closeResourcePair` over a list: fulfilled with the last, or rejected with the first that
  -- rejects, of two at the same time the one that comes first in the list.
  unfoldable pub all_closed : List Tracked → Settled
  all_closed [] = (ok tt, now)
  all_closed (t ∷ ts) = and_settled (closed_pair t) (all_closed ts)

  -- `onClose` of `BullQueueServerSetup`.
  unfoldable pub close_server : Server → Closed × Server
  close_server s = (finish_close (all_closed (all_reversed s.resources [])), on_close s)

  abbrev pub await_taken : Option (Tracked × List Tracked) → Settled
  await_taken none = (ok tt, now)
  await_taken (some (t, rest)) = closed_pair t

  -- The await of `releaseResource`.
  unfoldable pub await_release : ℕ → Server → Settled
  await_release owner s = await_taken (take_owner owner s.resources)

  -- `onClose` of `BullQueueRunNode`: what `done` is called with, and when.
  unfoldable pub finish_run_node : String → ℕ → Registry → Server → Settled × (Registry × Server)
  finish_run_node node worker r s = (await_release worker s, close_run_node node worker r s)

  -- `onClose` of `BullEventsNode` and of `BullFlowNode`.
  unfoldable pub finish_node : ℕ → Server → Settled × Server
  finish_node resource s = (await_release resource s, release_resource resource s)
