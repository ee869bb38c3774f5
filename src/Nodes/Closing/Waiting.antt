-- ===== src/Nodes/Closing/Waiting.antt =====
-- When the nodes of bull-queue.js have closed.
use node_red_contrib_bull.Prelude.{ℕ, ◌+◌, ◌≤◌, ◌≡◌, refl, List, [], ◌∷◌, Option, none, some, arith}
use node_red_contrib_bull.Js.Value.{ok, err}
use node_red_contrib_bull.Nodes.Shutdown.{Delays}
use node_red_contrib_bull.Nodes.Shutdown.Bounds.{close_resource_pair-elapsed}
use node_red_contrib_bull.Nodes.Resources.{Tracked, Server, take_owner, all_reversed}
use node_red_contrib_bull.Nodes.Closing.{
  World, Settled, and_settled, finish_close, closed_pair, described, all_closed, close_server,
  await_release, await_taken,
}

and_settled-bound :
    (a b : Settled) (limit : ℕ) → a.1 ≤ limit → b.1 ≤ limit → (and_settled a b).1 ≤ limit
and_settled-bound (ok u, at) (ok w, last) limit h k = ground arith
and_settled-bound (ok u, at) (err e, first) limit h k = k
and_settled-bound (err e, at) (ok w, last) limit h k = h
and_settled-bound (err e, at) (err f, first) limit h k = ground arith

finish_close-at : (a : Settled) → (finish_close a).at ≡ a.1
finish_close-at (ok u, at) = refl
finish_close-at (err e, at) = refl

module _ (delays : Delays) (world : World) (now lock_ms : ℕ)
    (locks : (owner : ℕ) → (delays.lock_manager (world.resource owner).name).0 ≤ lock_ms) where
  closed_pair-bound : (t : Tracked) → (closed_pair delays world now t).1 ≤ now + 12000 + lock_ms
  unfolding closed_pair
  closed_pair-bound t =
      close_resource_pair-elapsed delays lock_ms (world.resource t.owner)
        (described delays world now t.connection) _ (locks t.owner)

  all_closed-bound :
      (ts : List Tracked) → (all_closed delays world now ts).1 ≤ now + 12000 + lock_ms
  unfolding all_closed
  all_closed-bound [] = omega arith
  all_closed-bound (t ∷ ts) =
      and_settled-bound (closed_pair delays world now t) (all_closed delays world now ts) _
        (closed_pair-bound t) (all_closed-bound ts)

  -- However many resources the other nodes have made, and whether or not the promises of the libraries ever
  -- settle, the configuration node calls `done` at most 12 seconds after its close began, and the time
  -- that a lock manager takes to close at most.
  pub close_server-at :
      (s : Server) → (close_server delays world now s).0.at ≤ now + 12000 + lock_ms
  unfolding close_server
  close_server-at s =
      rw (finish_close-at (all_closed delays world now (all_reversed s.resources [])))
        (all_closed-bound (all_reversed s.resources []))

  await_taken-bound :
      (taken : Option (Tracked × List Tracked))
      → (await_taken delays world now taken).1 ≤ now + 12000 + lock_ms
  await_taken-bound none = omega arith
  await_taken-bound (some (t, rest)) = closed_pair-bound t

  -- A run, events or flow node that closes waits for its resource for that long at most, too.
  pub await_release-at :
      (owner : ℕ) (s : Server) → (await_release delays world now owner s).1 ≤ now + 12000 + lock_ms
  unfolding await_release
  await_release-at owner s = await_taken-bound (take_owner owner s.resources)
