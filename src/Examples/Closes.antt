-- ===== src/Examples/Closes.antt =====
-- A worker that hangs, with a connection that is ready.
use node_red_contrib_bull.Prelude.{
  ◌+◌, ◌≤◌, ◌≡◌, ◌==◌, refl, true, false, [], ◌∷◌, none, some, arith, str_eq, if◌then◌else◌,
}
use node_red_contrib_bull.Js.Value.{ok, err, str, truthy}
use node_red_contrib_bull.Nodes.Shutdown.{
  Connection, Resource, Delays, quits, disconnects, Clock, close_resource_pair, close_resource,
  settle_within, close_budget_for, force_disconnect, close_connection,
}
use node_red_contrib_bull.Nodes.Shutdown.Hanging.{
  Did, close_resource_pair_hanging, close_resource_pair-connection,
}
use node_red_contrib_bull.Nodes.Resources.{
  Server, fresh, serve_all, serve, creates_worker, gets_queue, built, create_worker, get_queue,
  create_resource, get_telemetry,
}
use node_red_contrib_bull.Nodes.Closing.{World, close_server, closed_pair, all_closed}
use node_red_contrib_bull.Nodes.Closing.Waiting.{close_server-at}
use node_red_contrib_bull.Nodes.Closing.Outcomes.{Awaited, close_server-Awaited}

abbrev hanging : Delays
hanging = record { quit = λ c. none; close = λ r. none; lock_manager = λ r. (5, ok tt) }

abbrev worker : Resource
worker = record {
  name = 1;
  clients = some (10, some 11);
  lock_manager = true;
  stalled_check_stopper = true;
}

abbrev live : Connection
live = record { client = 12; status = "ready" }

abbrev start : Clock
start = record { elapsed = 0; done = [] }

close_resource_pair_hanging_example :
    Did (disconnects 10) (close_resource_pair hanging worker (some live) start).1.done
    × Did (disconnects 11) (close_resource_pair hanging worker (some live) start).1.done
close_resource_pair_hanging_example =
    close_resource_pair_hanging hanging worker (some live) 10 11 start refl refl

close_resource_pair-connection_example :
    Did
      (if str_eq live.status "ready" then quits live.client else disconnects live.client)
      (close_resource_pair hanging worker (some live) start).1.done
close_resource_pair-connection_example = close_resource_pair-connection hanging worker live start

-- A configuration node with a worker and the queue, whose worker hangs and whose queue closes at once.
abbrev server : Server
server =
    serve_all "16.0.0" "17.0.0" (record { postgres = false; telemetry = false }) fresh
      (creates_worker false built ∷ gets_queue false built ∷ [])

abbrev queue_closes : Delays
queue_closes = record {
  quit = λ c. some 2;
  close = λ r. if r == 0 then none else some 3;
  lock_manager = λ r. (5, err (str "lost"));
}

abbrev world : World
world = record {
  resource = λ i. record worker { name = i };
  connection = λ i. record { client = 20 + i; status = "ready" };
}

close_server-at_example : (close_server queue_closes world 100 server).0.at ≤ 100 + 12000 + 5
close_server-at_example = close_server-at queue_closes world 100 5 (λ owner. omega arith) server

-- The worker's lock manager fails after the 10 seconds of a ready connection.
closes_late : (close_server queue_closes world 100 server).0.at ≡ 10107
unfolding close_server closed_pair all_closed serve_all serve create_worker get_queue
    create_resource get_telemetry close_resource_pair close_resource settle_within close_budget_for
    force_disconnect close_connection truthy
closes_late = refl

close_server-Awaited_example :
    Awaited
      (closed_pair queue_closes world 100)
      (
        (close_server queue_closes world 100 server).0.done,
        (close_server queue_closes world 100 server).0.at,
      )
      server.resources
close_server-Awaited_example = close_server-Awaited queue_closes world 100 server
