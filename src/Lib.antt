-- ===== src/Lib.antt =====
-- node-red-contrib-bullmq: Node-RED nodes for BullMQ queues over Redis and PostgreSQL.
--
-- The package has a module that registers the nodes (bull-queue.js) and five libraries under lib/.
-- A `bullmq-queue-server` node normalizes its fields into a configuration (lib/connections.js), from which
-- each node makes its connections by role. A message of a command node is dispatched to one method of
-- the queue (lib/commands.js), and what comes back is reduced to plain data (lib/serialization.js,
-- lib/scheduler.js). A run node in manual mode hands its jobs to the flow under an acknowledgement id,
-- and waits for the job node, a timer, the abort of the job or the close of the node
-- (lib/acknowledgements.js).
--
-- Files:
--   Prelude           names shared by all modules
--   Js                JavaScript as the sources use it: texts, numbers, values, objects, results that
--                     return or throw, and programs that call libraries (Js/Program)
--   Library           calls on the objects of BullMQ
--   Acknowledgements  lib/acknowledgements.js: class AcknowledgementEntry is `Entry`, `settle`, `fire`,
--                     `abort`, `wait`; class AcknowledgementRegistry is `Registry`, `create`,
--                     `get_entry`, `reject_by_run_node`; parseAckTimeoutMs is `parse_ack_timeout_ms`.
--                     Promises is what the module promises, without its Map, timers, listeners and
--                     emitters, and Refinement relates the two
--   Commands          lib/commands.js: dispatchCommand is `dispatch_command`; each case of its switch
--                     is a clause of `execute`
--   Serialization     lib/serialization.js, under the same names
--   Scheduler         lib/scheduler.js, under the same names
--   Connections       lib/connections.js: Coercions (toBoolean, toPort and the like), Endpoints
--                     (parseEndpoint, parseEndpointList), Records (its results), Config
--                     (normalizeQueueConfig, normalizePostgresConfig), Options
--                     (buildRedisDescriptor, createRedisConnection, buildBullMQOptions)
--   Nodes             bull-queue.js: Shutdown (closeBudgetFor to closeResourcePair),
--                     Backend (the status of the backend and the failures that the configuration node
--                     keeps), Flows (withBulkFlowJobDefaults), Failures (describeBackendFailure),
--                     Queues (withFlowJobDefaults), Messages (createJobMessage),
--                     Resources (createResource to createFlowProducer, releaseResource and onClose of the
--                     configuration node), Startup (attachErrorListener, startPostgresWorker and
--                     updateReadyStatus), Inputs (the handlers of BullQueueCmdNode and BullFlowNode,
--                     parseEventFilter), Lifecycle (constructors and close handlers), Closing (the close
--                     handlers up to `done`), Deployment (one configuration node with the run, events,
--                     flow and command nodes over it, as a step relation on their events), Run (the processor
--                     of BullQueueRunNode), Job (the actions of BullJobNode), Fields
--                     (parsePositiveInteger and the options of the worker of BullQueueRunNode)
--   Scripts           scripts/run-deployment-tests.js: Shell (run, docker, composeArgs), Waiting
--                     (waitUntil), Probes (waitForSingleNoAuth to waitForSentinelTls, waitForPostgres),
--                     Environments (deploymentEnv, memoryDbEnv and the list of deployments), Runner
--                     (runDeployment and main)
--   Examples          inputs at which the theorems apply
--
-- JavaScript's names are written in lower case with underscores. A call that throws or a promise that
-- rejects is `err`. Code that calls BullMQ is a tree of calls (`Program`), so that a theorem about it
-- holds whatever the library answers; the parsers of Node.js (`net.isIP`, `URL`) are a parameter. A
-- decimal number is exact, where JavaScript rounds it to 53 bits; the order of integer keys, accessors
-- and prototypes of objects are left out.
--
-- Two loops run on fuel, with `none` where it ends. That of withFlowJobDefaults has as many rounds as the
-- flow has values, because each round takes one value off the stack and puts back only values inside it.
-- That of waitUntil has one round for each 500 ms of the timeout and one more, because each round that
-- does not end it sleeps for 500 ms. The other loops run over lists.
--
-- The test runner runs on a machine (`Machine`) with a clock and the list of the processes that ran; a
-- process is answered by a function of the machine, so that a theorem holds whatever the processes do.
-- Time passes in processes and in sleepMs only.
--
-- In a deployment, what one event does is done before the next, up to the first await of a handler; what
-- the libraries do with a promise or a listener is an event of its own. The node types of a deployment are
-- those that bull-queue.js registers; a job node has no resource, and is modelled with the registry.
--
-- Not modelled: the listener for errors that a connection of ioredis gets, the credentials that the
-- configuration node is registered with, the editor's HTML, the configuration of Playwright and the tests.
pub mod Prelude
pub mod Js
pub mod Serialization
pub mod Scheduler
pub mod Library
pub mod Commands
pub mod Acknowledgements
pub mod Connections
pub mod Nodes
pub mod Scripts
mod Examples
