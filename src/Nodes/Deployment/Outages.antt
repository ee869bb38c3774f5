-- ===== src/Nodes/Deployment/Outages.antt =====
-- A command node of a deployment on PostgreSQL that starts, whether or not its queue can be constructed.
use node_red_contrib_bull.Prelude.{
  ℕ, suc, String, ◌≡◌, refl, Bool, true, false, List, ◌∷◌, Option, none, some, arith, All,
}
use node_red_contrib_bull.Js.Value.{ErrorClass, ok}
use node_red_contrib_bull.Nodes.Failures.{describe_backend_failure}
use node_red_contrib_bull.Nodes.Backend.{
  disconnected, Backend, has, add_reader, publish_backend_status, read_backend_status,
  report_failure, report_backend_failure,
}
use node_red_contrib_bull.Nodes.Backend
use node_red_contrib_bull.Nodes.Backend.Readers.{has-add_reader}
use node_red_contrib_bull.Nodes.Backend.Reports
use node_red_contrib_bull.Nodes.Backend.Reports.{
  IsLatched, publish-IsLatched, report-status, reported_once,
}
use node_red_contrib_bull.Nodes.Resources.{
  Settings, Server, Construction, built, throws, get_queue, get_queue_of, create_resource,
}
use node_red_contrib_bull.Nodes.Lifecycle.{open_command_node, read_after}
use node_red_contrib_bull.Nodes.Deployment.{undeployed, Event, run}
use node_red_contrib_bull.Nodes.Deployment.Backends.{closes}
use node_red_contrib_bull.Nodes.Deployment.Failing.{run-IsLatched}

module _ (minimum_version recommended_version : String) (settings : Settings) where
  -- What the configuration node has come to, by the queue that it had and by what the constructor of the queue does.
  -- After a failure the node is asked again, for the next message, when the constructor succeeds.
  abbrev pub Served : Option ℕ → Construction → Server → Server → Type 0
  Served (some q) c before after =
      (after.queue ≡ some q)
      × (after.constructed ≡ before.constructed)
      × (after.backend.reported ≡ before.backend.reported)
  Served none built before after =
      (after.queue ≡ some before.constructed)
      × (after.constructed ≡ suc before.constructed)
      × (after.watched ≡ before.constructed ∷ before.watched)
      × (after.backend.reported ≡ before.backend.reported)
  Served none (throws kind m) before after =
      (after.queue ≡ none)
      × (after.constructed ≡ before.constructed)
      × (after.opened ≡ before.opened)
      × (after.resources ≡ before.resources)
      × (after.backend.status ≡ disconnected)
      × (Reports.count
            (describe_backend_failure minimum_version recommended_version kind m).category
            after.backend.reported
          ≡ 1)
      × ((get_queue minimum_version recommended_version settings false built after).0
          ≡ ok (some before.constructed))

  -- The reader is one of the readers now, and was told the status.
  abbrev pub Reads : ℕ → Backend → Type 0
  Reads reader b = (has reader b.readers ≡ true) × (b.told reader ≡ some b.status)

  read-Reads : (reader : ℕ) (b : Backend) → Reads reader (read_backend_status reader b)
  unfolding read_backend_status
  read-Reads reader b = (ground (arith, has-add_reader reader reader b.readers), ground arith)

  failed_once :
      (kind : ErrorClass) (m : String) (b : Backend)
      → IsLatched b
      → let failed =
          Backend.step minimum_version recommended_version b (Backend.fails_to_construct kind m) in
        (failed.status ≡ disconnected)
        × (Reports.count
              (describe_backend_failure minimum_version recommended_version kind m).category
              failed.reported
            ≡ 1)
  unfolding Backend.step report_backend_failure publish_backend_status
  failed_once kind m b h =
      let failure = describe_backend_failure minimum_version recommended_version kind m in
      (
        report-status failure (publish_backend_status disconnected b),
        reported_once failure (publish_backend_status disconnected b)
            (publish-IsLatched disconnected b h),
      )

  open-Served :
      (reader : ℕ) (installed : Bool) (q : Option ℕ) (c : Construction) (s : Server)
      → settings.postgres ≡ true
      → s.queue ≡ q
      → IsLatched s.backend
      → let (outcome, after) =
          read_after reader
            (get_queue_of minimum_version recommended_version settings q installed c s) in
        (outcome ≡ ok tt) × Reads reader after.backend × Served q c s after
  unfolding create_resource get_queue read_backend_status
  open-Served reader installed (some q) c s is_postgres had h =
      (refl, read-Reads reader s.backend, (had, refl, refl))
  open-Served reader installed none built s is_postgres had h =
      rw is_postgres (refl, read-Reads reader s.backend, (refl, refl, refl, refl))
  open-Served reader installed none (throws kind m) s is_postgres had h =
      let failed =
        Backend.step minimum_version recommended_version s.backend
          (Backend.fails_to_construct kind m) in
      let (status, reported) = failed_once kind m s.backend h in
      rw is_postgres
        (refl, read-Reads reader failed, (had, refl, refl, refl, status, reported, rw had refl))

  -- In a deployment on PostgreSQL whose configuration node does not close, a command node always starts, reads the status of the
  -- backend from then on, and was told it. A queue that was there before is kept, and nothing is constructed
  -- or reported. Otherwise the configuration node has the queue that was constructed, and watches it; or, when the constructor
  -- throws, it has no queue and no new resource or connection, shows that the backend is disconnected, has
  -- reported the failure exactly once for its category, whoever met it first, and still makes the queue when it is
  -- asked again and the constructor succeeds.
  pub open_command_node-Served :
      (es : List Event) (reader : ℕ) (installed : Bool) (c : Construction)
      → settings.postgres ≡ true
      → All (λ e. closes e ≡ false) es
      → let before = (run minimum_version recommended_version settings undeployed es).server in
        let (outcome, after) =
          open_command_node minimum_version recommended_version settings reader installed c
            before in
        (outcome ≡ ok tt) × Reads reader after.backend × Served before.queue c before after
  unfolding open_command_node get_queue
  open_command_node-Served es reader installed c is_postgres stays =
      let before = (run minimum_version recommended_version settings undeployed es).server in
      open-Served reader installed before.queue c before is_postgres refl
        (run-IsLatched minimum_version recommended_version settings es stays)
