-- ===== src/Nodes/Messages.antt =====
-- bull-queue.js: `createJobMessage`.
use node_red_contrib_bull.Prelude.{String, if◌then◌else◌}
use node_red_contrib_bull.Js.Value.{Value, str, obj, Fields, end, field, or_value}
use node_red_contrib_bull.Js.Objects.{get, has_own, spread}
use node_red_contrib_bull.Serialization.{serialize_job}
use node_red_contrib_bull.Commands.Jobs.{empty}

-- `job.data || {}`
abbrev pub data_of : Value → Value
data_of job = or_value (get "data" job) empty

abbrev pub payload_of : Value → Value
payload_of job =
    if has_own "payload" (data_of job) then get "payload" (data_of job) else data_of job

-- The property `bull` of the message.
abbrev pub bull_of : Value → String → Fields → Fields
bull_of job queue_name extra =
    spread (field "queue" (str queue_name) (field "jobId" (get "id" job) end)) extra

unfoldable pub create_job_message : Value → String → Fields → Fields
create_job_message job queue_name extra =
    field "payload" (payload_of job)
      (field "job" (serialize_job job) (field "bull" (obj (bull_of job queue_name extra)) end))
