-- ===== src/Examples/Views.antt =====
-- A job with a lock token, in a flow with another.
use node_red_contrib_bull.Js.Value.{Value, null, str, obj, arr, nil, cons, end, field}
use node_red_contrib_bull.Serialization.{serialize_flow_job}
use node_red_contrib_bull.Serialization.Laws.{FlowView, serialize_flow_job-FlowView}

abbrev locked_job : Value
locked_job = obj (field "id" (str "1") (field "token" (str "secret") (field "data" null end)))

abbrev flow : Value
flow = obj (
    field "job" locked_job
      (field "children" (arr (cons (obj (field "job" locked_job end)) nil)) end))

serialize_flow_job-FlowView_example : FlowView flow (serialize_flow_job flow)
serialize_flow_job-FlowView_example = serialize_flow_job-FlowView flow
