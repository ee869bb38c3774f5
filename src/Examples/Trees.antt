-- ===== src/Examples/Trees.antt =====
-- A flow with two jobs of one queue, one under the other, whose caller set an option of the queue.
use node_red_contrib_bull.Prelude.{str_eq, ◌≡◌, refl, true, ◌&&◌, not, some, if◌then◌else◌}
use node_red_contrib_bull.Js.Value.{
  Value, str, num, arr, nil, cons, obj, bool, Fields, end, field, truthy, is_object, or_value,
}
use node_red_contrib_bull.Js.Number.{nat}
use node_red_contrib_bull.Js.Objects.{get, own_fields, assign, lookup, is_some}
use node_red_contrib_bull.Js.Objects.Laws.{IsObject}
use node_red_contrib_bull.Nodes.Queues.{with_flow_job_defaults, options_of}
use node_red_contrib_bull.Nodes.Queues.Loop.{walk, with_flow_job_defaults-walk}
use node_red_contrib_bull.Nodes.Queues.Visits.{cell, mentions, options_in}
use node_red_contrib_bull.Nodes.Queues.Merge.{queues_of, with_flow_job_defaults-lookup}

abbrev child : Value
child = obj (field "name" (str "child") (field "queueName" (str "mail") end))

abbrev flow : Value
flow = obj (
    field "name" (str "parent")
      (field "queueName" (str "mail") (field "children" (arr (cons child nil)) end)))

abbrev own : Fields
own = field "attempts" (num (nat 2)) end

abbrev flow_options : Value
flow_options = obj (
    field "queuesOptions" (obj (field "mail" (obj (field "defaultJobOptions" (obj own) end)) end))
      end)

abbrev defaults : Fields
defaults = field "removeOnFail" (bool true) end

defaults_given : truthy (obj defaults) ≡ true
unfolding truthy
defaults_given = refl

with_flow_job_defaults-walk_example :
    with_flow_job_defaults flow flow_options (obj defaults)
    ≡ some (
        obj (
          assign "queuesOptions"
            (obj (
              walk
                (obj defaults)
                flow
                (own_fields (get "queuesOptions" (options_of flow_options)))))
            (own_fields (options_of flow_options))))
with_flow_job_defaults-walk_example =
    with_flow_job_defaults-walk flow flow_options (obj defaults) defaults_given

defaults-IsObject : IsObject defaults
unfolding lookup
defaults-IsObject = (refl, tt)

own-IsObject : IsObject (cell "mail" (queues_of flow_options))
unfolding cell get own_fields is_object lookup or_value
own-IsObject = (refl, tt)

with_flow_job_defaults-lookup_example :
    (r : Value) × (with_flow_job_defaults flow flow_options (obj defaults) ≡ some r)
    × (lookup "removeOnFail" (cell "mail" (queues_of r)) ≡ (
        if mentions "mail" flow
          && not (is_some (lookup "removeOnFail" (cell "mail" (queues_of flow_options))))
        then lookup "removeOnFail" defaults
        else lookup "removeOnFail" (cell "mail" (queues_of flow_options))))
    × (lookup "removeOnFail" (options_in "mail" (queues_of r)) ≡ (
        if mentions "mail" flow && str_eq "defaultJobOptions" "removeOnFail"
        then some (obj (cell "mail" (queues_of r)))
        else lookup "removeOnFail" (options_in "mail" (queues_of flow_options))))
    × (lookup "removeOnFail" (own_fields r) ≡ (
        if str_eq "queuesOptions" "removeOnFail"
        then some (obj (queues_of r))
        else lookup "removeOnFail" (own_fields (options_of flow_options))))
with_flow_job_defaults-lookup_example =
    with_flow_job_defaults-lookup flow flow_options defaults "mail" "removeOnFail" defaults-IsObject
      own-IsObject
