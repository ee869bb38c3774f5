-- ===== src/Examples/Manual.antt =====
-- A manual job whose flow sends a payload to the job node, while another job starts.
use node_red_contrib_bull.Prelude.{◌≡◌, refl, List, [], ◌∷◌, none, some}
use node_red_contrib_bull.Js.Number.{nat}
use node_red_contrib_bull.Js.Value.{Value, str, obj, end, field, ok, num}
use node_red_contrib_bull.Js.Objects.{assign}
use node_red_contrib_bull.Js.Program.{pure}
use node_red_contrib_bull.Acknowledgements.{
  Context, Entry, Registry, empty, create, resolve, settle, lookup, get_entry, new_id, wait,
}
use node_red_contrib_bull.Acknowledgements.Invariant.{empty-IsValid}
use node_red_contrib_bull.Acknowledgements.History.{Event, creates, waits, run, step, AllFresh}
use node_red_contrib_bull.Nodes.Job.{TransitionErrors, on_input}
use node_red_contrib_bull.Nodes.Run.{RunNode, process, start_manual}
use node_red_contrib_bull.Nodes.Run.RoundTrip.{ack_id_of, process-on_input}

abbrev node : RunNode
node = record {
  id = "run1";
  completion_mode = str "manual";
  ack_timeout = num (nat 500);
  queue_name = "mail";
}

abbrev job : Value
job = obj (field "id" (str "1") (field "data" (obj (field "to" (str "a") end)) end))

abbrev messages : TransitionErrors
messages = record {
  waiting_message = "waiting";
  delayed_message = "delayed";
  rate_limit_message = "limited";
}

abbrev other_context : Context
other_context = record {
  job = obj (field "id" (str "2") end);
  queue_name = "mail";
  run_node_id = "run2";
  token = str "t2";
  signal = none;
}

-- Meanwhile another run node starts a job and waits for it.
abbrev meanwhile : List Event
meanwhile = creates other_context (nat 0) 8 "y" ∷ waits 1 ∷ []

abbrev started : Registry
started = (process node job (str "t1") (some 4) 7 "x" empty).registry

unused : lookup (ack_id_of node job (str "t1") (some 4) 7 "x") empty.entries ≡ none
unfolding lookup
unused = refl

meanwhile_fresh : AllFresh started meanwhile
unfolding step lookup new_id create process start_manual wait
meanwhile_fresh = (refl, (tt, tt))

still_pending :
    get_entry (ack_id_of node job (str "t1") (some 4) 7 "x") (run started meanwhile) ≡ ok empty.next
unfolding run step lookup new_id create process start_manual wait get_entry
still_pending = refl

process-on_input_example :
    (on_input messages 9
        (str "complete")
        (run started meanwhile)
        (assign "payload" (str "sent") (process node job (str "t1") (some 4) 7 "x" empty).message)
      ≡ pure (
        empty.next,
        record { settlement = some (resolve (str "sent")); output = some (str "sent") },
      ))
    × ((process node job (str "t1") (some 4) 7 "x" empty).returned ≡ none)
    × (e : Entry) × ((settle empty.next (resolve (str "sent")) (run started meanwhile)).cell
          empty.next
        ≡ some e)
    × (e.outcome ≡ some (resolve (str "sent")))
process-on_input_example =
    process-on_input node job (str "t1") (some 4) 7 9 "x" empty meanwhile (str "sent") messages refl
      empty-IsValid unused meanwhile_fresh still_pending
