-- ===== src/Nodes/Run/RoundTrip.antt =====
-- A manual job on its way: from the processor of a run node through a flow to a job node and back.
use node_red_contrib_bull.Prelude.{
  ℕ, ◌<◌, String, ◌≡◌, refl, true, List, [], ◌∷◌, Option, none, some, arith, ◌==◌, inl, inr,
  Option-cases, Bool-cases,
}
use node_red_contrib_bull.Js.Number.{nat}
use node_red_contrib_bull.Js.Value.{
  Value, undefined, str, Fields, end, field, ok, or_value, truthy, is_undefined,
}
use node_red_contrib_bull.Commands.Names.{assoc}
use node_red_contrib_bull.Acknowledgements.Outcomes.{get_entry-settle}
use node_red_contrib_bull.Js.Objects.{find, get, lookup as lookup_field, assign, spread}
use node_red_contrib_bull.Js.Program.{pure, ◌>>=◌}
use node_red_contrib_bull.Acknowledgements.{
  Settlement, resolve, reject, Context, Entry, Registry, settled, settle, create, new_id, new_entry,
  get_entry, wait, lookup, reject_by_run_node, parse_ack_timeout_ms,
}
use node_red_contrib_bull.Acknowledgements.Settling.{
  settle_cases, fire-keeps, reject_each-keeps, abort-keeps,
}
use node_red_contrib_bull.Acknowledgements.Invariant.{IsValid, create-IsValid, wait-IsValid}
use node_red_contrib_bull.Acknowledgements.History.{
  Event, creates, completes, fails, fires, waits, aborts, rejects, step, run, AllFresh, run-IsValid,
}
use node_red_contrib_bull.Nodes.Messages.{create_job_message}
use node_red_contrib_bull.Nodes.Job.{TransitionErrors, context_at, act, result_of, on_input}
use node_red_contrib_bull.Nodes.Run.{RunNode, context_of, is_manual, start_manual, process}

-- The entry at an address has a waiter.
data HasWaiter (i : ℕ) (r : Registry) : Type 0 where
  waiter : (e : Entry) → i < r.next → r.cell i ≡ some e → e.waited ≡ true → HasWaiter i r

settle-HasWaiter :
    (i : ℕ) (s : Settlement) (j : ℕ) (r : Registry) → HasWaiter j r → HasWaiter j (settle i s r)
settle-HasWaiter i s j r (waiter e below at suspended) = elim (settle_cases i s r) [
  | inl same ↦ rw same (waiter e below at suspended)
  | inr (f, found, unsettled, new) ↦ elim (Bool-cases (i == j)) [
    | inl here ↦ rw new (waiter (settled s f) below (rw here refl) (ground arith))
    | inr other ↦ rw new (waiter e below (rw other at) suspended)
  ]
]

wait-HasWaiter : (j i : ℕ) (r : Registry) → HasWaiter i r → HasWaiter i (wait j r)
unfolding wait
wait-HasWaiter j i r (waiter e below at suspended) = elim (Option-cases (r.cell j)) [
  | inl missing ↦ rw missing (waiter e below at suspended)
  | inr (f, found) ↦ elim (Bool-cases (j == i)) [
    | inl same ↦
        rw found
          (waiter (record f { waited = true; outcome = f.settlement }) below (rw same refl) refl)
    | inr other ↦ rw found (waiter e below (rw other at) suspended)
  ]
]

step-HasWaiter : (i : ℕ) (r : Registry) (e : Event) → HasWaiter i r → HasWaiter i (step r e)
unfolding step reject_by_run_node create
step-HasWaiter i r (creates c timeout_ms now random) (waiter e below at suspended) =
    waiter e (omega arith) (ground arith) suspended
step-HasWaiter i r (completes j value) h = settle-HasWaiter j (resolve value) i r h
step-HasWaiter i r (fails j error) h = settle-HasWaiter j (reject error) i r h
step-HasWaiter i r (fires j) h = fire-keeps (HasWaiter i) (λ j s r. settle-HasWaiter j s i r) j r h
step-HasWaiter i r (waits j) h = wait-HasWaiter j i r h
step-HasWaiter i r (aborts t reason) h =
    abort-keeps (HasWaiter i) (λ j s r. settle-HasWaiter j s i r) r.next t reason r h
step-HasWaiter i r (rejects node error) h =
    reject_each-keeps (HasWaiter i) (λ j s r. settle-HasWaiter j s i r) node error r.entries r h

run-HasWaiter : (i : ℕ) (r : Registry) (es : List Event) → HasWaiter i r → HasWaiter i (run r es)
unfolding run
run-HasWaiter i r [] h = h
run-HasWaiter i r (e ∷ es) h = run-HasWaiter i (step r e) es (step-HasWaiter i r e h)

wait_marks :
    (i : ℕ) (e : Entry) (r : Registry) → i < r.next → r.cell i ≡ some e → HasWaiter i (wait i r)
unfolding wait
wait_marks i e r below at =
    rw at (waiter (record e { waited = true; outcome = e.settlement }) below (ground arith) refl)

started-HasWaiter :
    (node : RunNode) (job token : Value) (signal : Option ℕ) (now : ℕ) (random : String)
    (r : Registry)
    → HasWaiter r.next (start_manual node job token signal now random r).registry
unfolding start_manual create
started-HasWaiter node job token signal now random r =
    let c = context_of node job token signal in
    let ms = parse_ack_timeout_ms node.ack_timeout (nat 300000) in
    wait_marks r.next (new_entry c ms (new_id c now random)) (create c ms now random r)
      (omega arith) (ground arith)

-- The message of a job carries the acknowledgement's id, also after the flow has set its payload.
message_id :
    (job payload : Value) (queue id node : String)
    → get "ackId" (
        find "bull" (
          assign "payload" payload (
            create_job_message job queue
              (field "ackId" (str id) (field "runNodeId" (str node) end)))))
      ≡ str id
unfolding get find lookup_field assign create_job_message spread
message_id job payload queue id node = refl

complete_pending :
    (i : ℕ) (s : Settlement) (id : String) (r : Registry)
    → IsValid r
    → HasWaiter i r
    → get_entry id r ≡ ok i
    → (e : Entry) × ((settle i s r).cell i ≡ some e) × (e.outcome ≡ some s)
complete_pending i s id r v (waiter e below at suspended) found =
    let (f, here, after, _) = get_entry-settle id i s r v found in
    (settled s f, after, ground arith)

-- The handler of the job node, for a message that carries the id of an acknowledgement and no command.
on_input_complete :
    (errors : TransitionErrors) (now : ℕ) (id : String) (i : ℕ) (r : Registry) (msg : Fields)
    (c : Context) (payload : Value)
    → get "ackId" (find "bull" msg) ≡ str id
    → find "cmd" msg ≡ undefined
    → result_of msg ≡ payload
    → get_entry id r ≡ ok i
    → context_at i r ≡ some c
    → on_input errors now (str "complete") r msg
      ≡ pure (i, record { settlement = some (resolve payload); output = some payload })
unfolding on_input or_value truthy act ◌>>=◌ assoc
on_input_complete errors now id i r msg c payload names none_given result found at =
    rw (names, none_given) (rw found (rw at (rw result refl)))

message_plain :
    (job payload : Value) (queue : String) (extra : Fields)
    → let msg = assign "payload" payload (create_job_message job queue extra) in
      (find "cmd" msg ≡ undefined) × (result_of msg ≡ payload)
unfolding find lookup_field assign create_job_message is_undefined
message_plain job payload queue extra = (refl, refl)

context_at_lem :
    (i : ℕ) (e : Entry) (r : Registry) → r.cell i ≡ some e → context_at i r ≡ some e.context
context_at_lem i e r at = rw (at, context_at) refl

context_of_pending :
    (id : String) (i : ℕ) (r : Registry)
    → IsValid r
    → get_entry id r ≡ ok i
    → (c : Context) × (context_at i r ≡ some c)
context_of_pending id i r v found =
    let (e, at, _, _) = get_entry-settle id i (resolve undefined) r v found in
    (e.context, context_at_lem i e r at)

-- The id under which a processor waits for its job.
abbrev pub ack_id_of : RunNode → Value → Value → Option ℕ → ℕ → String → String
ack_id_of node job token signal now random = new_id (context_of node job token signal) now random

started-on_input :
    (node : RunNode) (job token : Value) (signal : Option ℕ) (now later : ℕ) (random : String)
    (r : Registry) (es : List Event) (payload : Value) (errors : TransitionErrors)
    → IsValid r
    → lookup (ack_id_of node job token signal now random) r.entries ≡ none
    → AllFresh (start_manual node job token signal now random r).registry es
    → get_entry
        (ack_id_of node job token signal now random)
        (run (start_manual node job token signal now random r).registry es)
      ≡ ok r.next
    → let started = start_manual node job token signal now random r in
      let r' = run started.registry es in
      (on_input errors later (str "complete") r' (assign "payload" payload started.message)
        ≡ pure (r.next, record { settlement = some (resolve payload); output = some payload }))
      × (started.returned ≡ none)
      × (e : Entry) × ((settle r.next (resolve payload) r').cell r.next ≡ some e)
      × (e.outcome ≡ some (resolve payload))
unfolding start_manual
started-on_input node job token signal now later random r es payload errors v fresh all_fresh
      found =
    let c = context_of node job token signal in
    let id = ack_id_of node job token signal now random in
    let ms = parse_ack_timeout_ms node.ack_timeout (nat 300000) in
    let started = start_manual node job token signal now random r in
    let msg = assign "payload" payload started.message in
    let r' = run started.registry es in
    let begun =
      wait-IsValid r.next (create c ms now random r) (create-IsValid c ms now random r v fresh) in
    let v' = run-IsValid started.registry es begun all_fresh in
    let waits' =
      run-HasWaiter r.next started.registry es
        (started-HasWaiter node job token signal now random r) in
    let (d, here) = context_of_pending id r.next r' v' found in
    let (e, after, outcome) = complete_pending r.next (resolve payload) id r' v' waits' found in
    let plain_message =
      message_plain job payload node.queue_name
        (field "ackId" (str id) (field "runNodeId" (str node.id) end)) in
    (
      on_input_complete errors later id r.next r' msg d payload
          (message_id job payload node.queue_name id node.id) plain_message.0 plain_message.1 found
          here,
      refl,
      e,
      after,
      outcome,
    )

process_manual :
    (node : RunNode) (job token : Value) (signal : Option ℕ) (now : ℕ) (random : String)
    (r : Registry)
    → is_manual node.completion_mode ≡ true
    → process node job token signal now random r ≡ start_manual node job token signal now random r
unfolding process
process_manual node job token signal now random r manual = rw manual refl

-- In manual mode, from a well-formed registry and with a fresh id, the processor sends a message and waits. Let
-- the flow set the payload of the message, and let anything happen meanwhile that leaves the acknowledgement
-- pending and gives new jobs fresh ids: a job node whose action is to complete, given the message, settles the
-- acknowledgement with the payload and sends the payload on, and the processor returns the payload.
pub process-on_input :
    (node : RunNode) (job token : Value) (signal : Option ℕ) (now later : ℕ) (random : String)
    (r : Registry) (es : List Event) (payload : Value) (errors : TransitionErrors)
    → is_manual node.completion_mode ≡ true
    → IsValid r
    → lookup (ack_id_of node job token signal now random) r.entries ≡ none
    → AllFresh (process node job token signal now random r).registry es
    → get_entry
        (ack_id_of node job token signal now random)
        (run (process node job token signal now random r).registry es)
      ≡ ok r.next
    → let started = process node job token signal now random r in
      let r' = run started.registry es in
      (on_input errors later (str "complete") r' (assign "payload" payload started.message)
        ≡ pure (r.next, record { settlement = some (resolve payload); output = some payload }))
      × (started.returned ≡ none)
      × (e : Entry) × ((settle r.next (resolve payload) r').cell r.next ≡ some e)
      × (e.outcome ≡ some (resolve payload))
process-on_input node job token signal now later random r es payload errors manual v fresh all_fresh
      found =
    let same = process_manual node job token signal now random r manual in
    rw same (
      started-on_input node job token signal now later random r es payload errors v fresh
        (rw same at all_fresh) (rw same at found))
