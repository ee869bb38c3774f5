-- ===== src/Nodes/Job/Settles.antt =====
-- Which actions of `BullJobNode` settle the acknowledgement, and how.
use node_red_contrib_bull.Prelude.{ℕ, ◌≡◌, refl, Bool, true, false, not, Option, none, some}
use node_red_contrib_bull.Js.Value.{Value, Fields}
use node_red_contrib_bull.Js.Objects.{is_some}
use node_red_contrib_bull.Js.Program.{Yields, yields, raises, Yields->>=, Yields-if}
use node_red_contrib_bull.Acknowledgements.{Settlement, resolve, reject, Context}
use node_red_contrib_bull.Nodes.Job.{
  JobAction, progress, remove_deduplication_key, get_children_values, get_failed_children_values,
  remove_unprocessed_children, complete, fail, fail_unrecoverable, limit_rate, move_to_wait,
  move_to_delayed, update_data, cancel_job, cancel_all_jobs, TransitionErrors, Reply, result_of,
  act,
}

-- The actions that end the manual handling of a job by an error.
abbrev pub is_rejecting : JobAction → Bool
is_rejecting fail = true
is_rejecting fail_unrecoverable = true
is_rejecting limit_rate = true
is_rejecting move_to_wait = true
is_rejecting move_to_delayed = true
is_rejecting _ = false

abbrev pub is_settling : JobAction → Bool
is_settling complete = true
is_settling a = is_rejecting a

-- The actions that end a branch of the flow: no message follows them.
abbrev pub is_silent : JobAction → Bool
is_silent fail = true
is_silent fail_unrecoverable = true
is_silent limit_rate = true
is_silent _ = false

-- What an action may do to the acknowledgement: `complete` resolves it with the result of the message,
-- the rejecting actions reject it, and no other action settles it.
pub data Settles (msg : Fields) (a : JobAction) : Option Settlement → Type 0 where
  completes : a ≡ complete → Settles msg a (some (resolve (result_of msg)))
  rejects : {error : Value} → is_rejecting a ≡ true → Settles msg a (some (reject error))
  keeps : is_settling a ≡ false → Settles msg a none

abbrev pub Answers : Fields → JobAction → Reply → Type 0
Answers msg a reply = Settles msg a reply.settlement × (is_some reply.output ≡ not (is_silent a))

-- Whatever the libraries reply, an action that returns settles the acknowledgement as it should: `complete`
-- with the result, the failing and moving actions with an error, the others not at all; and it sends a
-- message on unless it fails the job or limits the rate.
pub act-Answers :
    (errors : TransitionErrors) (now : ℕ) (a : JobAction) (c : Context) (msg : Fields)
    → Yields (Answers msg a) (act errors now a c msg)
unfolding act
act-Answers errors now progress c msg =
    Yields->>= _ _ (λ _. Yields->>= _ _ (λ _. yields (keeps refl, refl)))
act-Answers errors now remove_deduplication_key c msg =
    Yields->>= _ _ (λ _. yields (keeps refl, refl))
act-Answers errors now get_children_values c msg = Yields->>= _ _ (λ _. yields (keeps refl, refl))
act-Answers errors now get_failed_children_values c msg =
    Yields->>= _ _ (λ _. yields (keeps refl, refl))
act-Answers errors now remove_unprocessed_children c msg =
    Yields->>= _ _ (λ _. yields (keeps refl, refl))
act-Answers errors now complete c msg = yields (completes refl, refl)
act-Answers errors now fail c msg = yields (rejects refl, refl)
act-Answers errors now fail_unrecoverable c msg = yields (rejects refl, refl)
act-Answers errors now limit_rate c msg = Yields->>= _ _ (λ _. yields (rejects refl, refl))
act-Answers errors now move_to_wait c msg = Yields->>= _ _ (λ _. yields (rejects refl, refl))
act-Answers errors now move_to_delayed c msg =
    Yields-if _ raises (Yields->>= _ _ (λ _. yields (rejects refl, refl)))
act-Answers errors now update_data c msg =
    Yields->>= _ _ (λ _. Yields->>= _ _ (λ _. yields (keeps refl, refl)))
act-Answers errors now cancel_job c msg =
    Yields->>= _ _ (λ cancelled. Yields-if _ (yields (keeps refl, refl)) raises)
act-Answers errors now cancel_all_jobs c msg = Yields->>= _ _ (λ _. yields (keeps refl, refl))
