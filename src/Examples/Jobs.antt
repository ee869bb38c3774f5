-- ===== src/Examples/Jobs.antt =====
-- The completion of a job by a message with a result.
use node_red_contrib_bull.Prelude.{some}
use node_red_contrib_bull.Js.Value.{str, obj, Fields, end, field}
use node_red_contrib_bull.Js.Program.{Yields}
use node_red_contrib_bull.Acknowledgements.{Context}
use node_red_contrib_bull.Nodes.Job.{complete, TransitionErrors, act}
use node_red_contrib_bull.Nodes.Job.Settles.{Answers, act-Answers}

abbrev messages : TransitionErrors
messages = record {
  waiting_message = "waiting";
  delayed_message = "delayed";
  rate_limit_message = "limited";
}

abbrev manual_job : Context
manual_job = record {
  job = obj (field "id" (str "1") end);
  queue_name = "mail";
  run_node_id = "run1";
  token = str "t1";
  signal = some 4;
}

abbrev done_message : Fields
done_message = field "result" (str "sent") end

act-Answers_example :
    Yields (Answers done_message complete) (act messages 7 complete manual_job done_message)
act-Answers_example = act-Answers messages 7 complete manual_job done_message
