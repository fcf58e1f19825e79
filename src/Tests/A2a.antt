-- ===== src/Tests/A2a.antt =====
-- The plugin on the call of one agent.
use flokoa.Common.{
  is_space, ap, sym, ◌∙◌, ℕ, suc, ◌≡◌, ◌≢◌, refl, true, false, [], ◌∷◌, ◌++◌, length, All, Option,
  none, some, ℤ, pos, negsuc, zero, take, drop, take-append, drop-append, Text, codes, ◌==◌, arith,
}
use flokoa.Common.Dict.{lookup}
use flokoa.A2a.Spec.{A2aMessage, A2aSpec, A2aMessagePart, Decoder, parsed, parse_a2a_spec}
use flokoa.A2a.Store.{
  ProgressState, Codec, StateStore, task_key, cm_key, cm_key_to_task_key, store, delete, load,
  is_timed_out,
}
use flokoa.A2a.Store.Keys.{IsTaskKey, cm_key_to_task_key-cm_key}
use flokoa.A2a.Store.Restart.{RoundTrips, works, after_restart, after_restart-store-delete}
use flokoa.A2a.Endpoints.{has_suffix, a2a_path, endpoint_candidates}
use flokoa.A2a.Endpoints.Trimmed.{IsAddress, Holds}
use flokoa.A2a.Endpoints.Both.{has_suffix-append, endpoint_candidates-both}
use flokoa.A2a.Reply.{node_failed}
use flokoa.A2a.Execute.{World, Plugin, Arguments, execute_template}
use flokoa.A2a.Execute.Steps.{Calls, with_errors}
use flokoa.A2a.Execute.Life.{execute_template-Calls}
use flokoa.A2a.Execute.Polls.{
  run_calls, IsUnreachable, args_key, run_calls-tolerates, run_calls-gave_up,
}

abbrev question : A2aMessagePart
question = record {
  text = some (record { text = codes "hello"; metadata = [] });
  content = none;
  file = none;
}

abbrev message : A2aMessage
message = record {
  role = codes "user";
  parts = question ∷ [];
  context_id = [];
  reference_task_ids = [];
  extensions = [];
  task_id = [];
  metadata = [];
}

abbrev spec : A2aSpec
spec = record {
  agent = codes "helper";
  namespace = [];
  message = message;
  config = none;
  timeout = none;
  traceparent = [];
}

abbrev decoder : Decoder
decoder = record { raw_object = λ t. some ((codes "a2a", t) ∷ []); spec = λ t. some spec }

abbrev progress : ProgressState
progress = record {
  task_id = codes "t";
  context_id = [];
  endpoint = codes "http://helper";
  start_time = 100;
  timeout = pos 50;
  poll_errors = 0;
}

abbrev uid : Text
uid = codes "u1"

abbrev args : Arguments
args = record {
  workflow_uid = uid;
  workflow_namespace = codes "demo";
  template_name = codes "ask";
  plugin_value = some (codes "{}");
}

-- An encoding of states as texts.
abbrev prefixed : Text → Text → Text
prefixed t rest = length t ∷ (t ++ rest)

abbrev timeout_codes : ℤ → Text
timeout_codes (pos n) = 0 ∷ n ∷ []
timeout_codes (negsuc n) = 1 ∷ n ∷ []

abbrev marshal_state : ProgressState → Option Text
marshal_state p = some (
    prefixed p.task_id (
      prefixed p.context_id
        (prefixed p.endpoint (p.start_time ∷ p.poll_errors ∷ timeout_codes p.timeout))))

abbrev cut : Text → Text × Text
cut [] = ([], [])
cut (n ∷ s) = (take n s, drop n s)

abbrev read_numbers : Text → Text → Text → Text → Option ProgressState
read_numbers t c e (start ∷ errors ∷ zero ∷ n ∷ rest) = some (record {
  task_id = t;
  context_id = c;
  endpoint = e;
  start_time = start;
  timeout = pos n;
  poll_errors = errors;
})
read_numbers t c e (start ∷ errors ∷ suc k ∷ n ∷ rest) = some (record {
  task_id = t;
  context_id = c;
  endpoint = e;
  start_time = start;
  timeout = negsuc n;
  poll_errors = errors;
})
read_numbers t c e rest = none

abbrev unmarshal_state : Text → Option ProgressState
unmarshal_state s =
    let a = cut s in let b = cut a.1 in let c = cut b.1 in read_numbers a.0 b.0 c.0 c.1

abbrev codec : Codec
codec = record { marshal = marshal_state; unmarshal = unmarshal_state }

numbers_lem :
    (p : ProgressState)
    → read_numbers p.task_id p.context_id p.endpoint
        (p.start_time ∷ p.poll_errors ∷ timeout_codes p.timeout)
      ≡ some p
numbers_lem p = go p.timeout
  where
    go :
        (t : ℤ)
        → read_numbers p.task_id p.context_id p.endpoint
            (p.start_time ∷ p.poll_errors ∷ timeout_codes t)
          ≡ some (record p { timeout = t })
    go (pos n) = refl
    go (negsuc n) = refl

codec-RoundTrips : RoundTrips codec
codec-RoundTrips p =
    let rest = p.start_time ∷ p.poll_errors ∷ timeout_codes p.timeout in
    (
      prefixed p.task_id (prefixed p.context_id (prefixed p.endpoint rest)),
      refl,
      simp (take-append, drop-append) (numbers_lem p),
    )

-- The network is down.
abbrev down : World
down = record {
  now = 120;
  agent_url = λ ns name. none;
  connects = λ endpoint. true;
  send_message = λ endpoint params. none;
  get_task = λ endpoint id. none;
  terminal = λ s. false;
  message_id = codes "m";
  child_traceparent = [];
  api = works;
}

abbrev polling : ℕ → Plugin
polling n = record {
  tasks = record {
    connected = false;
    cache = (task_key uid (codes "ask"), with_errors progress n) ∷ [];
    config_map = none;
  };
  outbox = [];
}

valid : parse_a2a_spec decoder args.plugin_value ≡ parsed spec
unfolding parse_a2a_spec ◌==◌
valid = refl

known : (n : ℕ) → load (args_key args) (polling n).tasks ≡ some (with_errors progress n)
unfolding load lookup ◌==◌
known n = refl

unreachable : IsUnreachable progress down
unfolding is_timed_out
unreachable = record { early = refl; connects = refl; no_answer = refl }

execute_template-Calls_example :
    (let key = args_key args in
      let x = execute_template decoder codec down (polling 0) args in
      Calls down key (polling 0).tasks x.0 x.1.tasks
      × (load key (polling 0).tasks ≢ none → x.1.outbox ≡ []))
execute_template-Calls_example = execute_template-Calls decoder codec down (polling 0) args

run_calls-tolerates_example :
    (let x = run_calls decoder codec args (polling 1) (down ∷ down ∷ []) in
      All (λ r. r.requeue ≡ true) x.0
      × (load (args_key args) x.1.tasks ≡ some (with_errors progress 3)))
run_calls-tolerates_example =
    run_calls-tolerates decoder codec args spec progress (polling 1) 1 (down ∷ down ∷ []) valid
      (known 1) (unreachable, (unreachable, tt)) (omega arith)

run_calls-gave_up_example :
    (let x = run_calls decoder codec args (polling 4) (down ∷ down ∷ []) in
      All (λ r. (r.phase ≡ node_failed) × (r.requeue ≡ false)) x.0
      × (x.1.outbox ≡ [])
      × (load (args_key args) x.1.tasks ≡ some (with_errors progress 6)))
run_calls-gave_up_example =
    run_calls-gave_up decoder codec args spec progress (polling 4) 4 (down ∷ down ∷ []) valid
      (known 4) (unreachable, (unreachable, tt)) (omega arith)

is_task_key : IsTaskKey (task_key uid (codes "ask"))
is_task_key = record {
  uid = uid;
  template = codes "ask";
  named = refl;
  uid_no_underscore = ground arith;
  uid_no_slash = ground arith;
  template_no_slash = ground arith;
}

cm_key_to_task_key-cm_key_example :
    cm_key_to_task_key (cm_key (task_key uid (codes "ask"))) ≡ task_key uid (codes "ask")
cm_key_to_task_key-cm_key_example =
    cm_key_to_task_key-cm_key (task_key uid (codes "ask")) is_task_key

abbrev helper : Text
helper = codes "http://helper"

helper-IsAddress : IsAddress helper
unfolding is_space
helper-IsAddress = record {
  first = b'h';
  rest = codes "ttp://helper";
  starts = refl;
  no_space = refl;
  front = codes "http://helpe";
  last = b'r';
  ends = refl;
  no_last_space = refl;
  no_slash = omega arith;
}

helper_short : Holds helper (codes " http://helper// ")
unfolding is_space
helper_short = record {
  before = codes " ";
  slashes = codes "//";
  after = codes " ";
  spaces_before = (refl, tt);
  only_slashes = (refl, (refl, tt));
  spaces_after = (refl, tt);
  whole = refl;
}

helper_long : Holds (helper ++ a2a_path) (codes "http://helper/a2a/")
helper_long = record {
  before = [];
  slashes = codes "/";
  after = [];
  spaces_before = tt;
  only_slashes = (refl, tt);
  spaces_after = tt;
  whole = refl;
}

helper_bare : (t : Text) → helper ≢ (t ++ a2a_path)
unfolding has_suffix ◌==◌
helper_bare t e =
    let suffixed : true ≡ false =
      sym (has_suffix-append t a2a_path) ∙ ap (λ s. has_suffix s a2a_path) (sym e) in
    cc

endpoint_candidates-both_example :
    (endpoint_candidates (codes " http://helper// ")
      ≡ (codes "http://helper" ∷ codes "http://helper/a2a" ∷ []))
    × (endpoint_candidates (codes "http://helper/a2a/")
        ≡ (codes "http://helper/a2a" ∷ codes "http://helper" ∷ []))
endpoint_candidates-both_example =
    endpoint_candidates-both helper (codes " http://helper// ") (codes "http://helper/a2a/")
      helper-IsAddress helper_bare helper_short helper_long

abbrev connected : StateStore
connected = record { connected = true; cache = []; config_map = none }

after_restart-store-delete_example :
    (after_restart codec
        (store codec works (task_key uid (codes "ask")) progress connected)
        (task_key uid (codes "ask"))
      ≡ load
          (task_key uid (codes "ask"))
          (store codec works (task_key uid (codes "ask")) progress connected))
    × (after_restart codec
          (delete codec works (task_key uid (codes "ask")) connected)
          (task_key uid (codes "ask"))
        ≡ load
            (task_key uid (codes "ask"))
            (delete codec works (task_key uid (codes "ask")) connected))
after_restart-store-delete_example =
    after_restart-store-delete codec connected (task_key uid (codes "ask")) progress
      (task_key uid (codes "ask")) codec-RoundTrips refl tt is_task_key is_task_key
