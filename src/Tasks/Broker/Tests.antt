-- ===== src/Tasks/Broker/Tests.antt =====
-- Messages of one task on the queue.
use analytics_platform_contr.Prelude.{
  ◌≡◌, refl, Text, codes, true, some, none, Option, [], ◌∷◌, zero, suc,
}
use analytics_platform_contr.Prelude.Exec.{ok}
use analytics_platform_contr.Tasks.Broker.{
  Json, null, text, number, array, object, no_items, no_members, Codecs, Task, body, message,
  prepare_message, validate_message,
}
use analytics_platform_contr.Tasks.Broker.Messages.{IsJson, RoundTrips, validate-prepare}

abbrev task : Task
task = record {
  task_id = codes "1";
  task_name = codes "create";
  queue_name = codes "iam";
  args = no_items;
  kwargs = no_members;
}

-- A library of JSON for the two values that are written for the task: one text for each
unfoldable written : Json → Text
written (array is) = 1 ∷ []
written (object ms) = 2 ∷ []
written null = []
written (text t) = []
written (number n) = []

abbrev sent : Json
sent =
    message
      (record {
        dumps = written;
        loads = λ d. none;
        encode = λ d. d;
        decode = λ d. some d;
        is_uuid = λ d. true;
        same = λ v w. true;
      })
      (codes "9@host") (codes "7") task

unfoldable read_back : Text → Option Json
read_back [] = none
read_back (zero ∷ d) = none
read_back (suc zero ∷ d) = some (body task)
read_back (suc (suc n) ∷ d) = some sent

abbrev codecs : Codecs
codecs = record {
  dumps = written;
  loads = read_back;
  encode = λ d. d;
  decode = λ d. some d;
  is_uuid = λ d. true;
  same = λ v w. true;
}

abbrev laws : RoundTrips codecs
laws = record { decode-encode = λ d. refl; same_refl = λ d. refl }

read_body : IsJson codecs (body task)
unfolding body written read_back
read_body = refl

read_message : IsJson codecs (message codecs (codes "9@host") (codes "7") task)
unfolding message body written read_back
read_message = refl

validate-prepare_example :
    validate_message codecs (prepare_message codecs (codes "9@host") (codes "7") task)
    ≡ ok (some (message codecs (codes "9@host") (codes "7") task))
validate-prepare_example =
    validate-prepare codecs laws (codes "9@host") (codes "7") task read_body read_message
