-- ===== src/Tasks/Broker.antt =====
-- controlpanel/api/message_broker.py: the messages that are sent to the queue and what a worker's end takes
-- for one. The JSON and base64 libraries, and the test for a UUID, are parameters.
pub mod Messages
mod Tests
use analytics_platform_contr.Prelude.{
  ℕ, Text, codes, teq, Bool, true, false, Option, none, some, List, [], ◌∷◌, if◌then◌else◌,
}
use analytics_platform_contr.Prelude.Exec.{Result, Exec, ok, err}

-- Values of JSON, the lists and the dictionaries in them
mutual
  pub data Json : Type 0 where
    null : Json
    text : Text → Json
    number : ℕ → Json
    array : Items → Json
    object : Members → Json

  pub data Items : Type 0 where
    no_items : Items
    item : Json → Items → Items

  pub data Members : Type 0 where
    no_members : Members
    member : Text → Json → Members → Members

-- What the methods raise: TypeError, binascii.Error, KeyError, AssertionError and MessageProtocolError; a text
-- that is no JSON is a ValueError.
pub data Error : Type 0 where
  type_error base64_error key_error value_error assertion_error protocol_error : Error

-- json.dumps and json.loads, base64.b64encode and b64decode between texts, uuid.UUID, and == of values of
-- JSON
pub record Codecs : Type 0 where
  pub dumps : Json → Text
  pub loads : Text → Option Json
  pub encode : Text → Text
  pub decode : Text → Option Text
  pub is_uuid : Text → Bool
  pub same : Json → Json → Bool

-- The last member of a name, if there is one
unfoldable pub field : Text → Members → Option Json
field key no_members = none
field key (member k v ms) = elim (field key ms) [
  | some w ↦ some w
  | none ↦ if teq k key then some v else none
]

-- value[key]: KeyError where it is not there, TypeError for a value that is no dictionary
unfoldable pub found : Option Json → Result Error Json
found none = err key_error
found (some v) = ok v

unfoldable pub at_key : Json → Text → Result Error Json
at_key (object ms) key = found (field key ms)
at_key null key = err type_error
at_key (text t) key = err type_error
at_key (number n) key = err type_error
at_key (array is) key = err type_error

-- value[a][b]
unfoldable pub at_keys : Json → Text → Text → Result Error Json
at_keys v a b = elim (at_key v a) [ ok w ↦ at_key w b | err e ↦ err e ]

pub record Task : Type 0 where
  pub task_id : Text
  pub task_name : Text
  pub queue_name : Text
  pub args : Items
  pub kwargs : Members

-- `MessageProtocol._validate`, of arguments that are a list and a dictionary
unfoldable pub validate : Codecs → Task → Result Error Unit
validate codecs t =
    if codecs.is_uuid t.task_id
    then (if teq t.task_name []
        then err type_error
        else if teq t.queue_name []
        then err type_error
        else ok tt)
    else err type_error

-- The headers of `_init_message`, `origin` being `_anon_nodename()`
unfoldable pub headers : Text → Task → Json
headers origin t = object (
    member (codes "lang") (text (codes "py")) (
      member (codes "task") (text t.task_name) (
        member (codes "id") (text t.task_id) (
          member (codes "group") null (
            member (codes "root_id") (text t.task_id) (
              member (codes "parent_id") null
                (member (codes "origin") (text origin) no_members)))))))

-- The body of `_init_message`
unfoldable pub body : Task → Json
body t =
    let options = object (
      member (codes "callbacks") null (
        member (codes "errbacks") null
          (member (codes "chain") null (member (codes "chord") null no_members)))) in
    array (item (array t.args) (item (object t.kwargs) (item options no_items)))

-- The properties, as `prepare_message` leaves them
unfoldable pub properties : Text → Task → Json
properties delivery_tag t = object (
    member (codes "correlation_id") (text t.task_id) (
      member (codes "delivery_info")
        (object (
          member (codes "priority") (number 0)
            (member (codes "routing_key") (text t.queue_name) no_members)))
        (member (codes "body_encoding") (text (codes "base64"))
          (member (codes "delivery_tag") (text delivery_tag) no_members))))

-- The message that `prepare_message` encodes
unfoldable pub message : Codecs → Text → Text → Task → Json
message codecs origin delivery_tag t = object (
    member (codes "headers") (headers origin t) (
      member (codes "properties") (properties delivery_tag t) (
        member (codes "body") (text (codecs.encode (codecs.dumps (body t)))) (
          member (codes "content-encoding") (text (codes "utf-8"))
            (member (codes "content-type") (text (codes "application/json")) no_members)))))

unfoldable pub prepare_message : Codecs → Text → Text → Task → Text
prepare_message codecs origin delivery_tag t =
    codecs.encode (codecs.dumps (message codecs origin delivery_tag t))

-- value == text, as `assert` asks it
unfoldable pub is_text : Text → Json → Bool
is_text t (text u) = teq u t
is_text t null = false
is_text t (number n) = false
is_text t (array is) = false
is_text t (object ms) = false

unfoldable pub assert_that : Bool → Result Error Unit
assert_that true = ok tt
assert_that false = err assertion_error

-- assert value == t
unfoldable pub assert_text : Text → Result Error Json → Result Error Unit
assert_text t (ok v) = assert_that (is_text t v)
assert_text t (err e) = err e

-- assert v == w
unfoldable pub assert_same : Codecs → Result Error Json → Result Error Json → Result Error Unit
assert_same codecs (ok v) (ok w) = assert_that (codecs.same v w)
assert_same codecs (ok v) (err e) = err e
assert_same codecs (err e) w = err e

-- One check after the other
unfoldable pub and_then : Result Error Unit → Result Error Unit → Result Error Unit
and_then (ok u) r = r
and_then (err e) r = err e

-- The encoded body: bytes are decoded from base64, and their JSON is a list.
unfoldable pub is_list : Option Json → Result Error Unit
is_list none = err value_error
is_list (some (array is)) = ok tt
is_list (some null) = err assertion_error
is_list (some (text t)) = err assertion_error
is_list (some (number n)) = err assertion_error
is_list (some (object ms)) = err assertion_error

unfoldable pub decoded_list : Codecs → Option Text → Result Error Unit
decoded_list codecs none = err value_error
decoded_list codecs (some t) = is_list (codecs.loads t)

unfoldable pub assert_list : Codecs → Result Error Json → Result Error Unit
assert_list codecs (err e) = err e
assert_list codecs (ok (text t)) = decoded_list codecs (codecs.decode t)
assert_list codecs (ok v) = err type_error

-- The `try` of `validate_message`, its assertions in their order
unfoldable pub checks : Codecs → Json → Result Error Unit
checks codecs v = and_then (assert_text (codes "utf-8") (at_key v (codes "content-encoding"))) (
    and_then (assert_text (codes "application/json") (at_key v (codes "content-type"))) (
      and_then
        (assert_same codecs (at_keys v (codes "headers") (codes "id"))
          (at_keys v (codes "headers") (codes "root_id")))
        (and_then
          (assert_same codecs (at_keys v (codes "headers") (codes "id"))
            (at_keys v (codes "properties") (codes "correlation_id")))
          (assert_list codecs (at_key v (codes "body"))))))

-- except (ValueError, KeyError): (False, None)
unfoldable pub validated : Json → Result Error Unit → Result Error (Option Json)
validated v (ok u) = ok (some v)
validated v (err value_error) = ok none
validated v (err key_error) = ok none
validated v (err e) = err e

unfoldable pub loaded : Codecs → Option Json → Result Error (Option Json)
loaded codecs none = ok none
loaded codecs (some v) = validated v (checks codecs v)

-- `validate_message`: the message, or `none` for False. The message is decoded outside the `try`.
unfoldable pub validate_message : Codecs → Text → Result Error (Option Json)
validate_message codecs t = elim (codecs.decode t) [
  | none ↦ err base64_error
  | some d ↦ loaded codecs (codecs.loads d)
]

-- `MessageBrokerClient.send_message`, with the queue's client
unfoldable pub send_message :
    {Store : Type 0}
    → (Text → Text → Exec Error Store Unit)
    → Codecs
    → Text
    → Text
    → Text
    → Task
    → Exec Error Store Text
send_message client codecs protocol origin delivery_tag t s =
    if teq protocol (codes "celery")
    then elim (validate codecs t) [
      | err e ↦ (err e, s)
      | ok _ ↦
          let m = prepare_message codecs origin delivery_tag t in
          let (r, s') = client t.queue_name m s in (elim r [ ok _ ↦ ok m | err e ↦ err e ], s')
    ]
    else (err protocol_error, s)
