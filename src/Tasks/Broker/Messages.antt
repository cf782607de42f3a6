-- ===== src/Tasks/Broker/Messages.antt =====
-- A message that is prepared is valid, and what else is taken for one.
use analytics_platform_contr.Prelude.{◌≡◌, ◌∙◌, ap, Text, codes, teq, true, false, some, arith}
use analytics_platform_contr.Prelude.Exec.{ok, err}
use analytics_platform_contr.Tasks.Broker.{
  Json, text, assertion_error, Codecs, field, found, at_key, at_keys, Task, headers, body,
  properties, message, prepare_message, is_text, assert_that, assert_text, assert_same, and_then,
  is_list, decoded_list, assert_list, checks, validated, loaded, validate_message,
}

-- json.loads gives back what json.dumps has written: of a value whose dictionaries have each key once.
abbrev pub IsJson : Codecs → Json → Type 0
IsJson codecs v = codecs.loads (codecs.dumps v) ≡ some v

-- What the other libraries promise: decoding undoes encoding, and a text is equal to itself.
pub record RoundTrips (codecs : Codecs) : Type 0 where
  pub decode-encode : (t : Text) → codecs.decode (codecs.encode t) ≡ some t
  pub same_refl : (t : Text) → codecs.same (text t) (text t) ≡ true

validate_read :
    (codecs : Codecs) (t d : Text) (v : Json)
    → codecs.decode t ≡ some d
    → codecs.loads d ≡ some v
    → validate_message codecs t ≡ validated v (checks codecs v)
unfolding validate_message loaded
validate_read codecs t d v h k = ground (arith, h, k)

-- A message in another encoding is no False: the assertion is raised.
validate_other_encoding :
    (codecs : Codecs) (t d : Text) (v w : Json)
    → codecs.decode t ≡ some d
    → codecs.loads d ≡ some v
    → at_key v (codes "content-encoding") ≡ ok w
    → is_text (codes "utf-8") w ≡ false
    → validate_message codecs t ≡ err assertion_error
unfolding checks assert_text assert_that and_then validated
validate_other_encoding codecs t d v w h k e n =
    validate_read codecs t d v h k ∙ ground (arith, e, n)

module _ (codecs : Codecs) (laws : RoundTrips codecs) (origin delivery_tag : Text) (t : Task) where
  checks-message :
      IsJson codecs (body t) → checks codecs (message codecs origin delivery_tag t) ≡ ok tt
  unfolding checks message headers properties at_keys at_key found field assert_text assert_same
      assert_that is_text and_then assert_list decoded_list is_list teq body
  checks-message h =
      ground (arith, laws.same_refl t.task_id, laws.decode-encode (codecs.dumps (body t)), h)

  -- Where base64 decodes what it has encoded, and JSON gives back the body of the task and its
  -- message: the message that is prepared for a task is valid, and validation gives it back as it
  -- was before it was encoded.
  pub validate-prepare :
      IsJson codecs (body t)
      → IsJson codecs (message codecs origin delivery_tag t)
      → validate_message codecs (prepare_message codecs origin delivery_tag t)
        ≡ ok (some (message codecs origin delivery_tag t))
  unfolding prepare_message validated
  validate-prepare h k =
      let v = message codecs origin delivery_tag t in
      validate_read codecs (prepare_message codecs origin delivery_tag t) (codecs.dumps v) v
        (laws.decode-encode (codecs.dumps v)) k
      ∙ ap (validated v) (checks-message h)
