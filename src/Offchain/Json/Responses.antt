-- ===== src/Offchain/Json/Responses.antt =====
-- Responses that `from_dict` reads: every response is an instance of its class.
use client_sdk_python.Base.{◌≡◌, refl, inl, inr, String, true, Option, none, some, [], ◌∷◌}
use client_sdk_python.Offchain.Json.{Any, Members}
use client_sdk_python.Offchain.Json.Schema.{
  FieldType, str_type, dict_type, any_value, is_valid, is_one_of, one_of, texts,
  off_chain_error_object_type, command_response_object_type,
}
use client_sdk_python.Offchain.Json.Command.{
  CommandResponseStatus, success, failure, OffChainErrorType, command_error_type,
  protocol_error_type, OffChainErrorObject, CommandResponseObject, none_or, error_type_text,
  response_status_text, off_chain_error_any, command_response_any,
}
use client_sdk_python.Offchain.Json.Typed.{HasType, FieldHas}
use client_sdk_python.Offchain.Json.Plain.{IsPlain, plain_members}
use client_sdk_python.Offchain.Json.Payment.{IfSet}

-- The optional fields of a response, written as values.
optional_any :
    {A : Type 0} (type : FieldType) (write : A → Any) (o : Option A)
    → ((a : A) → FieldHas any_value true (HasType type) (write a))
    → FieldHas any_value true (HasType type) (none_or write o)
optional_any type write none each = inl (refl, refl)
optional_any type write (some a) each = each a

optional_str : (o : Option String) → FieldHas any_value true (HasType str_type) (none_or Any.str o)
unfolding HasType is_valid
optional_str o = optional_any str_type Any.str o (λ s. inr (refl, refl, refl))

response_status_named :
    (s : CommandResponseStatus)
    → is_valid (one_of (texts ("success" ∷ "failure" ∷ []))) (Any.str (response_status_text s))
      ≡ true
unfolding is_valid
response_status_named success = refl
response_status_named failure = refl

error_type_named :
    (t : OffChainErrorType)
    → is_valid
        (one_of (texts ("command_error" ∷ "protocol_error" ∷ [])))
        (Any.str (error_type_text t))
      ≡ true
unfolding is_valid
error_type_named command_error_type = refl
error_type_named protocol_error_type = refl

error-HasType :
    (e : OffChainErrorObject) → HasType off_chain_error_object_type (off_chain_error_any e)
unfolding HasType is_valid
error-HasType e = (
  refl,
  (
    refl,
    inr (refl, error_type_named e.type, refl),
    (
      refl,
      inr (refl, refl, refl),
      (refl, optional_str e.field, (refl, optional_str e.message, tt)),
    ),
  ),
)

pub response-HasType :
    (r : CommandResponseObject) → HasType command_response_object_type (command_response_any r)
unfolding HasType is_valid is_one_of
response-HasType r =
    let error =
      optional_any off_chain_error_object_type off_chain_error_any r.error
        (λ e. inr (refl, refl, error-HasType e)) in
    let result = optional_any dict_type Any.dict r.result (λ ms. inr (refl, refl, refl)) in
    (
      refl,
      (
        refl,
        inr (refl, response_status_named r.status, refl),
        (
          refl,
          inr (refl, refl, refl),
          (refl, error, (refl, optional_str r.cid, (refl, result, tt))),
        ),
      ),
    )

optional-IsPlain :
    {A : Type 0} (write : A → Any) (o : Option A)
    → ((a : A) → o ≡ some a → IsPlain (write a))
    → IsPlain (none_or write o)
unfolding IsPlain
optional-IsPlain write none each = tt
optional-IsPlain write (some a) each = each a refl

optional_str-IsPlain : (o : Option String) → IsPlain (none_or Any.str o)
unfolding IsPlain
optional_str-IsPlain o = optional-IsPlain Any.str o (λ s e. tt)

error-IsPlain : (e : OffChainErrorObject) → IsPlain (off_chain_error_any e)
unfolding IsPlain
error-IsPlain e = (tt, (tt, (optional_str-IsPlain e.field, (optional_str-IsPlain e.message, tt))))

result-IsPlain :
    (o : Option Members) → IfSet (λ ms. plain_members ms ≡ ms) o → IsPlain (none_or Any.dict o)
unfolding IsPlain
result-IsPlain none h = tt
result-IsPlain (some ms) h = h

pub response-IsPlain :
    (r : CommandResponseObject)
    → IfSet (λ ms. plain_members ms ≡ ms) r.result
    → IsPlain (command_response_any r)
unfolding IsPlain
response-IsPlain r h = (
  tt,
  (
    tt,
    (
      optional-IsPlain off_chain_error_any r.error (λ e s. error-IsPlain e),
      (optional_str-IsPlain r.cid, (result-IsPlain r.result h, tt)),
    ),
  ),
)
