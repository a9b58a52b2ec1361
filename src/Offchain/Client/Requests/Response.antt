-- ===== src/Offchain/Client/Requests/Response.antt =====
-- What the sender of a request makes of the reply.
use client_sdk_python.Base.{
  ℕ, ◌≡◌, refl, sym, ap, ◌∙◌, subst, String, false, Option, none, some, List, Outcome, ok, err,
  ok-injective,
}
use client_sdk_python.Identifier.Text.{Text}
use client_sdk_python.Jws.{JsonCodec}
use client_sdk_python.Offchain.Wallet.{Wallet}
use client_sdk_python.Offchain.Json.{Members}
use client_sdk_python.Offchain.Json.Plain.{plain, plain_members, is_distinct}
use client_sdk_python.Offchain.Json.Schema.{command_response_object_type}
use client_sdk_python.Offchain.Json.Command.{
  OffChainErrorObject, CommandResponseObject, command_response_any, reply_request,
}
use client_sdk_python.Offchain.Json.Payment.{IfSet}
use client_sdk_python.Offchain.Json.Responses.{response-HasType, response-IsPlain}
use client_sdk_python.Offchain.Json.Read.Laws.{read_response-any}
use client_sdk_python.Offchain.Wire.{serialize, deserialize}
use client_sdk_python.Offchain.Wire.RoundTrip.{Carries, deserialize-serialize}
use client_sdk_python.Offchain.Client.Requests.{
  RequestError, command_response_error, HttpRequest, Reply, post_of, raises_for_status,
  unless_failure, url_and_key, deserialize_jws, send_request,
}

-- What a reply with or without an error becomes.
abbrev pub reply_outcome :
    Option OffChainErrorObject → CommandResponseObject → Outcome RequestError CommandResponseObject
reply_outcome none r = ok r
reply_outcome (some e) r = err (command_response_error r)

unless_failure-reply :
    (cid : Option String) (error : Option OffChainErrorObject) (result : Option Members)
    → unless_failure (reply_request cid error result)
      ≡ reply_outcome error (reply_request cid error result)
unfolding reply_request
unless_failure-reply cid none result = refl
unless_failure-reply cid (some e) result = refl

result_of :
    (cid : Option String) (error : Option OffChainErrorObject) (result : Option Members)
    → (reply_request cid error result).result ≡ result
unfolding reply_request
result_of cid error result = refl

module _ (json : JsonCodec) (wallet : Wallet) where
  -- Where the counterparty has a base url and a key and answers the post with a status that is no
  -- error but for 400, and with a reply that it signs: the reply is returned when it was made
  -- without an error, and is raised as `CommandResponseError` when it was made with one. The key
  -- verifies the signatures, the codecs carry the reply, and no member of its result is `None`.
  pub send_request-reply :
      (post : HttpRequest → Reply) (request_id : String)
      (request_sender_address counterparty_account_id : Text) (request_bytes : List ℕ)
      (base_url : Text) (key msg : List ℕ) (status : ℕ) (sign : List ℕ → List ℕ)
      (cid : Option String) (error : Option OffChainErrorObject) (result : Option Members)
      → url_and_key wallet counterparty_account_id ≡ ok (base_url, key)
      → post (post_of base_url request_id request_sender_address request_bytes)
        ≡ record { status = status; body = msg }
      → raises_for_status status ≡ false
      → IfSet (λ ms. plain_members ms ≡ ms) result
      → Carries json wallet.utf8
          (plain (command_response_any (reply_request cid error result)))
          sign
          (wallet.verify key)
      → serialize json wallet.utf8 (command_response_any (reply_request cid error result)) sign
        ≡ ok msg
      → send_request json wallet post request_id request_sender_address counterparty_account_id
          request_bytes
        ≡ reply_outcome error (reply_request cid error result)
  unfolding send_request deserialize_jws is_distinct
  send_request-reply post request_id request_sender_address counterparty_account_id request_bytes
        base_url key msg status sign cid error result found answered fine kept carries sent =
      let r = reply_request cid error result in
      let plain_result =
        response-IsPlain r
          (subst (IfSet (λ ms. plain_members ms ≡ ms)) (sym (result_of cid error result)) kept) in
      let (made, written, read) =
        deserialize-serialize json wallet.utf8 "CommandResponseObject" _ (command_response_any r)
          sign (wallet.verify key) refl (response-HasType r) plain_result carries in
      let same =
        ap (λ m. deserialize json wallet.utf8 m command_response_object_type (wallet.verify key))
          (ok-injective (sym written ∙ sent)) in
      rw (found, answered, fine, sym same ∙ read, read_response-any r)
        (unless_failure-reply cid error result)
