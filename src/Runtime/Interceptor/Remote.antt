-- ===== src/Runtime/Interceptor/Remote.antt =====
-- runtime/interceptor.py: what a call answers that is sent, and one that is not.
use cpip.Common.{
  ℕ, ◌≡◌, refl, ap, ◌∙◌, String, Bool, true, false, Option, some, List, ◌∷◌, ◌++◌, arith, All,
}
use cpip.Common.Dict
use cpip.Common.Dict.{get-put, get-remove}
use cpip.Shared.Json.{Json, Fields, get_field, truthy}
use cpip.Shared.Protocol.{RpcMessage, MessageType}
use cpip.Runtime.Serialization.Values.{Value, Entries, Codec}
use cpip.Runtime.Serialization.Encode.{serialize_value}
use cpip.Runtime.Serialization.RoundTrip.{Faithful, restored, deserialize_result-serialize_value}
use cpip.Runtime.Interceptor.{
  Future, Socket, CloudSession, connect, begin, outcome, receive_all, Answer, deserialized,
  error_text, finish,
}
use cpip.Runtime.Interceptor.Receiving.{
  addressed, answers, unaddressed, receive_all-other, receive_all-answer, begin-At,
}

-- What an answer of the server holds: the result of a value, or an error with its message.
pub data Holds (codec : Codec) (msg : RpcMessage) : Answer → Type 0 where
  value :
      (v : Value)
      → msg.type ≡ MessageType.result
      → msg.result ≡ serialize_value codec v
      → Holds codec msg (deserialized (restored codec v))
  message :
      (d : Fields) (text : String)
      → msg.type ≡ MessageType.error
      → msg.error ≡ Json.object d
      → get_field d "message" ≡ some (Json.string text)
      → Holds codec msg (Answer.runtime_error text)
  no_message :
      msg.type ≡ MessageType.error
      → truthy msg.error ≡ false
      → Holds codec msg (Answer.runtime_error "Remote error")

outcome-error :
    (msg : RpcMessage) (text : String)
    → msg.type ≡ MessageType.error
    → error_text msg.error ≡ some text
    → outcome msg ≡ some (Future.error text)
outcome-error msg text t e = ground (arith, t, e)

error_text-message :
    (d : Fields) (text : String)
    → get_field d "message" ≡ some (Json.string text)
    → error_text (Json.object d) ≡ some text
error_text-message d text m = ground (arith, m)

error_text-falsy : (v : Json) → truthy v ≡ false → error_text v ≡ some "Remote error"
unfolding get_field
error_text-falsy Json.null e = refl
error_text-falsy (Json.boolean b) e = ground (arith, e)
error_text-falsy (Json.number n) e = ground (arith, e)
error_text-falsy (Json.string t) e = ground (arith, e)
error_text-falsy (Json.array vs) e = ground (arith, e)
error_text-falsy (Json.object Fields.no_fields) e = refl
error_text-falsy (Json.object (Fields.entry k v d)) e = ground (arith, e)

-- A call answers what the first answer to it holds, whatever is received before that is no answer to it,
-- messages of other types with its id included, and whatever is received after: the value of a result
-- as `restored` gives it, if the libraries of the serialization are faithful, or the error of the
-- server, with its message.
pub finish-receive_all :
    (codec : Codec) (reached : Bool) (uuid : String) (now : ℕ) (method : String) (args : Value)
    (kwargs : Entries) (s : CloudSession) (before after : List (Option RpcMessage))
    (msg : RpcMessage) (answer : Answer)
    → Faithful codec
    → All (λ (m : Option RpcMessage). answers uuid m ≡ false) before
    → msg.id ≡ Json.string uuid
    → Holds codec msg answer
    → let called = (begin codec reached uuid now method args kwargs s).1 in
      (finish codec uuid (receive_all (before ++ (some msg ∷ after)) called)).0 ≡ answer
unfolding finish
finish-receive_all codec reached uuid now method args kwargs s before after msg answer f n e
      (Holds.value v t r) =
    let called = (begin codec reached uuid now method args kwargs s).1 in
    let settled =
      receive_all-answer before after msg uuid (Future.result msg.result) called n e
        (ground (arith, t)) (ground (arith, t))
        (begin-At codec reached uuid now method args kwargs s) in
    ground (arith, settled.1, r, deserialize_result-serialize_value codec v f)
finish-receive_all codec reached uuid now method args kwargs s before after msg answer f n e
      (Holds.message d text t r m) =
    let called = (begin codec reached uuid now method args kwargs s).1 in
    let settled =
      receive_all-answer before after msg uuid (Future.error text) called n e (ground (arith, t))
        (outcome-error msg text t (ap error_text r ∙ error_text-message d text m))
        (begin-At codec reached uuid now method args kwargs s) in
    ground (arith, settled.1)
finish-receive_all codec reached uuid now method args kwargs s before after msg answer f n e
      (Holds.no_message t r) =
    let called = (begin codec reached uuid now method args kwargs s).1 in
    let settled =
      receive_all-answer before after msg uuid (Future.error "Remote error") called n e
        (ground (arith, t)) (outcome-error msg "Remote error" t (error_text-falsy msg.error r))
        (begin-At codec reached uuid now method args kwargs s) in
    ground (arith, settled.1)

-- Where the server was never reached, a call is not sent and raises nothing: it waits for its time to
-- end, whatever is received for other calls, and stays pending for ever.
pub finish_unsent :
    (codec : Codec) (uuid : String) (now : ℕ) (method : String) (args : Value) (kwargs : Entries)
    (s : CloudSession) (ms : List (Option RpcMessage))
    → s.socket ≡ Socket.no_socket
    → s.connected ≡ false
    → All (λ (m : Option RpcMessage). addressed uuid m ≡ false) ms
    → let (fine, called) = begin codec false uuid now method args kwargs s in
      let (answer, end) = finish codec uuid (receive_all ms called) in
      (fine ≡ true)
      × (called.sent ≡ s.sent)
      × (answer ≡ Answer.timeout_error)
      × (Dict.get end.pending uuid ≡ some tt)
unfolding finish begin connect
finish_unsent codec uuid now method args kwargs s ms w c n =
    let called = (begin codec false uuid now method args kwargs s).1 in
    let held =
      receive_all-other ms uuid (some tt) (some Future.waiting) called (unaddressed uuid ms n)
        (begin-At codec false uuid now method args kwargs s) in
    (
      ground (arith, w, c),
      ground (arith, w, c),
      ground (arith, held.1),
      ground (arith, held.0, held.1),
    )
