-- ===== src/Runtime/Hooks/Refused.antt =====
-- runtime/interceptor.py and server/ws/rpc.py: how the server answers the message of a call, in the texts
-- of shared/protocol.py.
use Prim.Native.String.{◌++◌ as ◌<>◌}
use cpip.Common.{
  ℕ, ◌≡◌, refl, ap, ◌∙◌, inl, inr, String, true, Option, some, none, [], ◌∷◌, ◌++◌, arith,
}
use cpip.Common.Dict
use cpip.Common.Dict.{Dict}
use cpip.Shared.Json.{Json, truthy}
use cpip.Shared.Protocol.{
  RpcMessage, MessageType, to_dict, from_dict, make_call, make_error, or_else,
}
use cpip.Shared.Protocol.RoundTrip.{IsNormal, from_dict-to_dict}
use cpip.Server.Ws.Hub.{Hub}
use cpip.Server.Ws.Rpc.{Handlers, dispatcher, dispatch, respond, lookup, register}
use cpip.Server.Ws.Endpoint as Endpoint
use cpip.Server.Ws.Endpoint.{Env, from_json}
use cpip.Runtime.Serialization.Values.{Value, Entries, Codec}
use cpip.Runtime.Interceptor.{CloudSession, call_message}

-- The server's dispatcher, `str` of a text, and an id and a time that are there.
pub record IsServer (env : Env) : Type 0 where
  pub started : ℕ
  pub handlers : env.handlers ≡ dispatcher started
  pub str : (s : String) → env.context.str (Json.string s) ≡ s
  pub has_uuid : truthy (Json.string env.context.uuid) ≡ true
  pub has_time : truthy (Json.number env.context.now) ≡ true

-- The text of a message is read as its dict.
abbrev pub IsRead : Env → RpcMessage → Type 0
IsRead env m = env.loads (env.dumps (to_dict m)) ≡ some (to_dict m)

-- The server's answer to a call.
abbrev pub refusal : Env → String → RpcMessage
refusal env uuid =
    make_error env.context.uuid env.context.now (Json.string uuid) "METHOD_NOT_FOUND"
      "Unknown method: exec.call" Json.null

pub refusal-IsNormal :
    (env : Env) (uuid : String)
    → IsServer env
    → truthy (Json.string uuid) ≡ true
    → IsNormal (refusal env uuid)
unfolding make_error
refusal-IsNormal env uuid s t = ground (arith, s.has_time, t)

pub call-IsNormal :
    (codec : Codec) (uuid : String) (now : ℕ) (s : CloudSession) (method : String) (args : Value)
    (kwargs : Entries)
    → truthy (Json.string uuid) ≡ true
    → truthy (Json.number now) ≡ true
    → IsNormal (call_message codec uuid now s method args kwargs)
unfolding make_call
call-IsNormal codec uuid now s method args kwargs t n =
    (t, n, inl refl, inl refl, inr refl, inr refl)

pub call_fields :
    (codec : Codec) (uuid : String) (now : ℕ) (s : CloudSession) (method : String) (args : Value)
    (kwargs : Entries)
    → truthy (Json.string uuid) ≡ true
    → let msg = call_message codec uuid now s method args kwargs in
      (msg.type ≡ MessageType.call)
      × (msg.method ≡ Json.string "exec.call")
      × (msg.id ≡ Json.string uuid)
unfolding make_call
call_fields codec uuid now s method args kwargs t = (refl, refl, ground (arith, t))

dispatch_unknown :
    (env : Env) (msg : RpcMessage) (uuid : String)
    → IsServer env
    → msg.method ≡ Json.string "exec.call"
    → msg.id ≡ Json.string uuid
    → dispatch env.handlers env.context msg ≡ some (refusal env uuid)
unfolding dispatch respond dispatcher register Dict.get Dict.put
dispatch_unknown env msg uuid s m i =
    let c = env.context in
    ap (λ (hs : Handlers). dispatch hs c msg) s.handlers
    ∙ ap
        (λ (method : Json). elim (lookup (dispatcher s.started) (or_else method (Json.string ""))) [
          | none ↦ none
          | some found ↦ some (respond c msg (or_else method (Json.string "")) found)
        ])
        m
    ∙ ap
        (λ (name : String). some (
          make_error c.uuid c.now msg.id "METHOD_NOT_FOUND" ("Unknown method: " <> name) Json.null))
        (s.str "exec.call")
    ∙ ap
        (λ (id : Json).
          some
            (make_error c.uuid c.now id "METHOD_NOT_FOUND" "Unknown method: exec.call" Json.null))
        i

-- What a message is read as on the other side.
pub from_json-dumps :
    (env : Env) (m : RpcMessage)
    → IsRead env m
    → IsNormal m
    → from_json env (env.dumps (to_dict m)) ≡ some m
from_json-dumps env m s n =
    ap
      (λ (o : Option (Dict Json)). elim o [
        | none ↦ none
        | some d ↦ from_dict env.context.uuid env.context.now d
      ])
      s
    ∙ from_dict-to_dict env.context.uuid env.context.now m n

-- The server's endpoint answers a call with the refusal.
pub receive_call :
    (env : Env) (device_id : String) (w : ℕ) (h : Hub) (msg : RpcMessage) (uuid : String)
    → IsServer env
    → env.alive w ≡ true
    → IsRead env msg
    → IsNormal msg
    → msg.type ≡ MessageType.call
    → msg.method ≡ Json.string "exec.call"
    → msg.id ≡ Json.string uuid
    → (Endpoint.receive env device_id w (env.dumps (to_dict msg)) h).sent
      ≡ h.sent ++ ((w, env.dumps (to_dict (refusal env uuid))) ∷ [])
unfolding Endpoint.receive Endpoint.on_message Endpoint.send
receive_call env device_id w h msg uuid s alive read n t m i =
    ap
      (λ (o : Option RpcMessage).
        (elim o as (λ _. Hub) [
          | none ↦ h
          | some found ↦ Endpoint.on_message env device_id w found found.type h
        ]).sent)
      (from_json-dumps env msg read n)
    ∙ ap (λ (type : MessageType). (Endpoint.on_message env device_id w msg type h).sent) t
    ∙ ap
        (λ (o : Option RpcMessage).
          (elim o as (λ _. Hub) [ none ↦ h | some response ↦ Endpoint.send env w response h ]).sent)
        (dispatch_unknown env msg uuid s m i)
    ∙ rw alive refl
