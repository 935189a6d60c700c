-- ===== src/Runtime/Hooks/Remote.antt =====
-- runtime/hooks.py: a call through a proxy, by way of runtime/interceptor.py, the texts of
-- shared/protocol.py, the endpoint of server/app.py and the dispatcher of server/ws/rpc.py.
use cpip.Common.{
  ℕ, ◌≡◌, refl, ap, ◌∙◌, String, Bool, true, false, Option, some, none, List, [], ◌∷◌, ◌++◌, arith,
  All,
}
use cpip.Common.Dict
use cpip.Common.Dict.{Dict}
use cpip.Common.Texts.{join_dots}
use cpip.Shared.Json.{Json, truthy, get_field}
use cpip.Shared.Protocol.{RpcMessage, to_dict, make_error}
use cpip.Server.Ws.Hub.{Hub}
use cpip.Server.Ws.Endpoint as Endpoint
use cpip.Server.Ws.Endpoint.{Env, from_json}
use cpip.Runtime.Serialization.Values.{Value, Entries, Codec}
use cpip.Runtime.Interceptor.{
  Socket, CloudSession, Future, Answer, connect, call_message, send, begin, receive_all, finish,
}
use cpip.Runtime.Interceptor.Receiving.{addressed, unaddressed, receive_all-answer, begin-At}
use cpip.Runtime.Hooks.{
  ProxyModule, getattr, get_session, call_remote, chain, dotted, starts_with_underscore, Attribute,
}
use cpip.Runtime.Hooks.Names.{chain-join_dots}
use cpip.Runtime.Hooks.Refused.{
  IsServer, IsRead, refusal, refusal-IsNormal, call-IsNormal, call_fields, from_json-dumps,
  receive_call,
}

connect_sent : (reached : Bool) (s : CloudSession) → (connect reached s).sent ≡ s.sent
unfolding connect
connect_sent reached s = ground arith

getattr_public :
    (p : ProxyModule) (attr : String)
    → starts_with_underscore attr ≡ false
    → p.submodules ≡ []
    → getattr p attr ≡ Attribute.callable (dotted p.name attr)
unfolding getattr Dict.get
getattr_public p attr public none_in = rw public (
    ap
      (λ (d : Dict String). elim (Dict.get d (dotted p.name attr)) as (λ _. Attribute) [
        | none ↦ Attribute.callable (dotted p.name attr)
        | some m ↦ Attribute.submodule m
      ])
      none_in)

call_remote_public :
    (codec : Codec) (reached : Bool) (session_id uuid : String) (now : ℕ) (attr : String)
    (attrs : List String) (args : Value) (kwargs : Entries) (p : ProxyModule)
    → starts_with_underscore attr ≡ false
    → p.submodules ≡ []
    → let (s, q) = get_session session_id p in
      let (fine, s1) =
        begin codec reached uuid now (join_dots p.name (attr ∷ attrs)) args kwargs s in
      call_remote codec reached session_id uuid now attr attrs args kwargs p
      ≡ some (fine, record q { session = some s1 })
unfolding call_remote chain
call_remote_public codec reached session_id uuid now attr attrs args kwargs p public none_in =
    let (s, q) = get_session session_id p in
    let answer = λ (name : String).
      let (fine, s1) = begin codec reached uuid now name args kwargs s in
      let made : Option (Bool × ProxyModule) = some (fine, record q { session = some s1 }) in
      made in
    ap
      (λ (a : Attribute). elim a as (λ _. Option (Bool × ProxyModule)) [
        | Attribute.callable name ↦ answer (chain name attrs)
        | _ ↦ none
      ])
      (getattr_public p attr public none_in)
    ∙ ap answer (chain-join_dots p.name (attr ∷ attrs))

-- What a call and the server's answer to it come to, in the texts that they are sent as; other messages
-- may come before the answer and after it.
module _ (env : Env) (codec : Codec) (uuid : String) (now : ℕ) (args : Value) (kwargs : Entries)
    (before after : List (Option RpcMessage)) (server : IsServer env)
    (read : IsRead env (refusal env uuid)) (has_uuid : truthy (Json.string uuid) ≡ true)
    (has_time : truthy (Json.number now) ≡ true)
    (others : All (λ (m : Option RpcMessage). addressed uuid m ≡ false) before) where
  abbrev pub heard : List (Option RpcMessage)
  heard = before ++ (from_json env (env.dumps (to_dict (refusal env uuid))) ∷ after)

  finish_refused :
      (reached : Bool) (method : String) (s : CloudSession)
      → (finish codec uuid
          (receive_all heard (begin codec reached uuid now method args kwargs s).1)).0
        ≡ Answer.runtime_error "Unknown method: exec.call"
  unfolding finish make_error get_field
  finish_refused reached method s =
      let called = (begin codec reached uuid now method args kwargs s).1 in
      let settled =
        receive_all-answer before after (refusal env uuid) uuid
          (Future.error "Unknown method: exec.call") called (unaddressed uuid before others)
          (rw has_uuid refl) refl refl (begin-At codec reached uuid now method args kwargs s) in
      ap
        (λ (m : Option RpcMessage).
          (finish codec uuid (receive_all (before ++ (m ∷ after)) called)).0)
        (from_json-dumps env (refusal env uuid) read (refusal-IsNormal env uuid server has_uuid))
      ∙ ground (arith, settled.1)

  begin_sent :
      (reached : Bool) (method : String) (s : CloudSession)
      → (connect reached s).socket ≡ Socket.open_socket
      → let (fine, s1) = begin codec reached uuid now method args kwargs s in
        (fine ≡ true)
        × (s1.sent
            ≡ s.sent ++ (call_message codec uuid now (connect reached s) method args kwargs ∷ []))
  unfolding begin
  begin_sent reached method s o =
      let c = connect reached s in
      let msg = call_message codec uuid now c method args kwargs in
      let waits = record c {
        pending = Dict.put c.pending uuid tt;
        futures = Dict.put c.futures uuid Future.waiting;
      } in
      (
        ap (λ (k : Socket). (send msg k waits).0) o,
        ap (λ (k : Socket). (send msg k waits).1.sent) o
            ∙ ap (λ (l : List RpcMessage). l ++ (msg ∷ [])) (connect_sent reached s),
      )

  -- On a connected session, a call of a public attribute of a proxy is sent under the name of the
  -- module and the attributes, joined by dots. The server, whose dispatcher has the handlers of the
  -- program only, answers that it knows no method exec.call, and this is what the call raises: no call
  -- through a proxy has a result.
  pub call_remote_refused :
      (reached : Bool) (session_id attr : String) (attrs : List String) (device_id : String) (w : ℕ)
      (h : Hub) (p : ProxyModule)
      → env.alive w ≡ true
      → starts_with_underscore attr ≡ false
      → p.submodules ≡ []
      → (connect reached (get_session session_id p).0).socket ≡ Socket.open_socket
      → IsRead env (
          call_message codec uuid now
            (connect reached (get_session session_id p).0)
            (join_dots p.name (attr ∷ attrs))
            args
            kwargs)
      → let (s, q) = get_session session_id p in
        let method = join_dots p.name (attr ∷ attrs) in
        let msg = call_message codec uuid now (connect reached s) method args kwargs in
        let s1 = (begin codec reached uuid now method args kwargs s).1 in
        (call_remote codec reached session_id uuid now attr attrs args kwargs p
          ≡ some (true, record q { session = some s1 }))
        × (s1.sent ≡ s.sent ++ (msg ∷ []))
        × ((Endpoint.receive env device_id w (env.dumps (to_dict msg)) h).sent
            ≡ h.sent ++ ((w, env.dumps (to_dict (refusal env uuid))) ∷ []))
        × ((finish codec uuid (receive_all heard s1)).0
            ≡ Answer.runtime_error "Unknown method: exec.call")
  call_remote_refused reached session_id attr attrs device_id w h p alive public none_in o
        sent_read =
      let (s, q) = get_session session_id p in
      let method = join_dots p.name (attr ∷ attrs) in
      let msg = call_message codec uuid now (connect reached s) method args kwargs in
      let sent = begin_sent reached method s o in
      let fields = call_fields codec uuid now (connect reached s) method args kwargs has_uuid in
      (
        call_remote_public codec reached session_id uuid now attr attrs args kwargs p public none_in
            ∙ ap
                (λ (fine : Bool). some (
                  fine,
                  record q { session = some (begin codec reached uuid now method args kwargs s).1 },
                ))
                sent.0,
        sent.1,
        receive_call env device_id w h msg uuid server alive sent_read
            (call-IsNormal codec uuid now (connect reached s) method args kwargs has_uuid has_time)
            fields.0 fields.1 fields.2,
        finish_refused reached method s,
      )
