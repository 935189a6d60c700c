-- ===== src/Server/Ws/Endpoint/Replies.antt =====
-- server/app.py: what the endpoint sends, and whom a text concerns.
use cpip.Common.{
  ℕ, ◌≡◌, refl, sym, ◌∙◌, ap, inl, inr, String, true, false, Option, none, some, List, [], ◌∷◌,
  ◌++◌, ◌==◌, arith, Option-cases,
}
use mathlib.Core.List.{append_assoc, append-nil}
use cpip.Common.Dict
use cpip.Common.Dict.{Dict, get-put}
use cpip.Shared.Json.{Json, truthy}
use cpip.Shared.Protocol.{MessageType, RpcMessage, to_dict, make_result, make_error, or_else}
use cpip.Server.Ws.Hub.{DeviceConnection, Hub}
use cpip.Server.Ws.Rpc.{Handled, Handlers, Context, dispatch, lookup, answer, respond}
use cpip.Server.Ws.Endpoint.{Env, from_json, send, update_conn, session_ack, on_message, receive}

-- The message that is sent back for one, if any is.
abbrev pub reply : Env → String → RpcMessage → MessageType → Option RpcMessage
reply env device_id msg MessageType.session_init = some (session_ack env device_id)
reply env device_id msg MessageType.call = dispatch env.handlers env.context msg
reply env device_id msg _ = none

abbrev pub reply_to : Env → String → String → Option RpcMessage
reply_to env device_id raw = elim (from_json env raw) [
  | none ↦ none
  | some msg ↦ reply env device_id msg msg.type
]

abbrev pub texts : Env → ℕ → Option RpcMessage → List (ℕ × String)
texts env w none = []
texts env w (some msg) = (w, env.dumps (to_dict msg)) ∷ []

abbrev pub all_texts : Env → String → ℕ → List String → List (ℕ × String)
all_texts env device_id w [] = []
all_texts env device_id w (raw ∷ raws) =
    texts env w (reply_to env device_id raw) ++ all_texts env device_id w raws

abbrev pub receive_all : Env → String → ℕ → List String → Hub → Hub
receive_all env device_id w [] h = h
receive_all env device_id w (raw ∷ raws) h =
    receive_all env device_id w raws (receive env device_id w raw h)

update_conn-sent :
    (d : String) (w : ℕ) (f : DeviceConnection → DeviceConnection) (h : Hub)
    → (update_conn d w f h).sent ≡ h.sent
unfolding update_conn
update_conn-sent d w f h = ground arith

send-sent :
    (env : Env) (w : ℕ) (msg : RpcMessage) (h : Hub)
    → env.alive w ≡ true
    → (send env w msg h).sent ≡ h.sent ++ texts env w (some msg)
unfolding send
send-sent env w msg h a = ground (arith, a)

on_message-sent :
    (env : Env) (d : String) (w : ℕ) (msg : RpcMessage) (t : MessageType) (h : Hub)
    → env.alive w ≡ true
    → (on_message env d w msg t h).sent ≡ h.sent ++ texts env w (reply env d msg t)
unfolding on_message
on_message-sent env d w msg MessageType.session_init h a =
    send-sent env w (session_ack env d) _ a
    ∙ ap (λ (l : List (ℕ × String)). l ++ texts env w (some (session_ack env d)))
        (update_conn-sent d w _ h)
on_message-sent env d w msg MessageType.heartbeat_ack h a =
    update_conn-sent d w _ h ∙ sym (append-nil h.sent)
on_message-sent env d w msg MessageType.call h a =
    elim (Option-cases (dispatch env.handlers env.context msg)) [
      | inl e ↦ ground (arith, e, append-nil h.sent)
      | inr (r, e) ↦ ground (arith, e, send-sent env w r h a)
    ]
on_message-sent env d w msg MessageType.result h a = sym (append-nil h.sent)
on_message-sent env d w msg MessageType.error h a = sym (append-nil h.sent)
on_message-sent env d w msg MessageType.stream_start h a = sym (append-nil h.sent)
on_message-sent env d w msg MessageType.stream_chunk h a = sym (append-nil h.sent)
on_message-sent env d w msg MessageType.stream_end h a = sym (append-nil h.sent)
on_message-sent env d w msg MessageType.heartbeat h a = sym (append-nil h.sent)
on_message-sent env d w msg MessageType.session_ack h a = sym (append-nil h.sent)
on_message-sent env d w msg MessageType.session_end h a = sym (append-nil h.sent)
on_message-sent env d w msg MessageType.notify h a = sym (append-nil h.sent)
on_message-sent env d w msg MessageType.log h a = sym (append-nil h.sent)
on_message-sent env d w msg MessageType.progress h a = sym (append-nil h.sent)

receive-sent :
    (env : Env) (d : String) (w : ℕ) (raw : String) (h : Hub)
    → env.alive w ≡ true
    → (receive env d w raw h).sent ≡ h.sent ++ texts env w (reply_to env d raw)
unfolding receive
receive-sent env d w raw h a = elim (Option-cases (from_json env raw)) [
  | inl e ↦ ground (arith, e, append-nil h.sent)
  | inr (msg, e) ↦ ground (arith, e, on_message-sent env d w msg msg.type h a)
]

-- On a socket that can be sent to, the endpoint answers the texts in their order: a call that can be
-- dispatched by its response, a session's beginning by an acknowledgement, and all else by nothing.
pub receive_all_sent :
    (env : Env) (d : String) (w : ℕ) (raws : List String) (h : Hub)
    → env.alive w ≡ true
    → (receive_all env d w raws h).sent ≡ h.sent ++ all_texts env d w raws
receive_all_sent env d w [] h a = sym (append-nil h.sent)
receive_all_sent env d w (raw ∷ raws) h a =
    receive_all_sent env d w raws (receive env d w raw h) a
    ∙ ap (λ (l : List (ℕ × String)). l ++ all_texts env d w raws) (receive-sent env d w raw h a)
    ∙ append_assoc h.sent (texts env w (reply_to env d raw)) (all_texts env d w raws)

-- A response has the call's id and holds the value of the handler, or it is an error if there is no
-- handler or that raises.
abbrev pub Reports : RpcMessage → RpcMessage → Handled → Type 0
Reports msg r (Handled.returned v) = (r.type ≡ MessageType.result) × (r.result ≡ v)
Reports msg r (Handled.raised message traceback) = r.type ≡ MessageType.error

abbrev pub Answers : RpcMessage → RpcMessage → Option (Json → Handled) → Type 0
Answers msg r none = (r.id ≡ msg.id) × (r.type ≡ MessageType.error)
Answers msg r (some handler) = (r.id ≡ msg.id) × Reports msg r (handler msg.params)

answer-Reports :
    (c : Context) (msg : RpcMessage) (o : Handled)
    → truthy msg.id ≡ true
    → ((answer c msg o).id ≡ msg.id) × Reports msg (answer c msg o) o
unfolding make_result make_error
answer-Reports c msg (Handled.returned v) i = (ground (arith, i), (refl, refl))
answer-Reports c msg (Handled.raised message traceback) i = (ground (arith, i), refl)

respond-Answers :
    (c : Context) (msg : RpcMessage) (method : Json) (found : Option (Json → Handled))
    → truthy msg.id ≡ true
    → Answers msg (respond c msg method found) found
unfolding respond make_error
respond-Answers c msg method none i = (ground (arith, i), refl)
respond-Answers c msg method (some handler) i = answer-Reports c msg (handler msg.params) i

string_or_else :
    (s : String) → (s == "") ≡ false → or_else (Json.string s) (Json.string "") ≡ Json.string s
string_or_else s n = ground (arith, n)

dispatch-respond :
    (handlers : Handlers) (c : Context) (msg : RpcMessage) (method : String)
    → msg.method ≡ Json.string method
    → (method == "") ≡ false
    → dispatch handlers c msg ≡ some (respond c msg (Json.string method) (Dict.get handlers method))
unfolding dispatch
dispatch-respond handlers c msg method e n =
    ap
      (λ (v : Json). elim (lookup handlers v) [
        | none ↦ none
        | some found ↦ some (respond c msg v found)
      ])
      (ap (λ (v : Json). or_else v (Json.string "")) e ∙ string_or_else method n)

-- A call of a method is answered under its own id: with the value of the handler that the method
-- names, or with an error if no handler has the name or the handler raises.
pub dispatch-Answers :
    (handlers : Handlers) (c : Context) (msg : RpcMessage) (method : String)
    → msg.method ≡ Json.string method
    → truthy msg.id ≡ true
    → (method == "") ≡ false
    → (r : RpcMessage) × (dispatch handlers c msg ≡ some r)
      × Answers msg r (Dict.get handlers method)
dispatch-Answers handlers c msg method e i n = (
  respond c msg (Json.string method) (Dict.get handlers method),
  dispatch-respond handlers c msg method e n,
  respond-Answers c msg (Json.string method) (Dict.get handlers method) i,
)
