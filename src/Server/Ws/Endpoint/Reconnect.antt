-- ===== src/Server/Ws/Endpoint/Reconnect.antt =====
-- server/app.py: a device that connects again, and who is let in.
use text.Mathlib.TextEquality.{eq_iff}
use cpip.Common.{
  ℕ, ◌≡◌, ◌≢◌, refl, ◌∙◌, ap, inl, inr, String, true, false, Option, none, some, List, [], ◌∷◌,
  ◌++◌, ◌==◌, eq_refl, if◌then◌else◌, arith, Option-cases, choose_some,
}
use cpip.Common.Dict
use cpip.Common.Dict.{get-put}
use cpip.Shared.Protocol.{MessageType, RpcMessage}
use cpip.Server.Ws.Rpc.{dispatch}
use cpip.Server.Ws.Hub.{DeviceConnection, Hub, connect, get_connection, new_connection}
use cpip.Server.Ws.Hub.Heartbeats.{get_connection-disconnect}
use cpip.Server.Ws.Hub.Sockets.{get_connection-connect, disconnect-closed, connect-closed}
use cpip.Server.Ws.Endpoint.{
  Env, Event, from_json, step, run, receive, on_message, update_conn, send, User, user_of,
  user_of_token,
}

-- When a device connects again while its old connection is there, the end of the old socket's task
-- disconnects it: the device is then not connected, and its new socket is closed like the old one.
pub reconnect_lost :
    (env : Env) (h : Hub) (d : String) (old : DeviceConnection) (w now : ℕ)
    → get_connection h d ≡ some old
    → (get_connection (run env (Event.opened d w now ∷ Event.ended d ∷ []) h) d ≡ none)
      × ((run env (Event.opened d w now ∷ Event.ended d ∷ []) h).closed
          ≡ (h.closed ++ old.websocket ∷ []) ++ w ∷ [])
unfolding run step
reconnect_lost env h d old w now e = (
  ground (arith, eq_refl d, get_connection-disconnect d d (connect d w now h)),
  disconnect-closed d (new_connection d w now) (connect d w now h)
        (get_connection-connect d d w now h ∙ ground (arith, eq_refl d))
      ∙ ap (λ (l : List ℕ). l ++ w ∷ [])
          (connect-closed d w now h
            ∙ ap
                (λ (o : Option DeviceConnection). elim o [
                  | none ↦ h.closed
                  | some c ↦ h.closed ++ c.websocket ∷ []
                ])
                e),
)

update_conn-other :
    (d e : String) (w : ℕ) (f : DeviceConnection → DeviceConnection) (h : Hub)
    (c : DeviceConnection)
    → get_connection h e ≡ some c
    → c.websocket ≢ w
    → get_connection (update_conn d w f h) e ≡ some c
unfolding update_conn
update_conn-other d e w f h c k n = elim (Option-cases (Dict.get h.connections d)) [
  | inl x ↦ ground (arith, x, k)
  | inr (o, x) ↦ ground (arith, x, k, n, eq_iff d e, get-put h.connections d e (f o))
]

send-keeps :
    (env : Env) (w : ℕ) (msg : RpcMessage) (e : String) (h : Hub)
    → get_connection (send env w msg h) e ≡ get_connection h e
unfolding send
send-keeps env w msg e h = ground arith

on_message-other :
    (env : Env) (d e : String) (w : ℕ) (msg : RpcMessage) (t : MessageType) (h : Hub)
    (c : DeviceConnection)
    → get_connection h e ≡ some c
    → c.websocket ≢ w
    → get_connection (on_message env d w msg t h) e ≡ some c
unfolding on_message
on_message-other env d e w msg MessageType.session_init h c k n =
    send-keeps env w _ e _ ∙ update_conn-other d e w _ h c k n
on_message-other env d e w msg MessageType.heartbeat_ack h c k n = update_conn-other d e w _ h c k n
on_message-other env d e w msg MessageType.call h c k n =
    choose_some (λ (h' : Hub). get_connection h' e ≡ some c) (dispatch env.handlers env.context msg)
      h (λ response. send env w response h) (λ x. k)
      (λ response x. send-keeps env w response e h ∙ k)
on_message-other env d e w msg MessageType.result h c k n = k
on_message-other env d e w msg MessageType.error h c k n = k
on_message-other env d e w msg MessageType.stream_start h c k n = k
on_message-other env d e w msg MessageType.stream_chunk h c k n = k
on_message-other env d e w msg MessageType.stream_end h c k n = k
on_message-other env d e w msg MessageType.heartbeat h c k n = k
on_message-other env d e w msg MessageType.session_ack h c k n = k
on_message-other env d e w msg MessageType.session_end h c k n = k
on_message-other env d e w msg MessageType.notify h c k n = k
on_message-other env d e w msg MessageType.log h c k n = k
on_message-other env d e w msg MessageType.progress h c k n = k

-- A text on a socket, as an acknowledgement of a heartbeat, changes no connection that has another
-- socket, also not one of the same device.
pub receive_other :
    (env : Env) (d e : String) (w : ℕ) (raw : String) (h : Hub) (c : DeviceConnection)
    → get_connection h e ≡ some c
    → c.websocket ≢ w
    → get_connection (receive env d w raw h) e ≡ some c
unfolding receive
receive_other env d e w raw h c k n =
    choose_some (λ (h' : Hub). get_connection h' e ≡ some c) (from_json env raw) h
      (λ msg. on_message env d w msg msg.type h) (λ x. k)
      (λ msg x. on_message-other env d e w msg msg.type h c k n)

-- The user of a token that is there and not empty.
abbrev pub authenticated : (String → Option User) → Option String → Option User
authenticated decode_token none = none
authenticated decode_token (some t) = if t == "" then none else decode_token t

-- Without the debug setting a socket is let in exactly with a token, not empty, that is decoded to a
-- user; with it, every socket is let in.
pub user_of_lem :
    (decode_token : String → Option User) (token : Option String)
    → (user_of false decode_token token ≡ authenticated decode_token token)
      × ((u : User) × (user_of true decode_token token ≡ some u))
unfolding user_of
user_of_lem decode_token none = (refl, (some "local", refl))
user_of_lem decode_token (some t) = (
  ground arith,
  elim (Option-cases (user_of_token true decode_token (some t))) [
    | inl e ↦ (some "local", ground (arith, e))
    | inr (u, e) ↦ (u, ground (arith, e))
  ],
)
