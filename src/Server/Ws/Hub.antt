-- ===== src/Server/Ws/Hub.antt =====
-- server/ws/hub.py: the connections of devices. A WebSocket is a number, its identity. The world keeps
-- which sockets were closed and what was sent. Whether `send_text` on a socket raises is a parameter,
-- for the time of the call; `close` may raise or not, which the code ignores. Readings of the clock
-- are arguments. Each operation runs as one step, since the lock is held over what it changes.
pub mod Sockets
pub mod Heartbeats
use cpip.Common.{
  ℕ, ◌+◌, ◌-◌, ◌*◌, String, Bool, true, false, not, ◌||◌, Option, none, some, List, [], ◌∷◌, ◌++◌,
  ltb, eqb, length, map, if◌then◌else◌, seconds,
}
use cpip.Common.Dict
use cpip.Common.Dict.{Dict}
use cpip.Shared.Json.{Json, empty}

pub record DeviceConnection : Type 0 where
  pub device_id : String
  pub websocket : ℕ
  pub connected_at : ℕ
  pub last_heartbeat : ℕ
  pub metadata : Json

-- The connections of the hub, the sockets that it closed and the texts that it sent on sockets.
pub record Hub : Type 0 where
  pub connections : Dict DeviceConnection
  pub closed : List ℕ
  pub sent : List (ℕ × String)

abbrev pub new_hub : Hub
new_hub = record { connections = []; closed = []; sent = [] }

abbrev pub close : ℕ → Hub → Hub
close websocket h = record h { closed = h.closed ++ websocket ∷ [] }

abbrev pub new_connection : String → ℕ → ℕ → DeviceConnection
new_connection device_id websocket now = record {
  device_id = device_id;
  websocket = websocket;
  connected_at = now;
  last_heartbeat = now;
  metadata = empty;
}

-- `connect` without metadata, as the endpoint calls it.
unfoldable pub connect : String → ℕ → ℕ → Hub → Hub
connect device_id websocket now h =
    let put = λ (h' : Hub). record h' {
      connections = Dict.put h'.connections device_id (new_connection device_id websocket now);
    } in
    elim (Dict.get h.connections device_id) [
      | none ↦ put h
      | some old ↦ put (close old.websocket h)
    ]

unfoldable pub disconnect : String → Hub → Hub
disconnect device_id h = elim (Dict.get h.connections device_id) [
  | none ↦ h
  | some conn ↦
      close conn.websocket (record h { connections = Dict.remove h.connections device_id })
]

-- `send_text` on the socket of a device, and the disconnection where it raises.
unfoldable pub try_send : (ℕ → Bool) → String → ℕ → String → Hub → Bool × Hub
try_send alive device_id websocket message h =
    if alive websocket
    then (true, record h { sent = h.sent ++ (websocket, message) ∷ [] })
    else (false, disconnect device_id h)

unfoldable pub send_to_device : (ℕ → Bool) → String → String → Hub → Bool × Hub
send_to_device alive device_id message h = elim (Dict.get h.connections device_id) [
  | none ↦ (false, h)
  | some conn ↦ try_send alive device_id conn.websocket message h
]

unfoldable pub broadcast_loop : (ℕ → Bool) → String → List String → ℕ × Hub → ℕ × Hub
broadcast_loop alive message [] s = s
broadcast_loop alive message (device_id ∷ ids) (sent, h) =
    let r = send_to_device alive device_id message h in
    broadcast_loop alive message ids (if r.0 then sent + 1 else sent, r.1)

unfoldable pub broadcast : (ℕ → Bool) → String → Hub → ℕ × Hub
broadcast alive message h = broadcast_loop alive message (Dict.keys h.connections) (0, h)

abbrev pub get_connection : Hub → String → Option DeviceConnection
get_connection h device_id = Dict.get h.connections device_id

abbrev pub connected_count : Hub → ℕ
connected_count h = length h.connections

abbrev pub list_devices : Hub → List String
list_devices h = Dict.keys h.connections

-- `now - conn.last_heartbeat > interval * 3`; a last heartbeat after `now` counts as none ago.
abbrev pub stale : ℕ → ℕ → DeviceConnection → Bool
stale interval now conn = ltb (seconds (interval * 3)) (now - conn.last_heartbeat)

-- One device of a round of `heartbeat_loop`; the texts of heartbeats are not told apart.
unfoldable pub beat : (ℕ → Bool) → ℕ → ℕ → String → Hub → Hub
beat alive interval now device_id h = elim (Dict.get h.connections device_id) [
  | none ↦ h
  | some conn ↦
      if stale interval now conn
      then disconnect device_id h
      else (try_send alive device_id conn.websocket "rpc.heartbeat" h).1
]

unfoldable pub beats : (ℕ → Bool) → ℕ → ℕ → List String → Hub → Hub
beats alive interval now [] h = h
beats alive interval now (device_id ∷ ids) h =
    beats alive interval now ids (beat alive interval now device_id h)

-- A round of `heartbeat_loop`, after its sleep.
unfoldable pub heartbeat_round : (ℕ → Bool) → ℕ → ℕ → Hub → Hub
heartbeat_round alive interval now h = beats alive interval now (Dict.keys h.connections) h
