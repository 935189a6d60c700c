-- ===== src/Server/Ws/Hub/Sockets.antt =====
-- server/ws/hub.py: the sockets of the connections.
use mathlib.Core.Path.{subst}
use text.Mathlib.TextEquality.{eq_iff}
use cpip.Common.{
  ℕ, ◌≡◌, ◌≢◌, sym, inl, inr, String, Bool, false, ◌||◌, none, some, List, [], ◌∷◌, ◌++◌, arith,
  if◌then◌else◌, eqb, ◌==◌, choose_some, choose_if, Option-cases,
}
use cpip.Common.Dict
use cpip.Common.Dict.{Dict, get-put, get-remove}
use cpip.Server.Ws.Hub.{
  DeviceConnection, Hub, new_hub, new_connection, connect, disconnect, try_send, send_to_device,
  broadcast, broadcast_loop, stale, beat, beats, heartbeat_round, get_connection,
}
use cpip.Server.Ws.Hub.Heartbeats.{get_connection-disconnect}

abbrev pub is_closed : ℕ → List ℕ → Bool
is_closed w [] = false
is_closed w (v ∷ vs) = eqb v w || is_closed w vs

-- A socket that was not seen before.
abbrev pub Fresh : ℕ → Hub → Type 0
Fresh w h =
    (is_closed w h.closed ≡ false)
    × ((d : String) (c : DeviceConnection) → get_connection h d ≡ some c → c.websocket ≢ w)

-- The connected sockets are open, and each belongs to one device.
abbrev pub Sound : Hub → Type 0
Sound h =
    ((d : String) (c : DeviceConnection)
      → get_connection h d ≡ some c
      → is_closed c.websocket h.closed ≡ false)
    × ((d e : String) (c c' : DeviceConnection)
        → get_connection h d ≡ some c
        → get_connection h e ≡ some c'
        → c.websocket ≡ c'.websocket
        → d ≡ e)

is_closed-append :
    (w v : ℕ) (vs : List ℕ) → is_closed w (vs ++ v ∷ []) ≡ (is_closed w vs || eqb v w)
is_closed-append w v [] = ground arith
is_closed-append w v (u ∷ us) = ground (arith, is_closed-append w v us)

pub disconnect-closed :
    (d : String) (c : DeviceConnection) (h : Hub)
    → get_connection h d ≡ some c
    → (disconnect d h).closed ≡ h.closed ++ c.websocket ∷ []
unfolding disconnect
disconnect-closed d c h e = ground (arith, e)

disconnect_absent : (d : String) (h : Hub) → get_connection h d ≡ none → disconnect d h ≡ h
unfolding disconnect
disconnect_absent d h e = ground (arith, e)

disconnect-Sound : (d : String) (h : Hub) → Sound h → Sound (disconnect d h)
disconnect-Sound d h (live, apart) = elim (Option-cases (get_connection h d)) [
  | inl x ↦ subst Sound (sym (disconnect_absent d h x)) (live, apart)
  | inr (o, x) ↦ (
    λ e c k. ground (
      arith,
      k,
      x,
      get_connection-disconnect d e h,
      disconnect-closed d o h x,
      is_closed-append c.websocket o.websocket h.closed,
      live e c,
      apart d e o c x,
      eq_iff d e,
    ),
    λ e e' c c' k k' same. ground (
      arith,
      k,
      k',
      same,
      get_connection-disconnect d e h,
      get_connection-disconnect d e' h,
      apart e e' c c',
    ),
  )
]

pub get_connection-connect :
    (d e : String) (w now : ℕ) (h : Hub)
    → get_connection (connect d w now h) e
      ≡ (if d == e then some (new_connection d w now) else get_connection h e)
unfolding connect
get_connection-connect d e w now h = elim (Option-cases (Dict.get h.connections d)) [
  | inl x ↦ ground (arith, x, eq_iff d e, get-put h.connections d e (new_connection d w now))
  | inr (o, x) ↦ ground (arith, x, eq_iff d e, get-put h.connections d e (new_connection d w now))
]

pub connect-closed :
    (d : String) (w now : ℕ) (h : Hub)
    → (connect d w now h).closed
      ≡ elim (get_connection h d) [ none ↦ h.closed | some o ↦ h.closed ++ o.websocket ∷ [] ]
unfolding connect
connect-closed d w now h = elim (Option-cases (Dict.get h.connections d)) [
  | inl x ↦ ground (arith, x)
  | inr (o, x) ↦ ground (arith, x)
]

connect-live :
    (d : String) (w now : ℕ) (h : Hub)
    → Fresh w h
    → Sound h
    → (e : String) (c : DeviceConnection) → get_connection (connect d w now h) e ≡ some c
    → is_closed c.websocket (connect d w now h).closed ≡ false
connect-live d w now h (f, g) (live, apart) e c k = elim (Option-cases (get_connection h d)) [
  | inl x ↦
      ground
        (arith, k, x, f, get_connection-connect d e w now h, connect-closed d w now h, live e c)
  | inr (o, x) ↦ ground (
    arith,
    k,
    x,
    f,
    g d o x,
    get_connection-connect d e w now h,
    connect-closed d w now h,
    is_closed-append c.websocket o.websocket h.closed,
    live e c,
    apart d e o c x,
    eq_iff d e,
  )
]

connect-Sound : (d : String) (w now : ℕ) (h : Hub) → Fresh w h → Sound h → Sound (connect d w now h)
connect-Sound d w now h (f, g) (live, apart) = (
  connect-live d w now h (f, g) (live, apart),
  λ e e' c c' k k' same. ground (
    arith,
    k,
    k',
    same,
    g e c,
    g e' c',
    get_connection-connect d e w now h,
    get_connection-connect d e' w now h,
    apart e e' c c',
    eq_iff d e,
    eq_iff d e',
  ),
)

try_send-Sound :
    (alive : ℕ → Bool) (d : String) (w : ℕ) (message : String) (h : Hub)
    → Sound h
    → Sound (try_send alive d w message h).1
unfolding try_send
try_send-Sound alive d w message h s =
    choose_if (λ (r : Bool × Hub). Sound r.1) (alive w) _ _ s (disconnect-Sound d h s)

send_to_device-Sound :
    (alive : ℕ → Bool) (d message : String) (h : Hub)
    → Sound h
    → Sound (send_to_device alive d message h).1
unfolding send_to_device
send_to_device-Sound alive d message h s =
    choose_some (λ (r : Bool × Hub). Sound r.1) (Dict.get h.connections d) (false, h)
      (λ conn. try_send alive d conn.websocket message h) (λ x. s)
      (λ conn x. try_send-Sound alive d conn.websocket message h s)

beat-Sound :
    (alive : ℕ → Bool) (interval now : ℕ) (d : String) (h : Hub)
    → Sound h
    → Sound (beat alive interval now d h)
unfolding beat
beat-Sound alive interval now d h s =
    choose_some Sound (Dict.get h.connections d) h
      (λ conn.
        if stale interval now conn
        then disconnect d h
        else (try_send alive d conn.websocket "rpc.heartbeat" h).1)
      (λ x. s)
      (λ conn x.
        choose_if Sound (stale interval now conn) _ _ (disconnect-Sound d h s)
          (try_send-Sound alive d conn.websocket "rpc.heartbeat" h s))

beats-Sound :
    (alive : ℕ → Bool) (interval now : ℕ) (ds : List String) (h : Hub)
    → Sound h
    → Sound (beats alive interval now ds h)
unfolding beats
beats-Sound alive interval now [] h s = s
beats-Sound alive interval now (d ∷ ds) h s =
    beats-Sound alive interval now ds (beat alive interval now d h)
      (beat-Sound alive interval now d h s)

broadcast_loop-Sound :
    (alive : ℕ → Bool) (message : String) (ds : List String) (r : ℕ × Hub)
    → Sound r.1
    → Sound (broadcast_loop alive message ds r).1
unfolding broadcast_loop
broadcast_loop-Sound alive message [] r s = s
broadcast_loop-Sound alive message (d ∷ ds) (n, h) s =
    broadcast_loop-Sound alive message ds _ (send_to_device-Sound alive d message h s)

-- The hubs that the operations make of a new one, if each socket is connected once.
pub data Run : Hub → Type 0 where
  started : Run new_hub
  connected : {h : Hub} (d : String) (w now : ℕ) → Fresh w h → Run h → Run (connect d w now h)
  disconnected : {h : Hub} (d : String) → Run h → Run (disconnect d h)
  sent :
      {h : Hub} (alive : ℕ → Bool) (d message : String)
      → Run h
      → Run (send_to_device alive d message h).1
  broadcasted :
      {h : Hub} (alive : ℕ → Bool) (message : String) → Run h → Run (broadcast alive message h).1
  beaten :
      {h : Hub} (alive : ℕ → Bool) (interval now : ℕ)
      → Run h
      → Run (heartbeat_round alive interval now h)

new_hub-Sound : Sound new_hub
unfolding Dict.get
new_hub-Sound = (λ d c e. absurd (cc e), λ d e c c' k k' same. absurd (cc k))

-- Whatever the hub does with sockets that are each connected once, the socket of a connected device is
-- not one that the hub closed, and no two devices have one socket.
pub Run-Sound : (h : Hub) → Run h → Sound h
unfolding broadcast heartbeat_round
Run-Sound _ Run.started = new_hub-Sound
Run-Sound _ (Run.connected {h} d w now f r) = connect-Sound d w now h f (Run-Sound h r)
Run-Sound _ (Run.disconnected {h} d r) = disconnect-Sound d h (Run-Sound h r)
Run-Sound _ (Run.sent {h} alive d message r) =
    send_to_device-Sound alive d message h (Run-Sound h r)
Run-Sound _ (Run.broadcasted {h} alive message r) =
    broadcast_loop-Sound alive message (Dict.keys h.connections) (0, h) (Run-Sound h r)
Run-Sound _ (Run.beaten {h} alive interval now r) =
    beats-Sound alive interval now (Dict.keys h.connections) h (Run-Sound h r)
