-- ===== src/Server/Ws/Hub/Heartbeats.antt =====
-- server/ws/hub.py: what a round of heartbeats and a broadcast leave.
use text.Mathlib.TextEquality.{eq_iff}
use cpip.Common.{
  ℕ, ◌≡◌, refl, ◌⊎◌, inl, inr, String, Bool, true, false, not, ◌||◌, ◌&&◌, Option, none, some, List,
  [], ◌∷◌, arith, if◌then◌else◌, ◌==◌, Option-cases,
}
use cpip.Common.Dict
use cpip.Common.Dict.{Dict, get-remove}
use cpip.Server.Ws.Hub.{
  DeviceConnection, Hub, disconnect, try_send, stale, beat, beats, heartbeat_round, get_connection,
}

-- What is to become of a connection in a round.
abbrev pub kept : (ℕ → Bool) → ℕ → ℕ → DeviceConnection → Bool
kept alive interval now conn = not (stale interval now conn) && alive conn.websocket

abbrev pub filtered : (DeviceConnection → Bool) → Option DeviceConnection → Option DeviceConnection
filtered keep none = none
filtered keep (some conn) = if keep conn then some conn else none

pub get_connection-disconnect :
    (d e : String) (h : Hub)
    → get_connection (disconnect d h) e ≡ (if d == e then none else get_connection h e)
unfolding disconnect
get_connection-disconnect d e h = elim (Option-cases (Dict.get h.connections d)) [
  | inl x ↦ ground (arith, x, eq_iff d e)
  | inr (c, x) ↦ ground (arith, x, eq_iff d e, get-remove h.connections d e)
]

get_connection-beat :
    (alive : ℕ → Bool) (interval now : ℕ) (d e : String) (h : Hub)
    → get_connection (beat alive interval now d h) e ≡ (
        if d == e
        then filtered (kept alive interval now) (get_connection h e)
        else get_connection h e)
unfolding beat try_send
get_connection-beat alive interval now d e h = elim (Option-cases (Dict.get h.connections d)) [
  | inl x ↦ ground (arith, x, eq_iff d e)
  | inr (c, x) ↦ ground (arith, x, eq_iff d e, get_connection-disconnect d e h)
]

mentions : String → List String → Bool
mentions e [] = false
mentions e (d ∷ ds) = d == e || mentions e ds

filtered-filtered :
    (keep : DeviceConnection → Bool) (o : Option DeviceConnection)
    → filtered keep (filtered keep o) ≡ filtered keep o
filtered-filtered keep none = refl
filtered-filtered keep (some c) = ground arith

get_connection-beats :
    (alive : ℕ → Bool) (interval now : ℕ) (ds : List String) (e : String) (h : Hub)
    → get_connection (beats alive interval now ds h) e ≡ (
        if mentions e ds
        then filtered (kept alive interval now) (get_connection h e)
        else get_connection h e)
unfolding beats mentions
get_connection-beats alive interval now [] e h = refl
get_connection-beats alive interval now (d ∷ ds) e h = ground (
  arith,
  get_connection-beats alive interval now ds e (beat alive interval now d h),
  get_connection-beat alive interval now d e h,
  filtered-filtered (kept alive interval now) (get_connection h e),
)

-- A key that is in a dict is among its keys.
mentions-keys :
    {V : Type 0} (d : Dict V) (e : String)
    → (mentions e (Dict.keys d) ≡ true) ⊎ (Dict.get d e ≡ none)
unfolding mentions Dict.get
mentions-keys [] e = inr refl
mentions-keys ((k, v) ∷ d) e = ground (arith, mentions-keys d e)

-- After a round of heartbeats a device is connected, with the same connection, exactly if it was and
-- its last heartbeat is no older than three intervals and sending to it works.
pub get_connection-heartbeat_round :
    (alive : ℕ → Bool) (interval now : ℕ) (h : Hub) (e : String)
    → get_connection (heartbeat_round alive interval now h) e
      ≡ filtered (kept alive interval now) (get_connection h e)
unfolding heartbeat_round
get_connection-heartbeat_round alive interval now h e = ground (
  arith,
  get_connection-beats alive interval now (Dict.keys h.connections) e h,
  mentions-keys h.connections e,
)
