-- ===== src/Client/Daemon/Reconnecting.antt =====
-- client/daemon.py: the delays between connections.
use cpip.Common.{ℕ, ◌≤◌, Option, none, some, List, [], ◌∷◌, arith, All}
use cpip.Client.Daemon.{Connection, connection_round, connection_loop, base_delay, max_delay}

-- A sleep between the least and the greatest delay, or none.
abbrev pub InBounds : Option ℕ → Type 0
InBounds none = Unit
InBounds (some d) = (base_delay ≤ d) × (d ≤ max_delay)

round_lem :
    (c : Connection) (delay : ℕ)
    → base_delay ≤ delay
    → delay ≤ max_delay
    → InBounds (connection_round c delay).0
      × (base_delay ≤ (connection_round c delay).1)
      × ((connection_round c delay).1 ≤ max_delay)
unfolding connection_round
round_lem Connection.refused delay h k = ((h, k), omega arith, omega arith)
round_lem Connection.broken delay h k = ((omega arith, omega arith), omega arith, omega arith)
round_lem Connection.closed delay h k = (tt, omega arith, omega arith)

-- Whatever happens to its connections, the daemon sleeps between one second and a minute whenever it
-- sleeps before it connects again.
pub connection_loop-InBounds :
    (cs : List Connection) (delay : ℕ)
    → base_delay ≤ delay
    → delay ≤ max_delay
    → All InBounds (connection_loop cs delay)
unfolding connection_loop
connection_loop-InBounds [] delay h k = tt
connection_loop-InBounds (c ∷ cs) delay h k = (
  (round_lem c delay h k).0,
  connection_loop-InBounds cs (connection_round c delay).1 (round_lem c delay h k).1
      (round_lem c delay h k).2,
)
