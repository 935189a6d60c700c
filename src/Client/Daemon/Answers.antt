-- ===== src/Client/Daemon/Answers.antt =====
-- client/daemon.py: each call gets one answer.
use text.Mathlib.TextEquality.{eq_iff}
use cpip.Common.{
  ℕ, ◌+◌, ◌≤◌, ◌≡◌, refl, String, Option, none, some, List, [], ◌∷◌, ◌++◌, ◌==◌, if◌then◌else◌,
  arith, choose_some,
}
use cpip.Common.Dict
use cpip.Common.Dict.{Dict, get-put, get-remove}
use cpip.Shared.Json.{Json}
use cpip.Shared.Protocol.{RpcMessage}
use cpip.Client.Daemon.{Settled, Calls, rpc_call, recorded, settle, settle_message}

abbrev pub answers : String → List (String × Settled) → ℕ
answers id [] = 0
answers id ((j, v) ∷ rest) = (if j == id then 1 else 0) + answers id rest

abbrev pub waiting : Option (Unit {0}) → ℕ
waiting none = 0
waiting (some u) = 1

answers-append :
    (id : String) (xs ys : List (String × Settled))
    → answers id (xs ++ ys) ≡ answers id xs + answers id ys
answers-append id [] ys = omega arith
answers-append id ((j, v) ∷ xs) ys = omega (arith, answers-append id xs ys)

abbrev pub open_or_answered : String → Calls → ℕ
open_or_answered id c = answers id c.settled + waiting (Dict.get c.pending id)

answers-recorded :
    (id j : String) (v : Option Settled) (l : List (String × Settled))
    → answers id (recorded j v l) ≤ answers id l + (if j == id then 1 else 0)
answers-recorded id j none l = omega arith
answers-recorded id j (some v) l = omega (arith, answers-append id l ((j, v) ∷ []))

settle_keeps :
    (j : String) (v : Option Settled) (c : Calls) (id : String)
    → open_or_answered id (settle j v c) ≤ open_or_answered id c
unfolding settle
settle_keeps j v c id =
    choose_some (λ (c' : Calls). open_or_answered id c' ≤ open_or_answered id c)
      (Dict.get c.pending j) c
      (λ u. record { pending = Dict.remove c.pending j; settled = recorded j v c.settled })
      (λ e. omega arith)
      (λ u e.
        ground
          (arith, e, eq_iff j id, answers-recorded id j v c.settled, get-remove c.pending j id))

settle_message_keeps :
    (m : RpcMessage) (v : Option Settled) (c : Calls) (id : String)
    → open_or_answered id (settle_message m v c) ≤ open_or_answered id c
unfolding settle_message
settle_message_keeps m v c id = go m.id
  where
    go :
        (k : Json)
        → open_or_answered id (elim k as (λ _. Calls) [ Json.string j ↦ settle j v c | _ ↦ c ])
          ≤ open_or_answered id c
    go Json.null = omega arith
    go (Json.boolean b) = omega arith
    go (Json.number n) = omega arith
    go (Json.string j) = settle_keeps j v c id
    go (Json.array vs) = omega arith
    go (Json.object vs) = omega arith

-- The calls that are reached when every call has a new id.
pub data Run : Calls → Type 0 where
  started : Run (record { pending = []; settled = [] })
  asked : {c : Calls} (id : String) → open_or_answered id c ≡ 0 → Run c → Run (rpc_call id c)
  heard : {c : Calls} (m : RpcMessage) (v : Option Settled) → Run c → Run (settle_message m v c)

rpc_call_opens :
    (j : String) (c : Calls) (id : String)
    → open_or_answered j c ≡ 0
    → open_or_answered id (rpc_call j c) ≡ (if j == id then 1 else open_or_answered id c)
unfolding rpc_call
rpc_call_opens j c id f = ground (arith, f, eq_iff j id, get-put c.pending j id tt)

none_open : (id : String) → open_or_answered id (record { pending = []; settled = [] }) ≡ 0
unfolding Dict.get
none_open id = refl

-- A call with a new id is settled once at most, whatever messages come and how often: it waits and has
-- no answer, or it has one answer and waits no longer.
pub settled_once : (c : Calls) (id : String) → Run c → open_or_answered id c ≤ 1
settled_once _ id Run.started = omega (arith, none_open id)
settled_once _ id (Run.asked {c} j f r) =
    ground (arith, settled_once c id r, rpc_call_opens j c id f)
settled_once _ id (Run.heard {c} m v r) =
    omega (arith, settled_once c id r, settle_message_keeps m v c id)
