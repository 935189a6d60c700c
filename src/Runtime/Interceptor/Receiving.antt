-- ===== src/Runtime/Interceptor/Receiving.antt =====
-- runtime/interceptor.py: what messages do to a call that waits, and to one that is settled.
use mathlib.Core.Path.{subst}
use cpip.Common.{
  ℕ, ◌≡◌, refl, sym, inl, inr, Bool-cases, Option-cases, String, Bool, true, false, Option, some,
  none, ◌&&◌, List, [], ◌∷◌, ◌++◌, ◌==◌, arith, eq_iff, eq_refl, All, choose_some,
}
use cpip.Common.Dict
use cpip.Common.Dict.{get-put, get-remove}
use cpip.Shared.Json.{Json}
use cpip.Shared.Protocol.{RpcMessage, MessageType}
use cpip.Runtime.Serialization.Values.{Value, Entries, Codec}
use cpip.Runtime.Interceptor.{
  Future, CloudSession, connect, begin, outcome, is_answer, answered, receive, receive_all,
}

abbrev is_text : String → Json → Bool
is_text s (Json.string t) = t == s
is_text s _ = false

-- Whether a text of the server is a message with the id of a call.
abbrev pub addressed : String → Option RpcMessage → Bool
addressed id none = false
addressed id (some msg) = is_text id msg.id

-- A call is answered by a result or an error, and by no other message.
abbrev settles : MessageType → Bool
settles MessageType.result = true
settles MessageType.error = true
settles _ = false

is_answer-settles : (t : MessageType) → is_answer t ≡ settles t
is_answer-settles MessageType.call = refl
is_answer-settles MessageType.result = refl
is_answer-settles MessageType.error = refl
is_answer-settles MessageType.stream_start = refl
is_answer-settles MessageType.stream_chunk = refl
is_answer-settles MessageType.stream_end = refl
is_answer-settles MessageType.heartbeat = refl
is_answer-settles MessageType.heartbeat_ack = refl
is_answer-settles MessageType.session_init = refl
is_answer-settles MessageType.session_ack = refl
is_answer-settles MessageType.session_end = refl
is_answer-settles MessageType.notify = refl
is_answer-settles MessageType.log = refl
is_answer-settles MessageType.progress = refl

-- Whether a text is an answer to a call: the first message of a stream has the id of its call too, and
-- is none.
abbrev pub answers : String → Option RpcMessage → Bool
answers id none = false
answers id (some msg) = is_text id msg.id && settles msg.type

pub unaddressed :
    (id : String) (ms : List (Option RpcMessage))
    → All (λ (m : Option RpcMessage). addressed id m ≡ false) ms
    → All (λ (m : Option RpcMessage). answers id m ≡ false) ms
unaddressed id [] n = tt
unaddressed id (none ∷ ms) n = (refl, unaddressed id ms n.1)
unaddressed id (some msg ∷ ms) n = (ground (arith, n.0), unaddressed id ms n.1)

-- What a session holds of a call.
abbrev At : CloudSession → String → Option (Unit {0}) → Option Future → Type 0
At s id p f = (Dict.get s.pending id ≡ p) × (Dict.get s.futures id ≡ f)

answered-other :
    (msg : RpcMessage) (id j : String) (p : Option (Unit {0})) (old : Option Future)
    (s : CloudSession)
    → (j == id) ≡ false
    → At s id p old
    → At (answered msg j s) id p old
answered-other msg id j p old s n a = elim (Option-cases (outcome msg)) [
  | inl e ↦ ground (arith, n, a, e, get-remove s.pending j id)
  | inr (f, e) ↦ ground (arith, n, a, e, get-remove s.pending j id, get-put s.futures j id f)
]

-- A message that is not addressed to a call leaves it alone.
receive-other :
    (m : Option RpcMessage) (id : String) (p : Option (Unit {0})) (old : Option Future)
    (s : CloudSession)
    → addressed id m ≡ false
    → At s id p old
    → At (receive m s) id p old
unfolding receive
receive-other none id p old s n a = a
receive-other (some msg) id p old s n a = go msg.id n
  where
    go :
        (j : Json)
        → is_text id j ≡ false
        → At
            (elim j [
              | Json.string k ↦ elim (Dict.get s.pending k) [ none ↦ s | some _ ↦ answered msg k s ]
              | _ ↦ s
            ])
            id
            p
            old
    go Json.null n = a
    go (Json.boolean b) n = a
    go (Json.number k) n = a
    go (Json.array vs) n = a
    go (Json.object vs) n = a
    go (Json.string k) n =
        choose_some (λ (t : CloudSession). At t id p old) (Dict.get s.pending k) s
          (λ _. answered msg k s) (λ _. a) (λ _ _. answered-other msg id k p old s n a)

-- A message of another type changes nothing, whatever its id.
receive-silent :
    (msg : RpcMessage) (s : CloudSession) → is_answer msg.type ≡ false → receive (some msg) s ≡ s
unfolding receive
receive-silent msg s n = go msg.id
  where
    go :
        (j : Json)
        → (elim j [
          | Json.string k ↦ elim (Dict.get s.pending k) [ none ↦ s | some _ ↦ answered msg k s ]
          | _ ↦ s
        ])
          ≡ s
    go Json.null = refl
    go (Json.boolean b) = refl
    go (Json.number k) = refl
    go (Json.array vs) = refl
    go (Json.object vs) = refl
    go (Json.string k) = ground (arith, n)

receive-no_answer :
    (m : Option RpcMessage) (id : String) (p : Option (Unit {0})) (old : Option Future)
    (s : CloudSession)
    → answers id m ≡ false
    → At s id p old
    → At (receive m s) id p old
receive-no_answer none id p old s n a = receive-other none id p old s n a
receive-no_answer (some msg) id p old s n a = elim (Bool-cases (is_answer msg.type)) [
  | inl t ↦ receive-other (some msg) id p old s (ground (arith, t, n, is_answer-settles msg.type)) a
  | inr t ↦ subst (λ (t : CloudSession). At t id p old) (sym (receive-silent msg s t)) a
]

pub receive_all-other :
    (ms : List (Option RpcMessage)) (id : String) (p : Option (Unit {0})) (old : Option Future)
    (s : CloudSession)
    → All (λ (m : Option RpcMessage). answers id m ≡ false) ms
    → At s id p old
    → At (receive_all ms s) id p old
receive_all-other [] id p old s n a = a
receive_all-other (m ∷ ms) id p old s n a =
    receive_all-other ms id p old (receive m s) n.1 (receive-no_answer m id p old s n.0 a)

-- The first answer settles the call.
receive-answer :
    (msg : RpcMessage) (id : String) (f : Future) (s : CloudSession)
    → msg.id ≡ Json.string id
    → is_answer msg.type ≡ true
    → outcome msg ≡ some f
    → At s id (some tt) (some Future.waiting)
    → At (receive (some msg) s) id none (some f)
unfolding receive
receive-answer msg id f s e t o a =
    ground (arith, e, t, o, a, eq_refl id, get-remove s.pending id id, get-put s.futures id id f)

-- A message to a call that does not wait is passed over.
receive-passed :
    (m : Option RpcMessage) (id : String) (s : CloudSession)
    → addressed id m ≡ true
    → Dict.get s.pending id ≡ none
    → receive m s ≡ s
unfolding receive
receive-passed none id s n p = refl
receive-passed (some msg) id s n p = go msg.id n
  where
    go :
        (j : Json)
        → is_text id j ≡ true
        → (elim j [
          | Json.string k ↦ elim (Dict.get s.pending k) [ none ↦ s | some _ ↦ answered msg k s ]
          | _ ↦ s
        ])
          ≡ s
    go Json.null n = refl
    go (Json.boolean b) n = refl
    go (Json.number k) n = refl
    go (Json.array vs) n = refl
    go (Json.object vs) n = refl
    go (Json.string k) n = ground (arith, eq_iff k id, n, p)

receive-settled :
    (m : Option RpcMessage) (id : String) (f : Future) (s : CloudSession)
    → At s id none (some f)
    → At (receive m s) id none (some f)
receive-settled m id f s a = elim (Bool-cases (addressed id m)) [
  | inr n ↦ receive-other m id none (some f) s n a
  | inl n ↦
      subst (λ (t : CloudSession). At t id none (some f)) (sym (receive-passed m id s n a.0)) a
]

receive_all-settled :
    (ms : List (Option RpcMessage)) (id : String) (f : Future) (s : CloudSession)
    → At s id none (some f)
    → At (receive_all ms s) id none (some f)
receive_all-settled [] id f s a = a
receive_all-settled (m ∷ ms) id f s a =
    receive_all-settled ms id f (receive m s) (receive-settled m id f s a)

pub receive_all-answer :
    (before after : List (Option RpcMessage)) (msg : RpcMessage) (id : String) (f : Future)
    (s : CloudSession)
    → All (λ (m : Option RpcMessage). answers id m ≡ false) before
    → msg.id ≡ Json.string id
    → is_answer msg.type ≡ true
    → outcome msg ≡ some f
    → At s id (some tt) (some Future.waiting)
    → At (receive_all (before ++ (some msg ∷ after)) s) id none (some f)
receive_all-answer [] after msg id f s n e t o a =
    receive_all-settled after id f (receive (some msg) s) (receive-answer msg id f s e t o a)
receive_all-answer (m ∷ before) after msg id f s n e t o a =
    receive_all-answer before after msg id f (receive m s) n.1 e t o
      (receive-no_answer m id (some tt) (some Future.waiting) s n.0 a)

pub begin-At :
    (codec : Codec) (reached : Bool) (uuid : String) (now : ℕ) (method : String) (args : Value)
    (kwargs : Entries) (s : CloudSession)
    → At (begin codec reached uuid now method args kwargs s).1 uuid (some tt) (some Future.waiting)
unfolding begin
begin-At codec reached uuid now method args kwargs s =
    let c = connect reached s in
    ground (
      arith,
      eq_refl uuid,
      get-put c.pending uuid uuid tt,
      get-put c.futures uuid uuid Future.waiting,
    )
