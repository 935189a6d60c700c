-- ===== src/Shared/Protocol/RoundTrip.antt =====
-- shared/protocol.py: a message is read back as it was written.
use cpip.Common.{
  ℕ, ◌≡◌, refl, ◌∙◌, ap, ◌⊎◌, inl, inr, Bool-cases, String, Bool, true, not, ◌&&◌, Option, none,
  some, ◌==◌, if◌then◌else◌, arith,
}
use cpip.Common.Dict
use cpip.Common.Dict.{Dict, get-put}
use cpip.Shared.Json.{Json, truthy, is_null, empty}
use cpip.Shared.Protocol.{
  MessageType, value, with_value, to_type, RpcMessage, or_else, to_dict, from_dict, new_message,
  add_field, field, header, with_method, with_params, with_result, with_error, type_field,
}

to_type-value : (t : MessageType) → to_type (Json.string (value t)) ≡ some t
unfolding to_type with_value value
to_type-value MessageType.call = refl
to_type-value MessageType.result = refl
to_type-value MessageType.error = refl
to_type-value MessageType.stream_start = refl
to_type-value MessageType.stream_chunk = refl
to_type-value MessageType.stream_end = refl
to_type-value MessageType.heartbeat = refl
to_type-value MessageType.heartbeat_ack = refl
to_type-value MessageType.session_init = refl
to_type-value MessageType.session_ack = refl
to_type-value MessageType.session_end = refl
to_type-value MessageType.notify = refl
to_type-value MessageType.log = refl
to_type-value MessageType.progress = refl

-- What the constructor and the helpers make: an id and a time that are there, no empty method or
-- error, and empty params and metadata only as the empty dict.
abbrev pub IsNormal : RpcMessage → Type 0
IsNormal m =
    (truthy m.id ≡ true)
    × (truthy m.timestamp ≡ true)
    × ((truthy m.method ≡ true) ⊎ (m.method ≡ Json.null))
    × ((truthy m.params ≡ true) ⊎ (m.params ≡ empty))
    × ((truthy m.error ≡ true) ⊎ (m.error ≡ Json.null))
    × ((truthy m.metadata ≡ true) ⊎ (m.metadata ≡ empty))

get-add_field :
    (present : Bool) (k j : String) (v : Json) (d : Dict Json)
    → Dict.get (add_field present k v d) j ≡ (if present && k == j then some v else Dict.get d j)
get-add_field present k j v d = ground (arith, get-put d k j v)

get-with_params :
    (m : RpcMessage) (j : String)
    → Dict.get (with_params m) j ≡ (
        if truthy m.params && "params" == j
        then some m.params
        else if truthy m.method && "method" == j
        then some m.method
        else Dict.get (header m) j)
get-with_params m j =
    get-add_field (truthy m.params) "params" j m.params (with_method m)
    ∙ ap (λ (o : Option Json). if truthy m.params && "params" == j then some m.params else o)
        (get-add_field (truthy m.method) "method" j m.method (header m))

get-with_error :
    (m : RpcMessage) (j : String)
    → Dict.get (with_error m) j ≡ (
        if truthy m.error && "error" == j
        then some m.error
        else if not (is_null m.result) && "result" == j
        then some m.result
        else if truthy m.params && "params" == j
        then some m.params
        else if truthy m.method && "method" == j
        then some m.method
        else Dict.get (header m) j)
get-with_error m j =
    get-add_field (truthy m.error) "error" j m.error (with_result m)
    ∙ ap (λ (o : Option Json). if truthy m.error && "error" == j then some m.error else o)
        (get-add_field (not (is_null m.result)) "result" j m.result (with_params m)
          ∙ ap
              (λ (o : Option Json).
                if not (is_null m.result) && "result" == j then some m.result else o)
              (get-with_params m j))

get-to_dict :
    (m : RpcMessage) (j : String)
    → Dict.get (to_dict m) j ≡ (
        if truthy m.metadata && "metadata" == j
        then some m.metadata
        else if truthy m.error && "error" == j
        then some m.error
        else if not (is_null m.result) && "result" == j
        then some m.result
        else if truthy m.params && "params" == j
        then some m.params
        else if truthy m.method && "method" == j
        then some m.method
        else Dict.get (header m) j)
unfolding to_dict
get-to_dict m j =
    get-add_field (truthy m.metadata) "metadata" j m.metadata (with_error m)
    ∙ ap (λ (o : Option Json). if truthy m.metadata && "metadata" == j then some m.metadata else o)
        (get-with_error m j)

-- What is read back of each field.
abbrev or_null : Bool → Json → Json
or_null b v = if b then v else Json.null

field-to_dict :
    (m : RpcMessage)
    → (type_field (to_dict m) ≡ Json.string (value m.type))
      × (field (to_dict m) "id" ≡ m.id)
      × (field (to_dict m) "timestamp" ≡ m.timestamp)
      × (field (to_dict m) "method" ≡ or_null (truthy m.method) m.method)
      × (field (to_dict m) "params" ≡ or_null (truthy m.params) m.params)
      × (field (to_dict m) "result" ≡ or_null (not (is_null m.result)) m.result)
      × (field (to_dict m) "error" ≡ or_null (truthy m.error) m.error)
      × (field (to_dict m) "metadata" ≡ or_null (truthy m.metadata) m.metadata)
unfolding Dict.get
field-to_dict m = (
  ground (arith, get-to_dict m "type"),
  ground (arith, get-to_dict m "id"),
  ground (arith, get-to_dict m "timestamp"),
  ground (arith, get-to_dict m "method"),
  ground (arith, get-to_dict m "params"),
  ground (arith, get-to_dict m "result"),
  ground (arith, get-to_dict m "error"),
  ground (arith, get-to_dict m "metadata"),
)

-- The defaults of the constructor put back what was left out.
restored :
    (v default : Json)
    → (truthy v ≡ true) ⊎ (v ≡ default)
    → or_else (or_null (truthy v) v) default ≡ v
restored v default h = elim (Bool-cases (truthy v)) [
  | inl e ↦ ground (arith, e, h)
  | inr e ↦ ground (arith, e, h)
]

default_id : {v w : Json} (default : Json) → v ≡ w → truthy w ≡ true → or_else v default ≡ w
default_id {v} {w} default e h = ap (λ (u : Json). or_else u default) e ∙ ground (arith, h)

same_null : (v : Json) → (truthy v ≡ true) ⊎ (v ≡ Json.null) → or_null (truthy v) v ≡ v
same_null v h = ground (arith, h)

same_result : (v : Json) → or_null (not (is_null v)) v ≡ v
same_result Json.null = refl
same_result (Json.boolean b) = refl
same_result (Json.number n) = refl
same_result (Json.string s) = refl
same_result (Json.array vs) = refl
same_result (Json.object vs) = refl

fields_eq :
    (m : RpcMessage) (id method params outcome failure timestamp metadata : Json)
    → id ≡ m.id
    → method ≡ m.method
    → params ≡ m.params
    → outcome ≡ m.result
    → failure ≡ m.error
    → timestamp ≡ m.timestamp
    → metadata ≡ m.metadata
    → record {
      type = m.type;
      id = id;
      method = method;
      params = params;
      result = outcome;
      error = failure;
      timestamp = timestamp;
      metadata = metadata;
    }
      ≡ m
fields_eq m id method params outcome failure timestamp metadata e₁ e₂ e₃ e₄ e₅ e₆ e₇ i = record {
  type = m.type;
  id = e₁ i;
  method = e₂ i;
  params = e₃ i;
  result = e₄ i;
  error = e₅ i;
  timestamp = e₆ i;
  metadata = e₇ i;
}

-- A message as the constructors make it is read back from its dict as it was.
pub from_dict-to_dict :
    (uuid : String) (now : ℕ) (m : RpcMessage)
    → IsNormal m
    → from_dict uuid now (to_dict m) ≡ some m
unfolding from_dict
from_dict-to_dict uuid now m (i, t, meth, par, err, meta) =
    ap (λ (ty : Json). elim (to_type ty) [ none ↦ none | some type ↦ some (rebuilt type) ])
      (field-to_dict m).0
    ∙ ap (λ (o : Option MessageType). elim o [ none ↦ none | some type ↦ some (rebuilt type) ])
        (to_type-value m.type)
    ∙ ap some (
        fields_eq m _ _ _ _ _ _ _ (default_id (Json.string uuid) (field-to_dict m).1 i)
          ((field-to_dict m).3 ∙ same_null m.method meth)
          (ap (λ (v : Json). or_else v empty) (field-to_dict m).4 ∙ restored m.params empty par)
          ((field-to_dict m).5 ∙ same_result m.result) ((field-to_dict m).6 ∙ same_null m.error err)
          (default_id (Json.number now) (field-to_dict m).2 t)
          (ap (λ (v : Json). or_else v empty) (field-to_dict m).7 ∙ restored m.metadata empty meta))
  where
    rebuilt : MessageType → RpcMessage
    rebuilt type =
        new_message uuid now type (field (to_dict m) "method") (field (to_dict m) "params")
          (field (to_dict m) "result") (field (to_dict m) "error") (field (to_dict m) "id")
          (field (to_dict m) "metadata") (field (to_dict m) "timestamp")
