-- ===== src/Server/Auth/Tokens.antt =====
-- server/auth/jwt_handler.py, server/auth/middleware.py and server/api/auth.py: tokens, and the user of
-- a request. Times are in whole seconds, as in a token. The library jose is a parameter, new ids are
-- arguments, and so is the setting `debug`.
pub mod Access
mod Tests
use Prim.Native.String.{◌++◌, slice, len}
use text.Mathlib.Text.{starts_with}
use cpip.Common.{
  ℕ, zero, suc, ◌+◌, ◌*◌, String, Bool, true, false, not, Option, some, none, ◌==◌, if◌then◌else◌,
}
use cpip.Shared.Json.{Json, Fields, truthy, get_field, get_or, put_field}

-- `jwt.encode` and `jwt.decode` with a secret; decoding takes the time, and gives none where it raises.
pub record Jwt : Type 0 where
  pub encode : Fields → String → String
  pub decode : String → String → ℕ → Option Fields

-- The server: its library, its secret, and whether it is in dev mode.
pub record Server : Type 0 where
  pub jwt : Jwt
  pub jwt_secret : String
  pub debug : Bool

abbrev pub access_seconds : ℕ
access_seconds = 60 * 60

abbrev pub refresh_seconds : ℕ
refresh_seconds = 30 * 24 * 3600

-- `data` with its end and its type.
abbrev pub with_type : Fields → ℕ → String → Fields
with_type content expire type =
    put_field (put_field content "exp" (Json.number expire)) "type" (Json.string type)

-- `expires_delta or timedelta(minutes=60)`; a delta of nothing is false.
abbrev pub lifetime : Option ℕ → ℕ
lifetime none = access_seconds
lifetime (some zero) = access_seconds
lifetime (some (suc n)) = suc n

unfoldable pub create_access_token : Server → Fields → Option ℕ → ℕ → String
create_access_token s content delta now =
    s.jwt.encode (with_type content (now + lifetime delta) "access") s.jwt_secret

unfoldable pub create_refresh_token : Server → Fields → ℕ → String
create_refresh_token s content now =
    s.jwt.encode (with_type content (now + refresh_seconds) "refresh") s.jwt_secret

unfoldable pub decode_token : Server → String → ℕ → Option Fields
decode_token s token now = s.jwt.decode token s.jwt_secret now

pub record TokenPair : Type 0 where
  pub access_token : String
  pub refresh_token : String
  pub token_type : String
  pub expires_in : ℕ

abbrev pub user_data : Json → Json → Fields
user_data user_id device_id =
    Fields.entry "sub" user_id (Fields.entry "device_id" device_id Fields.no_fields)

unfoldable pub create_token_pair : Server → Json → Json → ℕ → TokenPair
create_token_pair s user_id device_id now = record {
  access_token = create_access_token s (user_data user_id device_id) none now;
  refresh_token = create_refresh_token s (user_data user_id device_id) now;
  token_type = "bearer";
  expires_in = access_seconds;
}

-- The user of a request, or the detail of the answer 401.
pub data Auth : Type 0 where
  user : Fields → Auth
  unauthorized : String → Auth

abbrev pub dev_user : String → String → Fields
dev_user sub device_id = Fields.entry "sub" (Json.string sub) (
    Fields.entry "device_id" (Json.string device_id)
      (Fields.entry "tier" (Json.string "dev") Fields.no_fields))

-- The user of a token that is decoded; an empty payload is false.
abbrev pub payload_user : Option Fields → Auth
payload_user (some p) =
    if truthy (Json.object p) then Auth.user p else Auth.unauthorized "Invalid token"
payload_user none = Auth.unauthorized "Invalid token"

unfoldable pub get_current_user : Server → Option String → ℕ → Auth
get_current_user s none now =
    if s.debug
    then Auth.user (dev_user "anonymous" "local")
    else Auth.unauthorized "Not authenticated"
get_current_user s (some token) now =
    if (if s.debug then starts_with token "dev_" else false)
    then Auth.user (dev_user "dev-user" (slice token 4 (len token)))
    else payload_user (decode_token s token now)

abbrev pub is_text : String → Json → Bool
is_text s (Json.string t) = t == s
is_text s _ = false

abbrev pub not_anonymous : Auth → Auth
not_anonymous (Auth.user u) =
    if is_text "anonymous" (get_or u "sub" Json.null)
    then Auth.unauthorized "Authentication required"
    else Auth.user u
not_anonymous (Auth.unauthorized detail) = Auth.unauthorized detail

unfoldable pub require_auth : Server → Option String → ℕ → Auth
require_auth s token now = not_anonymous (get_current_user s token now)

-- POST /login; `uuid` is the device that is new if the request has none.
unfoldable pub login : Server → String → String → String → ℕ → TokenPair × String
login s device_id uuid user_hex now =
    let device = if device_id == "" then uuid else device_id in
    (create_token_pair s (Json.string ("user_" ++ user_hex)) (Json.string device) now, device)

pub record Registered : Type 0 where
  pub tokens : TokenPair
  pub user_id : String
  pub api_key : String
  pub device_id : String

-- POST /register
unfoldable pub register : Server → String → String → String → ℕ → Registered
register s user_id key_hex device_id now = record {
  tokens = create_token_pair s (Json.string user_id) (Json.string device_id) now;
  user_id = user_id;
  api_key = "cpip_" ++ key_hex;
  device_id = device_id;
}

-- The answer of POST /refresh: new tokens, 401, or the KeyError of a payload without `sub`.
pub data Refreshed : Type 0 where
  tokens : TokenPair → Refreshed
  invalid_refresh_token : Refreshed
  key_error : Refreshed

abbrev pub renewed : Server → Fields → ℕ → Refreshed
renewed s p now = elim (get_field p "sub") [
  | some sub ↦
      Refreshed.tokens (create_token_pair s sub (get_or p "device_id" (Json.string "")) now)
  | none ↦ Refreshed.key_error
]

unfoldable pub refresh : Server → String → ℕ → Refreshed
refresh s token now = elim (decode_token s token now) [
  | none ↦ Refreshed.invalid_refresh_token
  | some p ↦
      if is_text "refresh" (get_or p "type" Json.null)
      then renewed s p now
      else Refreshed.invalid_refresh_token
]

-- GET /me
pub record Me : Type 0 where
  pub user_id : Json
  pub device_id : Json
  pub tier : Json

abbrev pub get_me : Fields → Me
get_me u = record {
  user_id = get_or u "sub" Json.null;
  device_id = get_or u "device_id" Json.null;
  tier = get_or u "tier" (Json.string "free");
}
