-- ===== src/Server/Auth/Tokens/Access.antt =====
-- server/auth/jwt_handler.py, server/auth/middleware.py, server/api/auth.py: how long the tokens of a
-- pair let in, and which of them gives new ones.
use cpip.Common.{ℕ, ◌+◌, ◌≡◌, String, false, some, none, if◌then◌else◌, leb, arith}
use cpip.Shared.Json.{Json, Fields, get_field, put_field}
use cpip.Server.Auth.Tokens.{
  Server, with_type, access_seconds, refresh_seconds, create_access_token, create_refresh_token,
  decode_token, create_token_pair, user_data, Auth, get_current_user, require_auth, Refreshed,
  refresh, is_text,
}

-- The library reads a token that it made of a payload until its end.
abbrev pub Reads : Server → Fields → ℕ → Type 0
Reads s p expire =
    (t : ℕ)
    → s.jwt.decode (s.jwt.encode p s.jwt_secret) s.jwt_secret t
      ≡ (if leb t expire then some p else none)

abbrev pub access_payload : Json → Json → ℕ → Fields
access_payload user_id device_id now =
    with_type (user_data user_id device_id) (now + access_seconds) "access"

abbrev pub refresh_payload : Json → Json → ℕ → Fields
refresh_payload user_id device_id now =
    with_type (user_data user_id device_id) (now + refresh_seconds) "refresh"

abbrev pub until : ℕ → ℕ → Fields → Auth
until later expire p = if leb later expire then Auth.user p else Auth.unauthorized "Invalid token"

let_in :
    (s : Server) (user_id device_id : Json) (expire later : ℕ) (type : String)
    → s.debug ≡ false
    → is_text "anonymous" user_id ≡ false
    → let p = with_type (user_data user_id device_id) expire type in
      Reads s p expire
      → require_auth s (some (s.jwt.encode p s.jwt_secret)) later ≡ until later expire p
unfolding require_auth get_current_user decode_token put_field get_field
let_in s user_id device_id expire later type production named reads =
    ground (arith, production, reads later, named)

-- Outside dev mode the access token of a pair lets its user in for an hour, and no longer; so does the
-- refresh token for thirty days, which is not meant for that. The user is not called `anonymous`, and
-- the library reads what it made until its end.
pub require_auth-create_token_pair :
    (s : Server) (user_id device_id : Json) (now later : ℕ)
    → s.debug ≡ false
    → is_text "anonymous" user_id ≡ false
    → Reads s (access_payload user_id device_id now) (now + access_seconds)
    → Reads s (refresh_payload user_id device_id now) (now + refresh_seconds)
    → let pair = create_token_pair s user_id device_id now in
      (require_auth s (some pair.access_token) later
        ≡ until later (now + access_seconds) (access_payload user_id device_id now))
      × (require_auth s (some pair.refresh_token) later
          ≡ until later (now + refresh_seconds) (refresh_payload user_id device_id now))
unfolding create_token_pair create_access_token create_refresh_token
require_auth-create_token_pair s user_id device_id now later production named access renew = (
  let_in s user_id device_id (now + access_seconds) later "access" production named access,
  let_in s user_id device_id (now + refresh_seconds) later "refresh" production named renew,
)

-- The refresh token of a pair gives a new pair for the same user and device for thirty days, and is
-- refused after that; the access token of the pair is always refused there. The library reads what it
-- made until its end.
pub refresh-create_token_pair :
    (s : Server) (user_id device_id : Json) (now later : ℕ)
    → Reads s (access_payload user_id device_id now) (now + access_seconds)
    → Reads s (refresh_payload user_id device_id now) (now + refresh_seconds)
    → let pair = create_token_pair s user_id device_id now in
      (refresh s pair.refresh_token later ≡ (
        if leb later (now + refresh_seconds)
        then Refreshed.tokens (create_token_pair s user_id device_id later)
        else Refreshed.invalid_refresh_token))
      × (refresh s pair.access_token later ≡ Refreshed.invalid_refresh_token)
unfolding refresh decode_token create_token_pair create_access_token create_refresh_token put_field
    get_field
refresh-create_token_pair s user_id device_id now later access renew =
    (ground (arith, renew later), ground (arith, access later))

-- Outside dev mode nobody is let in without a token.
pub require_auth_none :
    (s : Server) (now : ℕ)
    → s.debug ≡ false
    → require_auth s none now ≡ Auth.unauthorized "Not authenticated"
unfolding require_auth get_current_user
require_auth_none s now production = ground (arith, production)
