-- ===== src/Server/Auth/Tokens/Tests.antt =====
-- Runs of server/auth/jwt_handler.py and server/api/auth.py: the tokens of a login.
use cpip.Common.{
  ℕ, ◌+◌, ◌≡◌, refl, String, true, false, Option, some, none, ◌==◌, leb, if◌then◌else◌,
}
use cpip.Shared.Json.{Json, Fields, get_field, put_field}
use cpip.Server.Auth.Tokens.{
  Server, create_access_token, create_refresh_token, decode_token, create_token_pair, Auth,
  dev_user, get_current_user, require_auth, login, register, refresh, access_seconds,
  refresh_seconds,
}
use cpip.Server.Auth.Tokens.Access.{
  Reads, access_payload, refresh_payload, until, require_auth-create_token_pair,
}

program : Unit {0}
unfolding create_access_token create_refresh_token decode_token create_token_pair get_current_user
    require_auth login register refresh get_field put_field
program = tt

abbrev phone : Json
phone = Json.string "phone"

abbrev ada : Json
ada = Json.string "user_ada"

-- A library that knows the two tokens of one pair, by their types.
abbrev encode : Fields → String → String
encode p secret = elim (get_field p "type") [ some (Json.string t) ↦ t | _ ↦ "" ]

abbrev decode : String → String → ℕ → Option Fields
decode t secret now =
    if t == "access"
    then (if leb now (7 + access_seconds) then some (access_payload ada phone 7) else none)
    else if t == "refresh"
    then (if leb now (7 + refresh_seconds) then some (refresh_payload ada phone 7) else none)
    else none

abbrev server : Server
server = record {
  jwt = record { encode = encode; decode = decode };
  jwt_secret = "s3cret";
  debug = false;
}

test_login : (login server "phone" "u-1" "ada" 7).0.access_token ≡ "access"
unfolding program
test_login = refl

test_dev :
    (get_current_user (record server { debug = true }) (some "dev_phone") 9
      ≡ Auth.user (dev_user "dev-user" "phone"))
    × (require_auth (record server { debug = true }) none 9
        ≡ Auth.unauthorized "Authentication required")
unfolding program
test_dev = (refl, refl)

test_register : (register server "u-2" "k" "d" 7).api_key ≡ "cpip_k"
unfolding program
test_register = refl

access-Reads : Reads server (access_payload ada phone 7) (7 + access_seconds)
unfolding program
access-Reads t = refl

refresh-Reads : Reads server (refresh_payload ada phone 7) (7 + refresh_seconds)
unfolding program
refresh-Reads t = refl

require_auth-create_token_pair_example :
    let pair = create_token_pair server ada phone 7 in
    (require_auth server (some pair.access_token) 4000
      ≡ until 4000 (7 + access_seconds) (access_payload ada phone 7))
    × (require_auth server (some pair.refresh_token) 4000
        ≡ until 4000 (7 + refresh_seconds) (refresh_payload ada phone 7))
require_auth-create_token_pair_example =
    require_auth-create_token_pair server ada phone 7 4000 refl refl access-Reads refresh-Reads
