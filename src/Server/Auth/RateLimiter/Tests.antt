-- ===== src/Server/Auth/RateLimiter/Tests.antt =====
-- Runs and instances of server/auth/rate_limiter.py.
use cpip.Common.{ℕ, ◌≡◌, refl, true, false, none, some, List, [], ◌∷◌, arith}
use cpip.Common.Dict
use cpip.Server.Auth.RateLimiter.{
  Request, RateLimit, Windows, client_key, all_old, prune_loop, prune, cleaned, check_key, check,
  remaining,
}
use cpip.Server.Auth.RateLimiter.Window.{Call, answers, log_check, log_answers, answers-log_answers}

program : Unit {0}
unfolding Dict.get Dict.put Dict.remove client_key all_old prune_loop prune cleaned check_key check
    remaining answers log_check log_answers
program = tt

abbrev phone : Request
phone = record { forwarded = none; host = some "10.0.0.7" }

abbrev proxied : Request
proxied = record { forwarded = some " 1.2.3.4 , 5.6.7.8"; host = some "10.0.0.7" }

key_of_proxied : client_key (some proxied) ≡ "rate:1.2.3.4"
unfolding program
key_of_proxied = refl

abbrev two_a_minute : RateLimit
two_a_minute = record { requests = 2; window_seconds = 60 }

abbrev at : Request → ℕ → Call
at r now = record { request = some r; limit = two_a_minute; now = now }

-- Two pass, the third comes too early, another client passes, and after a minute there is room.
abbrev calls : List Call
calls = at phone 1 ∷ at phone 2 ∷ at phone 3 ∷ at proxied 3 ∷ at phone 60_000_002 ∷ []

calls_run : answers calls [] ≡ true ∷ true ∷ false ∷ true ∷ true ∷ []
unfolding program
calls_run = refl

answers-log_answers_example : answers calls [] ≡ log_answers calls []
answers-log_answers_example = answers-log_answers 60 calls (omega arith)

abbrev used : Windows
used = ("rate:10.0.0.7", 1 ∷ 2 ∷ []) ∷ []
