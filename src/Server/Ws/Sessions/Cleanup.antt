-- ===== src/Server/Ws/Sessions/Cleanup.antt =====
-- server/ws/sessions.py: what a cleanup removes.
use text.Mathlib.TextEquality.{eq_iff}
use cpip.Common.{
  ℕ, ◌+◌, ◌≡◌, refl, ◌∙◌, ap, String, Bool, false, not, ◌||◌, none, List, [], ◌∷◌, arith,
  if◌then◌else◌, ◌==◌, eq_refl, length, select,
}
use cpip.Common.Dict
use cpip.Common.Dict.{Dict, Unique, get-put, get-remove, remove_absent}
use cpip.Server.Ws.Sessions.{
  ExecutionSession, Sessions, is_stale, stale_ids, delete_all, active_count, cleanup_stale,
}

mentions : String → List String → Bool
mentions e [] = false
mentions e (d ∷ ds) = d == e || mentions e ds

delete_all-cons :
    (ids : List String) (k : String) (s : ExecutionSession) (sessions : Sessions)
    → delete_all ids ((k, s) ∷ sessions)
      ≡ (if mentions k ids then delete_all ids sessions else (k, s) ∷ delete_all ids sessions)
unfolding delete_all mentions Dict.remove
delete_all-cons [] k s sessions = refl
delete_all-cons (i ∷ ids) k s sessions =
    ground (arith, eq_iff i k, eq_iff k i, delete_all-cons ids k s (Dict.remove sessions i))

stale_ids_absent :
    (max_idle now : ℕ) (sessions : Sessions) (k : String)
    → Dict.get sessions k ≡ none
    → mentions k (stale_ids max_idle now sessions) ≡ false
unfolding mentions Dict.get
stale_ids_absent max_idle now [] k e = refl
stale_ids_absent max_idle now ((j, s) ∷ sessions) k e =
    ground (arith, e, stale_ids_absent max_idle now sessions k)

-- The entries that a cleanup is to keep.
abbrev pub active : ℕ → ℕ → String × ExecutionSession → Bool
active max_idle now e = not (is_stale max_idle now e.1)

stale_head :
    (ids : List String) (k : String) (s : ExecutionSession) (sessions : Sessions)
    → Dict.get sessions k ≡ none
    → delete_all (k ∷ ids) ((k, s) ∷ sessions) ≡ delete_all ids sessions
unfolding delete_all Dict.remove
stale_head ids k s sessions a = ground (arith, a, eq_refl k, remove_absent sessions k)

delete_all_nil : delete_all [] [] ≡ []
unfolding delete_all
delete_all_nil = refl

delete_all-stale_ids :
    (max_idle now : ℕ) (sessions : Sessions)
    → Unique sessions
    → delete_all (stale_ids max_idle now sessions) sessions ≡ select (active max_idle now) sessions
delete_all-stale_ids max_idle now [] u = delete_all_nil
delete_all-stale_ids max_idle now ((k, s) ∷ sessions) (a, u) = ground (
  arith,
  a,
  stale_head (stale_ids max_idle now sessions) k s sessions a,
  delete_all-cons (stale_ids max_idle now sessions) k s sessions,
  stale_ids_absent max_idle now sessions k a,
  delete_all-stale_ids max_idle now sessions u,
)

length-stale_ids :
    (max_idle now : ℕ) (sessions : Sessions)
    → length (stale_ids max_idle now sessions) + length (select (active max_idle now) sessions)
      ≡ length sessions
length-stale_ids max_idle now [] = refl
length-stale_ids max_idle now ((k, s) ∷ sessions) =
    ground (arith, length-stale_ids max_idle now sessions)

-- A cleanup leaves exactly the sessions that were active within the limit, in their order, and
-- answers the number of those that it removes.
pub cleanup_stale_lem :
    (max_idle now : ℕ) (sessions : Sessions)
    → Unique sessions
    → ((cleanup_stale max_idle now sessions).1 ≡ select (active max_idle now) sessions)
      × ((cleanup_stale max_idle now sessions).0
            + active_count (cleanup_stale max_idle now sessions).1
          ≡ active_count sessions)
unfolding cleanup_stale
cleanup_stale_lem max_idle now sessions u = (
  delete_all-stale_ids max_idle now sessions u,
  ap (λ (l : Sessions). length (stale_ids max_idle now sessions) + length l)
        (delete_all-stale_ids max_idle now sessions u)
      ∙ length-stale_ids max_idle now sessions,
)
