-- ===== src/Server/Services/Builds/Queued.antt =====
-- server/services/build_service.py: the queue and the status of builds.
use text.Mathlib.TextEquality.{eq_iff}
use cpip.Common.{
  ℕ, ◌+◌, ◌≡◌, refl, ◌⊎◌, String, Bool, true, false, Option, none, some, List, [], ◌∷◌, ◌++◌, ◌==◌,
  if◌then◌else◌, arith, ltb, choose_if, choose_some,
}
use cpip.Common.Dict
use cpip.Common.Dict.{Dict, get-put}
use cpip.Builder.Queue.{BuildRequest}
use cpip.Server.Services.Builds.{
  BuildStatus, BuildResult, BuildService, new_service, queued_result, submit_build, get_build,
  is_over, remove_first, cancel_build,
}

abbrev pub places : String → List String → ℕ
places id [] = 0
places id (x ∷ xs) = (if x == id then 1 else 0) + places id xs

-- How often a build is to be in the queue, by its status; no other status comes up.
abbrev pub Due : ℕ → Option BuildResult → Type 0
Due n none = n ≡ 0
Due n (some build) =
    ((build.status ≡ BuildStatus.queued) × (n ≡ 1))
    ⊎ ((build.status ≡ BuildStatus.cancelled) × (n ≡ 0))

places-append :
    (id : String) (xs ys : List String) → places id (xs ++ ys) ≡ places id xs + places id ys
places-append id [] ys = omega arith
places-append id (x ∷ xs) ys = omega (arith, places-append id xs ys)

-- One place is given up, if there is one.
places-remove_first :
    (id j : String) (xs : List String)
    → places id (remove_first j xs)
        + (if j == id then (if ltb 0 (places id xs) then 1 else 0) else 0)
      ≡ places id xs
unfolding remove_first
places-remove_first id j [] = ground arith
places-remove_first id j (x ∷ xs) =
    ground (arith, eq_iff x j, eq_iff j id, eq_iff x id, places-remove_first id j xs)

-- The services that are reached when every submission has a new id.
pub data Run : BuildService → Type 0 where
  started : Run new_service
  submitted :
      {s : BuildService} (req : BuildRequest)
      → get_build s req.request_id ≡ none
      → Run s
      → Run (submit_build req s).1
  cancelled : {s : BuildService} (id : String) → Run s → Run (cancel_build id s).1

submit-Due :
    (req : BuildRequest) (s : BuildService) (id : String)
    → get_build s req.request_id ≡ none
    → Due (places id s.queue) (get_build s id)
    → Due (places req.request_id s.queue) (get_build s req.request_id)
    → Due (places id (submit_build req s).1.queue) (get_build (submit_build req s).1 id)
unfolding submit_build
submit-Due req s id f d d' = ground (
  arith,
  f,
  d,
  d',
  eq_iff req.request_id id,
  places-append id s.queue (req.request_id ∷ []),
  get-put s.builds req.request_id id (queued_result req),
)

cancel-Due :
    (j : String) (s : BuildService) (id : String)
    → Due (places id s.queue) (get_build s id)
    → Due (places id (cancel_build j s).1.queue) (get_build (cancel_build j s).1 id)
unfolding cancel_build
cancel-Due j s id d =
    choose_some (λ (r : Bool × BuildService). Due (places id r.1.queue) (get_build r.1 id))
      (Dict.get s.builds j) (false, s)
      (λ build. if is_over build.status then (false, s) else (
        true,
        record {
          builds = Dict.put s.builds j (record build { status = BuildStatus.cancelled });
          queue = remove_first j s.queue;
        },
      ))
      (λ e. d)
      (λ build e.
        choose_if (λ (r : Bool × BuildService). Due (places id r.1.queue) (get_build r.1 id))
          (is_over build.status) _ _ d
          (ground (
            arith,
            e,
            d,
            eq_iff j id,
            places-remove_first id j s.queue,
            get-put s.builds j id (record build { status = BuildStatus.cancelled }),
          )))

new-Due : (id : String) → Due (places id []) (get_build new_service id)
unfolding Dict.get
new-Due id = refl

-- After any submissions with new ids and any cancellations a build is queued and stands in the queue
-- once, or it is cancelled and not in the queue; no other status is reached, so that no build ends.
pub Run-Due : (s : BuildService) (id : String) → Run s → Due (places id s.queue) (get_build s id)
Run-Due _ id Run.started = new-Due id
Run-Due _ id (Run.submitted {s} req f r) =
    submit-Due req s id f (Run-Due s id r) (Run-Due s req.request_id r)
Run-Due _ id (Run.cancelled {s} j r) = cancel-Due j s id (Run-Due s id r)
