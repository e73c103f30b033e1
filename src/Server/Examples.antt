-- ===== src/Server/Examples.antt =====
-- Tests and witnesses for the request handler.
use Prim.Native.String.{String}
use package.text.Mathlib.Text.{◌==◌}
use lvhvbox.Prelude.{ℕ, ◌≡◌, refl, true, false, [], ◌∷◌, if◌then◌else◌, Option, none, some, All}
use lvhvbox.Server.{
  timed_out, integer, string_value, Call, recovers, scans, Outcome, done, raises, asks_health,
  get_status, post_status, Headers, Body, members, Post, get_route, post_route, do_get, do_post,
}
use lvhvbox.Server.Activation.{Responded, do_get-Responded, Entitled, do_post-Entitled}

abbrev int : String → Option ℕ
int t = if t == "5" then some 5 else if t == "9" then some 9 else none

abbrev headers : Headers
headers = record { timeout = some 30000; known_client = true }

abbrev telemetry : Call ℕ → Outcome
telemetry c = raises timed_out

abbrev recover_body : Body ℕ
recover_body = members (("address", integer 5) ∷ ("action", string_value "activate-golden") ∷ [])

abbrev recover : Post ℕ
recover = record {
  path = "/recover-golden";
  content_type = "application/json";
  is_chunked = false;
  content_length = some 43;
  body = recover_body;
}

scan_route :
    do_get int telemetry none [] headers "/discover" (("start", "5" ∷ []) ∷ ("end", "9" ∷ []) ∷ [])
    ≡ (scans 5 9 ∷ [], record { statuses = 504 ∷ []; escapes = none; writes = [] })
unfolding do_get get_route get_status
scan_route = refl

-- A write of the body that times out is taken for a timeout of the operation: a second response follows.
second_response :
    do_get int (λ c. done) none (some timed_out ∷ []) headers "/health" []
    ≡ (asks_health ∷ [], record { statuses = 200 ∷ 504 ∷ []; escapes = none; writes = [] })
unfolding do_get get_route get_status
second_response = refl

recover_route :
    do_post telemetry none [] headers recover
    ≡ (recovers true (integer 5) ∷ [], record { statuses = 504 ∷ []; escapes = none; writes = [] })
unfolding do_post post_route post_status
recover_route = refl

do_get-Responded_example :
    Responded []
      (do_get int telemetry none [] headers "/recovery-status" (("address", "5" ∷ []) ∷ []))
do_get-Responded_example =
    do_get-Responded int telemetry none [] headers "/recovery-status" (("address", "5" ∷ []) ∷ [])

do_post-Entitled_example : All (Entitled recover) (do_post telemetry none [] headers recover).0
do_post-Entitled_example = do_post-Entitled telemetry none [] headers recover
