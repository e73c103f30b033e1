-- ===== src/Server.antt =====
-- The request handler of rs485-server/rs485_server.py: which operation of the bus a request asks for, and
-- the statuses of its responses. `Int` is the type of Python's integers, `int` its conversion of a text.
pub mod Activation
mod Examples
use Prim.Native.String.{String}
use package.text.Mathlib.Text.{◌==◌}
use lvhvbox.Prelude.{
  ℕ, Bool, true, false, not, ◌&&◌, ◌||◌, List, [], ◌∷◌, ◌++◌, if◌then◌else◌, any, all, is_empty,
  length, ltb, leb, Option, none, some,
}

-- The exceptions that the handler tells apart.
pub data Raised : Type 0 where
  queue_full queue_expired queue_cancelled queue_closed busy timed_out roc bad_value bad_type :
      Raised
  bad_key arithmetic os runtime import_failed unforeseen : Raised

-- A value in the body of a request.
pub data Value (Int : Type 0) : Type 0 where
  integer : Int → Value Int
  string_value : String → Value Int
  other_value : Value Int

-- What a request asks of the history and of the telemetry.
pub data Call (Int : Type 0) : Type 0 where
  asks_health asks_parameters asks_panels scans_all : Call Int
  scans : Int → Int → Call Int
  identifies : Int → Call Int
  recovers : (activate : Bool) → Value Int → Call Int
  reads : (direct : Bool) → Int → String → Call Int

pub data Outcome : Type 0 where
  done : Outcome
  raises : Raised → Outcome

-- The `except` clauses that both methods have.
abbrev pub common_status : Raised → Option ℕ
common_status queue_full = some 429
common_status queue_expired = some 408
common_status queue_cancelled = some 408
common_status queue_closed = some 503
common_status busy = some 409
common_status timed_out = some 504
common_status roc = some 502
common_status bad_value = some 400
common_status os = some 503
common_status runtime = some 503
common_status import_failed = some 503
common_status bad_type = none
common_status bad_key = none
common_status arithmetic = none
common_status unforeseen = none

abbrev pub or_status : Option ℕ → Option ℕ → Option ℕ
or_status none status = status
or_status (some s) status = some s

-- None is an exception that leaves the handler.
unfoldable pub post_status : Raised → Option ℕ
post_status bad_type = some 400
post_status r = common_status r

unfoldable pub get_status : Raised → Option ℕ
get_status bad_key = some 400
get_status arithmetic = some 400
get_status r = or_status (common_status r) (some 500)

-- The clause of `do_GET` and `do_POST` themselves.
abbrev pub context_status : Raised → Option ℕ
context_status bad_value = some 400
context_status bad_type = some 400
context_status _ = none

-- The statuses of the responses that were begun, the exception that is on its way, and what becomes of
-- the writes to come: a write raises, or it does not, also where the peer has gone during the body. With
-- none left, no write raises.
pub record Sending : Type 0 where
  pub statuses : List ℕ
  pub escapes : Option Raised
  pub writes : List (Option Raised)

abbrev pub raising : Raised → List (Option Raised) → Sending
raising r writes = record { statuses = []; escapes = some r; writes = writes }

abbrev pub send_json : ℕ → List (Option Raised) → Sending
send_json status [] = record { statuses = status ∷ []; escapes = none; writes = [] }
send_json status (w ∷ writes) = record { statuses = status ∷ []; escapes = w; writes = writes }

-- What an `except` clause does after the responses that were begun.
abbrev pub add_response : List ℕ → Sending → Sending
add_response before s = record s { statuses = before ++ s.statuses }

abbrev pub caught : (Raised → Option ℕ) → Option Raised → Option ℕ
caught status none = none
caught status (some r) = status r

abbrev pub answer_with : Option ℕ → Sending → Sending
answer_with none s = s
answer_with (some code) s = add_response s.statuses (send_json code s.writes)

-- The `except` clauses after a `try`, the exceptions of its own responses included.
abbrev pub handled : (Raised → Option ℕ) → Sending → Sending
handled status s = answer_with (caught status s.escapes) s

-- The response to an operation that was called.
abbrev pub answered : Option Raised → List (Option Raised) → Outcome → Sending
answered payload writes (raises r) = raising r writes
answered none writes done = send_json 200 writes
answered (some r) writes done = raising r writes

-- `parse_qs`: each name once, with its values.
abbrev pub Query : Type 0
Query = List (String × List String)

abbrev pub has_name : String → Query → Bool
has_name name [] = false
has_name name ((k, v) ∷ rest) = k == name || has_name name rest

-- `set(params) == {...} and all(len(v) == 1 ...)`
abbrev pub only_names : List String → Query → Bool
only_names names [] = true
only_names names ((k, v) ∷ rest) = any (λ name. name == k) names && only_names names rest

abbrev pub are_single : Query → Bool
are_single [] = true
are_single ((k, v ∷ []) ∷ rest) = are_single rest
are_single ((k, []) ∷ rest) = false
are_single ((k, v ∷ w ∷ vs) ∷ rest) = false

abbrev pub has_exactly : List String → Query → Bool
has_exactly names params =
    only_names names params && (all (λ name. has_name name params) names && are_single params)

-- `params[name][0]`
abbrev pub first_of : List String → String
first_of [] = ""
first_of (v ∷ vs) = v

abbrev pub value_of : String → Query → String
value_of name [] = ""
value_of name ((k, v) ∷ rest) = if k == name then first_of v else value_of name rest

pub data Route (Int : Type 0) : Type 0 where
  unknown invalid : Route Int
  asks : Call Int → Route Int

-- The headers of a request: the limit in milliseconds, none if it is not a finite number above zero, and
-- whether `queue.request` knows the client.
pub record Headers : Type 0 where
  pub timeout : Option ℕ
  pub known_client : Bool

abbrev pub in_limit : Option ℕ → Bool
in_limit none = false
in_limit (some t) = ltb 0 t && leb t 120000

abbrev pub admits : Headers → Bool
admits h = in_limit h.timeout && h.known_client

-- A body that is not JSON, one that is not an object, and the members of an object.
pub data Body (Int : Type 0) : Type 0 where
  not_json not_object : Body Int
  members : List (String × Value Int) → Body Int

-- `content_length` is none if the header is not a natural number.
pub record Post (Int : Type 0) : Type 0 where
  pub path : String
  pub content_type : String
  pub is_chunked : Bool
  pub content_length : Option ℕ
  pub body : Body Int

abbrev pub valid_length : Option ℕ → Bool
valid_length none = false
valid_length (some n) = ltb 0 n && leb n 128

module _ {Int : Type 0} where
  abbrev pub with_int : Option Int → (Int → Call Int) → Route Int
  with_int none call = invalid
  with_int (some n) call = asks (call n)

  abbrev pub with_ints : Option Int → Option Int → Route Int
  with_ints (some m) (some n) = asks (scans m n)
  with_ints none n = invalid
  with_ints (some m) none = invalid

  abbrev pub is_action : Value Int → Bool
  is_action (string_value t) = t == "activate-golden"
  is_action (integer n) = false
  is_action other_value = false

  abbrev pub has_member : String → List (String × Value Int) → Bool
  has_member name [] = false
  has_member name ((k, v) ∷ rest) = k == name || has_member name rest

  abbrev pub member_of : String → List (String × Value Int) → Value Int
  member_of name [] = other_value
  member_of name ((k, v) ∷ rest) = if k == name then v else member_of name rest

  abbrev pub only_members : List (String × Value Int) → Bool
  only_members [] = true
  only_members ((k, v) ∷ rest) = (k == "address" || k == "action") && only_members rest

  -- `set(body) == {'address', 'action'} and body['action'] == 'activate-golden'`
  abbrev pub is_activation_body : List (String × Value Int) → Bool
  is_activation_body fields =
      only_members fields
      && (has_member "address" fields
          && (has_member "action" fields && is_action (member_of "action" fields)))

  abbrev pub body_route : Body Int → Route Int
  body_route not_json = invalid
  body_route not_object = invalid
  body_route (members fields) =
      if is_activation_body fields
      then asks (recovers true (member_of "address" fields))
      else invalid

  -- `handle_POST`, up to the operation.
  unfoldable pub post_route : Post Int → Route Int
  post_route p =
      if not (p.path == "/recover-golden")
      then unknown
      else if not (p.content_type == "application/json")
      then invalid
      else if p.is_chunked
      then invalid
      else if not (valid_length p.content_length)
      then invalid
      else body_route p.body

  -- `handle_GET`, up to the operation.
  unfoldable pub get_route : (String → Option Int) → String → Query → Route Int
  get_route int path params =
      if path == "/health" && is_empty params
      then asks asks_health
      else if path == "/parameters" && is_empty params
      then asks asks_parameters
      else if path == "/panels" && is_empty params
      then asks asks_panels
      else if path == "/discover"
      then (if is_empty params
          then asks scans_all
          else if has_exactly ("start" ∷ "end" ∷ []) params
          then with_ints (int (value_of "start" params)) (int (value_of "end" params))
          else invalid)
      else if path == "/panel-id"
      then (if has_exactly ("address" ∷ []) params
          then with_int (int (value_of "address" params)) identifies
          else invalid)
      else if path == "/recovery-status"
      then (if has_exactly ("address" ∷ []) params
          then with_int (int (value_of "address" params)) (λ n. recovers false (integer n))
          else invalid)
      else if path == "/read" || path == "/direct-read"
      then (if has_exactly ("address" ∷ "name" ∷ []) params
          then with_int (int (value_of "address" params))
              (λ n. reads (path == "/direct-read") n (value_of "name" params))
          else invalid)
      else unknown

  -- The statements of a `try` block on a route: the operations that are called, and the responses.
  -- `payload` is what `json.dumps` of the result raises, none if it raises nothing.
  abbrev pub attempted :
      (Call Int → Outcome)
      → Option Raised
      → List (Option Raised)
      → Route Int
      → List (Call Int) × Sending
  attempted telemetry payload writes unknown = ([], send_json 404 writes)
  attempted telemetry payload writes invalid = ([], raising bad_value writes)
  attempted telemetry payload writes (asks c) = (c ∷ [], answered payload writes (telemetry c))

  -- `handle_GET` or `handle_POST` with its `except` clauses, inside the `try` of `do_GET` or `do_POST`.
  abbrev pub perform :
      (Raised → Option ℕ)
      → (Call Int → Outcome)
      → Option Raised
      → List (Option Raised)
      → Route Int
      → List (Call Int) × Sending
  perform status telemetry payload writes route =
      let (calls, s) = attempted telemetry payload writes route in
      (calls, handled context_status (handled status s))

  -- A request whose headers are not admitted.
  abbrev pub refused : List (Option Raised) → List (Call Int) × Sending
  refused writes = ([], handled context_status (raising bad_value writes))

  -- `do_GET` and `do_POST`
  unfoldable pub do_get :
      (String → Option Int)
      → (Call Int → Outcome)
      → Option Raised
      → List (Option Raised)
      → Headers
      → String
      → Query
      → List (Call Int) × Sending
  do_get int telemetry payload writes h path params =
      if admits h
      then perform get_status telemetry payload writes (get_route int path params)
      else refused writes

  unfoldable pub do_post :
      (Call Int → Outcome)
      → Option Raised
      → List (Option Raised)
      → Headers
      → Post Int
      → List (Call Int) × Sending
  do_post telemetry payload writes h p =
      if admits h
      then perform post_status telemetry payload writes (post_route p)
      else refused writes
