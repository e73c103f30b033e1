-- ===== src/Server/Activation.antt =====
-- Which requests activate a panel's golden image, and the responses to each GET.
use Prim.Native.String.{String}
use package.text.Mathlib.Text.{◌==◌}
use lvhvbox.Prelude.{
  ℕ, suc, ◌+◌, length-append, Option-cases, ◌≤◌, ◌≡◌, refl, ap, Bool, true, false, not, ◌&&◌, ◌||◌,
  List, [], ◌∷◌, if_elim, ◌⊎◌, inl, inr, Bool-cases, &&-inv, is_empty, length, All, Option, none,
  some, arith,
}
use lvhvbox.Server.{
  Raised, queue_full, queue_expired, queue_cancelled, queue_closed, busy, timed_out, roc, bad_value,
  bad_type, bad_key, arithmetic, os, runtime, import_failed, unforeseen, Value, integer, Call,
  asks_health, asks_parameters, asks_panels, scans_all, scans, identifies, recovers, reads, Outcome,
  done, raises, get_status, context_status, Sending, raising, send_json, add_response, handled,
  caught, answer_with, answered, attempted, Query, has_exactly, value_of, Route, unknown, invalid,
  asks, Headers, admits, Body, not_json, not_object, members, Post, valid_length, with_int,
  with_ints, is_activation_body, only_members, has_member, is_action, member_of, string_value,
  other_value, body_route, post_route, get_route, perform, do_get, do_post,
}

get_status_lem : (r : Raised) → (s : ℕ) × (get_status r ≡ some s)
unfolding get_status
get_status_lem queue_full = (429, refl)
get_status_lem queue_expired = (408, refl)
get_status_lem queue_cancelled = (408, refl)
get_status_lem queue_closed = (503, refl)
get_status_lem busy = (409, refl)
get_status_lem timed_out = (504, refl)
get_status_lem roc = (502, refl)
get_status_lem bad_value = (400, refl)
get_status_lem bad_type = (500, refl)
get_status_lem bad_key = (400, refl)
get_status_lem arithmetic = (400, refl)
get_status_lem os = (503, refl)
get_status_lem runtime = (503, refl)
get_status_lem import_failed = (503, refl)
get_status_lem unforeseen = (500, refl)

-- The writes that raise.
abbrev pub failures : List (Option Raised) → ℕ
failures [] = 0
failures (none ∷ ws) = failures ws
failures (some r ∷ ws) = suc (failures ws)

quiet : Option Raised → ℕ
quiet none = 1
quiet (some r) = 0

-- There is one response more than writes that raised, once no exception is on its way.
record Balanced (total : ℕ) (s : Sending) : Type 0 where
  even : length s.statuses + failures s.writes ≡ total + quiet s.escapes
  answers : quiet s.escapes ≤ length s.statuses

raising-Balanced : (r : Raised) (ws : List (Option Raised)) → Balanced (failures ws) (raising r ws)
unfolding quiet
raising-Balanced r ws = record { even = omega arith; answers = omega arith }

add_response-Balanced :
    (total code : ℕ) (before : List ℕ) (ws : List (Option Raised))
    → length before + failures ws ≡ total
    → Balanced total (add_response before (send_json code ws))
unfolding quiet
add_response-Balanced total code before [] h = record {
  even = omega (arith, length-append before (code ∷ []));
  answers = omega (arith, length-append before (code ∷ []));
}
add_response-Balanced total code before (none ∷ ws) h = record {
  even = omega (arith, length-append before (code ∷ []));
  answers = omega (arith, length-append before (code ∷ []));
}
add_response-Balanced total code before (some r ∷ ws) h = record {
  even = omega (arith, length-append before (code ∷ []));
  answers = omega (arith, length-append before (code ∷ []));
}

length-send_json :
    (before : List ℕ) (code : ℕ) (ws : List (Option Raised))
    → length (add_response before (send_json code ws)).statuses ≡ suc (length before)
length-send_json before code [] = omega (arith, length-append before (code ∷ []))
length-send_json before code (w ∷ ws) = omega (arith, length-append before (code ∷ []))

-- The clauses keep the balance, and take no response back.
abbrev Clause : ℕ → Sending → Sending → Type 0
Clause total s t = Balanced total t × (length s.statuses ≤ length t.statuses)

caught-quiet :
    (status : Raised → Option ℕ) (o : Option Raised) (code : ℕ)
    → caught status o ≡ some code
    → quiet o ≡ 0
unfolding quiet
caught-quiet status none code h = cc
caught-quiet status (some r) code h = refl

answer_with-Clause :
    (total : ℕ) (s : Sending) (o : Option ℕ)
    → Balanced total s
    → ((code : ℕ) → o ≡ some code → quiet s.escapes ≡ 0)
    → Clause total s (answer_with o s)
answer_with-Clause total s none b q = (b, omega arith)
answer_with-Clause total s (some code) b q = (
  add_response-Balanced total code s.statuses s.writes (omega (arith, b.even, q code refl)),
  omega (arith, length-send_json s.statuses code s.writes),
)

handled-Clause :
    (status : Raised → Option ℕ) (total : ℕ) (s : Sending)
    → Balanced total s
    → Clause total s (handled status s)
handled-Clause status total s b =
    answer_with-Clause total s (caught status s.escapes) b (caught-quiet status s.escapes)

-- Every exception has a clause of `handle_GET`.
caught-get_status :
    (s : Sending) (o : Option Raised)
    → quiet o ≤ length s.statuses
    → 1 ≤ length (answer_with (caught get_status o) s).statuses
unfolding quiet
caught-get_status s none h = h
caught-get_status s (some r) h =
    let (code, f) = get_status_lem r in
    rw f (omega (arith, length-send_json s.statuses code s.writes))

handled-get_status :
    (total : ℕ) (s : Sending) → Balanced total s → 1 ≤ length (handled get_status s).statuses
handled-get_status total s b = caught-get_status s s.escapes b.answers

answered-Balanced :
    (payload : Option Raised) (ws : List (Option Raised)) (o : Outcome)
    → Balanced (failures ws) (answered payload ws o)
answered-Balanced payload ws (raises r) = raising-Balanced r ws
answered-Balanced none ws done = add_response-Balanced (failures ws) 200 [] ws (omega arith)
answered-Balanced (some r) ws done = raising-Balanced r ws

-- At least one response is begun, and at most one more than writes raise; where none raises, there is
-- one and nothing leaves the handler.
abbrev pub Replied : List (Option Raised) → Sending → Type 0
Replied ws s =
    (1 ≤ length s.statuses)
    × (length s.statuses ≤ suc (failures ws))
    × (failures ws ≡ 0 → (length s.statuses ≡ 1) × (s.escapes ≡ none))

Balanced-Replied :
    (ws : List (Option Raised)) (s : Sending)
    → Balanced (failures ws) s
    → 1 ≤ length s.statuses
    → Replied ws s
unfolding quiet
Balanced-Replied ws s b one = elim (Option-cases s.escapes) [
  | inl e ↦
      let q : quiet s.escapes ≡ 1 = ap quiet e in
      (one, omega (arith, b.even, q), λ z. (omega (arith, b.even, q), e))
  | inr (r, e) ↦
      let q : quiet s.escapes ≡ 0 = ap quiet e in
      (one, omega (arith, b.even, q), λ z. absurd (omega (arith, b.even, q)))
]

not_lem : (b : Bool) → not b ≡ true → b ≡ false
not_lem false h = refl
not_lem true h = cc

yes_lem : (b : Bool) → not b ≡ false → b ≡ true
yes_lem true h = refl
yes_lem false h = cc

refused-Replied :
    (ws : List (Option Raised)) → Replied ws (handled context_status (raising bad_value ws))
refused-Replied ws =
    Balanced-Replied ws _ (add_response-Balanced (failures ws) 400 [] ws (omega arith))
      (omega (arith, length-send_json [] 400 ws))

or_right : (a b : Bool) → a ≡ false → a || b ≡ true → b ≡ true
or_right true b e h = cc
or_right false b e h = h

or_split : (a b : Bool) → a || b ≡ true → (a ≡ true) ⊎ (b ≡ true)
or_split true b h = inl refl
or_split false b h = inr h

valid_length-bounds :
    (length : Option ℕ)
    → valid_length length ≡ true
    → (n : ℕ) × (length ≡ some n) × (1 ≤ n) × (n ≤ 128)
valid_length-bounds none h = cc
valid_length-bounds (some n) h = (n, refl, ground arith, ground arith)

module _ {Int : Type 0} where
  abbrev pub is_activation : Call Int → Bool
  is_activation (recovers activate v) = activate
  is_activation asks_health = false
  is_activation asks_parameters = false
  is_activation asks_panels = false
  is_activation scans_all = false
  is_activation (scans m n) = false
  is_activation (identifies n) = false
  is_activation (reads direct n name) = false

  abbrev is_quiet : Route Int → Bool
  is_quiet unknown = true
  is_quiet invalid = true
  is_quiet (asks c) = not (is_activation c)

  with_int-is_quiet :
      (n : Option Int) (call : Int → Call Int)
      → ((k : Int) → is_activation (call k) ≡ false)
      → is_quiet (with_int n call) ≡ true
  with_int-is_quiet none call h = refl
  with_int-is_quiet (some k) call h = ap not (h k)

  with_ints-is_quiet : (m n : Option Int) → is_quiet (with_ints m n) ≡ true
  with_ints-is_quiet (some m) (some n) = refl
  with_ints-is_quiet none n = refl
  with_ints-is_quiet (some m) none = refl

  abbrev Quiet : Route Int → Type 0
  Quiet r = is_quiet r ≡ true

  get_route-Quiet :
      (int : String → Option Int) (path : String) (params : Query)
      → Quiet (get_route int path params)
  unfolding get_route
  get_route-Quiet int path params =
      if_elim Quiet (path == "/health" && is_empty params) _ _ (λ _. refl)
        (λ _.
          if_elim Quiet (path == "/parameters" && is_empty params) _ _ (λ _. refl)
            (λ _.
              if_elim Quiet (path == "/panels" && is_empty params) _ _ (λ _. refl)
                (λ _.
                  if_elim Quiet (path == "/discover") _ _
                    (λ _.
                      if_elim Quiet (is_empty params) _ _ (λ _. refl)
                        (λ _.
                          if_elim Quiet (has_exactly ("start" ∷ "end" ∷ []) params) _ _
                            (λ _.
                              with_ints-is_quiet (int (value_of "start" params))
                                (int (value_of "end" params)))
                            (λ _. refl)))
                    (λ _.
                      if_elim Quiet (path == "/panel-id") _ _
                        (λ _.
                          if_elim Quiet (has_exactly ("address" ∷ []) params) _ _
                            (λ _.
                              with_int-is_quiet (int (value_of "address" params)) identifies
                                (λ k. refl))
                            (λ _. refl))
                        (λ _.
                          if_elim Quiet (path == "/recovery-status") _ _
                            (λ _.
                              if_elim Quiet (has_exactly ("address" ∷ []) params) _ _
                                (λ _.
                                  with_int-is_quiet (int (value_of "address" params))
                                    (λ n. recovers false (integer n)) (λ k. refl))
                                (λ _. refl))
                            (λ _.
                              if_elim Quiet (path == "/read" || path == "/direct-read") _ _
                                (λ _.
                                  if_elim Quiet (has_exactly ("address" ∷ "name" ∷ []) params) _ _
                                    (λ _.
                                      with_int-is_quiet (int (value_of "address" params))
                                        (λ n.
                                          reads (path == "/direct-read") n (value_of "name" params))
                                        (λ k. refl))
                                    (λ _. refl))
                                (λ _. refl)))))))

  -- What a GET did: at most one operation, which is no activation, and its responses.
  abbrev pub Responded : List (Option Raised) → List (Call Int) × Sending → Type 0
  Responded ws out =
      (length out.0 ≤ 1) × All (λ c. is_activation c ≡ false) out.0 × Replied ws out.1

  attempted-Balanced :
      (telemetry : Call Int → Outcome) (payload : Option Raised) (ws : List (Option Raised))
      (r : Route Int)
      → Balanced (failures ws) (attempted telemetry payload ws r).1
  attempted-Balanced telemetry payload ws unknown =
      add_response-Balanced (failures ws) 404 [] ws (omega arith)
  attempted-Balanced telemetry payload ws invalid = raising-Balanced bad_value ws
  attempted-Balanced telemetry payload ws (asks c) = answered-Balanced payload ws (telemetry c)

  attempted-Quiet :
      (telemetry : Call Int → Outcome) (payload : Option Raised) (ws : List (Option Raised))
      (r : Route Int)
      → Quiet r
      → let calls = (attempted telemetry payload ws r).0 in
        (length calls ≤ 1) × All (λ c. is_activation c ≡ false) calls
  attempted-Quiet telemetry payload ws unknown q = (omega arith, tt)
  attempted-Quiet telemetry payload ws invalid q = (omega arith, tt)
  attempted-Quiet telemetry payload ws (asks c) q = (omega arith, (not_lem (is_activation c) q, tt))

  perform-Responded :
      (telemetry : Call Int → Outcome) (payload : Option Raised) (ws : List (Option Raised))
      (r : Route Int)
      → Quiet r
      → Responded ws (perform get_status telemetry payload ws r)
  perform-Responded telemetry payload ws r q =
      let (few, none_active) = attempted-Quiet telemetry payload ws r q in
      let s = (attempted telemetry payload ws r).1 in
      let b = attempted-Balanced telemetry payload ws r in
      let (inner, _) = handled-Clause get_status (failures ws) s b in
      let (outer, more) =
        handled-Clause context_status (failures ws) (handled get_status s) inner in
      let one = handled-get_status (failures ws) s b in
      (few, none_active, Balanced-Replied ws _ outer (omega (arith, one, more)))

  -- Whatever the path, the parameters and the headers, a GET request asks for at most one operation,
  -- never for the activation of an image, and a response to it is begun, whichever exception the
  -- operation raises. At most one response more is begun than writes raise; where no write raises,
  -- there is exactly one response and no exception leaves the handler.
  pub do_get-Responded :
      (int : String → Option Int) (telemetry : Call Int → Outcome) (payload : Option Raised)
      (ws : List (Option Raised)) (h : Headers) (path : String) (params : Query)
      → Responded ws (do_get int telemetry payload ws h path params)
  unfolding do_get
  do_get-Responded int telemetry payload ws h path params =
      if_elim (Responded ws) (admits h) _ _
        (λ _.
          perform-Responded telemetry payload ws (get_route int path params)
            (get_route-Quiet int path params))
        (λ _. (omega arith, tt, refused-Replied ws))

  -- The value stands in the object at this name; an object has one member of each name.
  abbrev pub FirstAt : String → List (String × Value Int) → Value Int → Type 0
  FirstAt name [] v = ⊥
  FirstAt name (f ∷ fields) v =
      ((f.0 == name ≡ true) × (f.1 ≡ v)) ⊎ ((f.0 == name ≡ false) × FirstAt name fields v)

  member-FirstAt :
      (name : String) (fields : List (String × Value Int))
      → has_member name fields ≡ true
      → FirstAt name fields (member_of name fields)
  member-FirstAt name [] h = cc
  member-FirstAt name ((k, v) ∷ rest) h = elim (Bool-cases (k == name)) [
    | inl e ↦ inl (e, rw e refl)
    | inr e ↦ inr (e, rw e (member-FirstAt name rest (or_right (k == name) _ e h)))
  ]

  only_members-All :
      (fields : List (String × Value Int))
      → only_members fields ≡ true
      → All (λ f. (f.0 == "address" ≡ true) ⊎ (f.0 == "action" ≡ true)) fields
  only_members-All [] h = tt
  only_members-All ((k, v) ∷ rest) h =
      let (one, more) = &&-inv h in
      (or_split (k == "address") (k == "action") one, only_members-All rest more)

  is_action-text :
      (v : Value Int)
      → is_action v ≡ true
      → (text : String) × (v ≡ string_value text) × (text == "activate-golden" ≡ true)
  is_action-text (string_value t) h = (t, refl, h)
  is_action-text (integer n) h = cc
  is_action-text other_value h = cc

  -- A POST request that is entitled to activate an image.
  abbrev pub Entitled : Post Int → Call Int → Type 0
  Entitled p c =
      (p.path == "/recover-golden" ≡ true)
      × (p.content_type == "application/json" ≡ true)
      × (p.is_chunked ≡ false)
      × ((n : ℕ) × (p.content_length ≡ some n) × (1 ≤ n) × (n ≤ 128))
      × ((fields : List (String × Value Int)) × (p.body ≡ members fields)
          × All (λ f. (f.0 == "address" ≡ true) ⊎ (f.0 == "action" ≡ true)) fields
          × ((address : Value Int) × FirstAt "address" fields address × (c ≡ recovers true address))
          × ((action : Value Int) × FirstAt "action" fields action
              × ((text : String) × (action ≡ string_value text)
                  × (text == "activate-golden" ≡ true))))

  abbrev RouteEntitled : Post Int → Route Int → Type 0
  RouteEntitled p unknown = Unit
  RouteEntitled p invalid = Unit
  RouteEntitled p (asks c) = Entitled p c

  body_lem :
      (p : Post Int) (b : Body Int)
      → p.body ≡ b
      → (p.path == "/recover-golden" ≡ true)
      → (p.content_type == "application/json" ≡ true)
      → (p.is_chunked ≡ false)
      → (valid_length p.content_length ≡ true)
      → RouteEntitled p (body_route b)
  body_lem p not_json e h i j k = tt
  body_lem p not_object e h i j k = tt
  body_lem p (members fields) e h i j k =
      if_elim (RouteEntitled p) (is_activation_body fields) _ _
        (λ f.
          let (only, f1) = &&-inv f in
          let (has_address, f2) = &&-inv f1 in
          let (has_action, f3) = &&-inv f2 in
          (
            h,
            i,
            j,
            valid_length-bounds p.content_length k,
            (
              fields,
              e,
              only_members-All fields only,
              (member_of "address" fields, member-FirstAt "address" fields has_address, refl),
              (
                member_of "action" fields,
                member-FirstAt "action" fields has_action,
                is_action-text (member_of "action" fields) f3,
              ),
            ),
          ))
        (λ _. tt)

  post_route-Entitled : (p : Post Int) → RouteEntitled p (post_route p)
  unfolding post_route
  post_route-Entitled p =
      if_elim (RouteEntitled p) (not (p.path == "/recover-golden")) _ _ (λ _. tt)
        (λ h.
          if_elim (RouteEntitled p) (not (p.content_type == "application/json")) _ _ (λ _. tt)
            (λ i.
              if_elim (RouteEntitled p) p.is_chunked _ _ (λ _. tt)
                (λ j.
                  if_elim (RouteEntitled p) (not (valid_length p.content_length)) _ _ (λ _. tt)
                    (λ k. body_lem p p.body refl (yes_lem _ h) (yes_lem _ i) j (yes_lem _ k)))))

  attempted-Entitled :
      (telemetry : Call Int → Outcome) (payload : Option Raised) (ws : List (Option Raised))
      (p : Post Int) (r : Route Int)
      → RouteEntitled p r
      → All (Entitled p) (attempted telemetry payload ws r).0
  attempted-Entitled telemetry payload ws p unknown q = tt
  attempted-Entitled telemetry payload ws p invalid q = tt
  attempted-Entitled telemetry payload ws p (asks c) q = (q, tt)

  -- A POST request asks for an operation only to activate the image of the panel that its body names, and
  -- only with the one path, content type and encoding, a length of 1 to 128, and a body of an address,
  -- the text `activate-golden` as the action, and no other member.
  pub do_post-Entitled :
      (telemetry : Call Int → Outcome) (payload : Option Raised) (ws : List (Option Raised))
      (h : Headers) (p : Post Int)
      → All (Entitled p) (do_post telemetry payload ws h p).0
  unfolding do_post
  do_post-Entitled telemetry payload ws h p =
      if_elim (λ (out : List (Call Int) × Sending). All (Entitled p) out.0) (admits h) _ _
        (λ _. attempted-Entitled telemetry payload ws p (post_route p) (post_route-Entitled p))
        (λ _. tt)
