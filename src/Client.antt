-- ===== src/Client.antt =====
-- agent/src/controller_client.rs: the requests of the agent to the controller, and what the client
-- makes of the answers. What reqwest sends back is an argument, with the value that the body parses
-- to; the print of a `Uuid` is an argument too.
use timelord.Prelude.{
  ℕ, ◌+◌, Bool, false, ◌&&◌, Option, none, some, List, [], ◌∷◌, String, unwrap_or, ◌==◌, ltb, leb,
  if◌then◌else◌,
}
use timelord.Prelude.Int.{ℤ}
use timelord.Prelude.Result.{Result, ok, err}
use timelord.Prelude.Show.{concat, show_ℕ, show_ℤ}
use timelord.Prelude.Time.{Duration, Uuid, from_secs}
use timelord.Prelude.Trim.{trim_end_matches}
use timelord.Protocol.{
  AgentMessage, EventSubmissionRequest, EventSubmissionResponse, HeartbeatRequest,
  HeartbeatResponse, RegisterRequest, RegisterResponse,
}
use timelord.Schedule.{Schedule}

abbrev pub request_timeout : Duration
request_timeout = from_secs 10

-- An error of reqwest as its text, or an answer that is not a success.
pub data ClientError : Type 0 where
  request_error : String → ClientError
  api_error : ℕ → String → ClientError

unfoldable pub is_device_not_found : ClientError → Bool
is_device_not_found (request_error reason) = false
is_device_not_found (api_error status body) = status == 404

-- `Display`.
unfoldable pub to_string : ClientError → String
to_string (request_error reason) = concat ("request error: " ∷ reason ∷ [])
to_string (api_error status body) =
    concat ("controller returned HTTP " ∷ show_ℕ status ∷ ": " ∷ body ∷ [])

-- The signer is never asked, and the HTTP client keeps no state that matters.
pub record ControllerClient : Type 0 where
  pub base_url : String

unfoldable pub new : String → ControllerClient
new base_url = record { base_url = trim_end_matches b'/' base_url }

pub data Body : Type 0 where
  no_body : Body
  register_body : RegisterRequest → Body
  heartbeat_body : HeartbeatRequest → Body
  events_body : EventSubmissionRequest → Body

pub data Method : Type 0 where
  get post : Method

pub record HttpRequest : Type 0 where
  pub method : Method
  pub url : String
  pub query : List (String × String)
  pub timeout : Duration
  pub body : Body

-- `text` is the body as a text, or none if it cannot be read; `json` is what it parses to.
pub record HttpResponse (A : Type 0) : Type 0 where
  pub status : ℕ
  pub text : Option String
  pub json : Result String A

unfoldable pub is_success : ℕ → Bool
is_success status = leb 200 status && ltb status 300

unfoldable pub parse_success : {A : Type 0} → Result String A → Result ClientError A
parse_success (ok a) = ok a
parse_success (err reason) = err (request_error reason)

unfoldable pub parse : {A : Type 0} → HttpResponse A → Result ClientError A
unfolding is_success parse_success
parse r =
    if is_success r.status
    then parse_success r.json
    else err (api_error r.status (unwrap_or r.text ""))

-- `send().await?` and then `parse`.
unfoldable pub parse_sent : {A : Type 0} → Result String (HttpResponse A) → Result ClientError A
unfolding parse
parse_sent (err reason) = err (request_error reason)
parse_sent (ok r) = parse r

abbrev pub post_to : ControllerClient → List String → Body → HttpRequest
post_to c path body = record {
  method = Method.post;
  url = concat (c.base_url ∷ path);
  query = [];
  timeout = request_timeout;
  body = body;
}

abbrev pub get_from :
    ControllerClient → List String → List (String × String) → Duration → HttpRequest
get_from c path query timeout = record {
  method = Method.get;
  url = concat (c.base_url ∷ path);
  query = query;
  timeout = timeout;
  body = Body.no_body;
}

unfoldable pub register :
    (HttpRequest → Result String (HttpResponse RegisterResponse))
    → RegisterRequest
    → ControllerClient
    → Result ClientError RegisterResponse
unfolding parse_sent
register send request c =
    parse_sent (send (post_to c ("/api/v1/agents/register" ∷ []) (Body.register_body request)))

unfoldable pub heartbeat :
    (Uuid → String)
    → (HttpRequest → Result String (HttpResponse HeartbeatResponse))
    → Uuid
    → HeartbeatRequest
    → ControllerClient
    → Result ClientError HeartbeatResponse
unfolding parse_sent
heartbeat print send device_id request c = parse_sent (
    send (
      post_to c ("/api/v1/agents/" ∷ print device_id ∷ "/heartbeat" ∷ [])
        (Body.heartbeat_body request)))

unfoldable pub to_schedule :
    Result String (HttpResponse Schedule) → Result ClientError (Option Schedule)
unfolding parse
to_schedule (err reason) = err (request_error reason)
to_schedule (ok r) =
    if r.status == 204
    then ok none
    else elim (parse r) [ err e ↦ err e | ok schedule ↦ ok (some schedule) ]

abbrev pub revision_query : Option String → List (String × String)
revision_query none = []
revision_query (some revision) = ("revision", revision) ∷ []

-- `wait` is in whole seconds.
unfoldable pub poll_schedule :
    (Uuid → String)
    → (HttpRequest → Result String (HttpResponse Schedule))
    → Uuid
    → Option String
    → ℕ
    → ControllerClient
    → Result ClientError (Option Schedule)
unfolding to_schedule
poll_schedule print send device_id revision wait c = to_schedule (
    send (
      get_from c ("/api/v1/agents/" ∷ print device_id ∷ "/schedule" ∷ [])
        (("waitSeconds", show_ℕ wait) ∷ revision_query revision)
        (from_secs wait + request_timeout)))

unfoldable pub poll_messages :
    (Uuid → String)
    → (HttpRequest → Result String (HttpResponse (List AgentMessage)))
    → Uuid
    → ℤ
    → ℕ
    → ControllerClient
    → Result ClientError (List AgentMessage)
unfolding parse_sent
poll_messages print send device_id after wait c = parse_sent (
    send (
      get_from c ("/api/v1/agents/" ∷ print device_id ∷ "/messages" ∷ [])
        (("after", show_ℤ after) ∷ ("waitSeconds", show_ℕ wait) ∷ [])
        (from_secs wait + request_timeout)))

unfoldable pub submit_events :
    (Uuid → String)
    → (HttpRequest → Result String (HttpResponse EventSubmissionResponse))
    → Uuid
    → EventSubmissionRequest
    → ControllerClient
    → Result ClientError EventSubmissionResponse
unfolding parse_sent
submit_events print send device_id request c = parse_sent (
    send
      (post_to c ("/api/v1/agents/" ∷ print device_id ∷ "/events" ∷ []) (Body.events_body request)))
