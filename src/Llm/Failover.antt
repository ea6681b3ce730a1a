-- ===== src/Llm/Failover.antt =====
-- internal/hivemind/service/llm/domain/entity/failover.go: the reasons for which a model request
-- fails, the structured error, and how a raw error is classified.
-- A Go error is either a FailoverError or a raw error, of which the code sees the message and
-- whatever its optional methods StatusCode, Status and ErrorCode return. Status codes are natural
-- numbers: the code compares them with the positive codes of net/http only.
mod Patterns
pub mod Rules
use echoryn.Prelude.{
  List, Text, codes, same, is_empty, to_lower, to_upper, contains, any, decimal, ℕ, ◌≡◌, ◌++◌, Bool,
  true, false, not, ◌&&◌, ◌||◌, Option, none, some, if◌then◌else◌, ◌==◌,
}
use Patterns.{
  timeout_patterns, rate_limit_patterns, auth_patterns, billing_patterns, unavailable_patterns,
  server_patterns,
}

pub data FailoverReason : Type 0 where
  unknown auth rate_limit billing timeout format unavailable server_error : FailoverReason

unfoldable pub reason_string : FailoverReason → Text
reason_string unknown = codes "unknown"
reason_string auth = codes "auth"
reason_string rate_limit = codes "rate_limit"
reason_string billing = codes "billing"
reason_string timeout = codes "timeout"
reason_string format = codes "format"
reason_string unavailable = codes "unavailable"
reason_string server_error = codes "server_error"

unfoldable pub is_retryable : FailoverReason → Bool
is_retryable rate_limit = true
is_retryable timeout = true
is_retryable unavailable = true
is_retryable server_error = true
is_retryable _ = false

unfoldable pub should_failover : FailoverReason → Bool
should_failover format = false
should_failover auth = true
should_failover billing = true
should_failover rate_limit = true
should_failover timeout = true
should_failover unavailable = true
should_failover server_error = true
should_failover unknown = true

unfoldable pub http_status_code : FailoverReason → ℕ
http_status_code auth = 401
http_status_code rate_limit = 429
http_status_code billing = 402
http_status_code timeout = 408
http_status_code format = 400
http_status_code unavailable = 503
http_status_code server_error = 500
http_status_code unknown = 0

-- An error that is no FailoverError. A method that the error lacks is `none`.
pub record RawError : Type 0 where
  pub status_code : Option ℕ
  pub status : Option ℕ
  pub error_code : Option Text
  pub message : Text

-- `cause` is the error that was wrapped: NewFailoverErrorFromCause wraps raw errors only.
pub record FailoverError : Type 0 where
  pub reason : FailoverReason
  pub provider : Text
  pub model : Text
  pub status_code : ℕ
  pub code : Text
  pub message : Text
  pub cause : Option RawError

pub data Error : Type 0 where
  failover : FailoverError → Error
  raw : RawError → Error

-- FailoverError.Error
unfoldable pub failover_error_string : FailoverError → Text
unfolding reason_string
failover_error_string e =
    codes "[failover:"
    ++ (reason_string e.reason
        ++ (codes "]"
            ++ ((if not (is_empty e.provider) || not (is_empty e.model)
                  then codes " " ++ (e.provider ++ (codes "/" ++ (e.model ++ codes ":")))
                  else codes "")
                ++ (codes " "
                    ++ (e.message
                        ++ ((if e.status_code == 0
                              then codes ""
                              else codes " (HTTP " ++ (decimal e.status_code ++ codes ")"))
                            ++ (if is_empty e.code
                                then codes ""
                                else codes " [code=" ++ (e.code ++ codes "]"))))))))

unfoldable pub error_string : Error → Text
unfolding failover_error_string
error_string (failover e) = failover_error_string e
error_string (raw e) = e.message

unfoldable pub same_reason : FailoverReason → FailoverReason → Bool
unfolding reason_string
same_reason r s = same (reason_string r) (reason_string s)

-- FailoverError.Is
unfoldable pub failover_error_is : FailoverError → Error → Bool
unfolding same_reason
failover_error_is e (raw t) = false
failover_error_is e (failover t) =
    if is_empty t.provider && (is_empty t.model && is_empty t.message)
    then same_reason e.reason t.reason
    else false

unfoldable pub new_failover_error : FailoverReason → Text → Text → Text → FailoverError
unfolding http_status_code
new_failover_error reason provider model message = record {
  reason = reason;
  provider = provider;
  model = model;
  status_code = http_status_code reason;
  code = codes "";
  message = message;
  cause = none;
}

-- A FailoverError has a StatusCode field and none of the three methods.
unfoldable pub extract_status_code : Error → ℕ
extract_status_code (failover e) = 0
extract_status_code (raw e) = elim e.status_code [
  | some n ↦ n
  | none ↦ elim e.status [ some n ↦ n | none ↦ 0 ]
]

unfoldable pub extract_error_code : Error → Text
extract_error_code (failover e) = codes ""
extract_error_code (raw e) = elim e.error_code [ some c ↦ c | none ↦ codes "" ]

unfoldable pub classify_from_status : ℕ → FailoverReason
classify_from_status status =
    if status == 401 || status == 403
    then auth
    else if status == 402
    then billing
    else if status == 429
    then rate_limit
    else if status == 408
    then timeout
    else if status == 400
    then format
    else if status == 503
    then unavailable
    else if status == 500 || (status == 502 || status == 504)
    then server_error
    else unknown

unfoldable pub classify_from_code : Text → FailoverReason
classify_from_code code =
    let upper = to_upper code in
    if same upper (codes "ETIMEDOUT")
      || (same upper (codes "ESOCKETTIMEDOUT")
          || (same upper (codes "ECONNRESET") || same upper (codes "ECONNABORTED")))
    then timeout
    else if same upper (codes "ECONNREFUSED")
    then unavailable
    else unknown

-- One loop over a list of patterns.
abbrev pub matches : List Text → Text → Bool
matches patterns lower = any (λ p. contains p lower) patterns

unfoldable pub classify_from_message : Text → FailoverReason
classify_from_message msg =
    let lower = to_lower msg in
    if matches timeout_patterns lower
    then timeout
    else if matches rate_limit_patterns lower
    then rate_limit
    else if matches auth_patterns lower
    then auth
    else if matches billing_patterns lower
    then billing
    else if matches unavailable_patterns lower
    then unavailable
    else if matches server_patterns lower
    then server_error
    else unknown

abbrev pub or_else : FailoverReason → FailoverReason → FailoverReason
or_else unknown r = r
or_else auth r = auth
or_else rate_limit r = rate_limit
or_else billing r = billing
or_else timeout r = timeout
or_else format r = format
or_else unavailable r = unavailable
or_else server_error r = server_error

-- The layers: an earlier classification, the status, the code, the message.
unfoldable pub classify_error : Option Error → FailoverReason
unfolding extract_status_code extract_error_code
classify_error none = unknown
classify_error (some (failover e)) = e.reason
classify_error (some (raw e)) =
    let status = extract_status_code (raw e) in
    let code = extract_error_code (raw e) in
    or_else (if status == 0 then unknown else classify_from_status status) (
      or_else (if is_empty code then unknown else classify_from_code code)
        (classify_from_message e.message))

-- NewFailoverErrorFromCause; a FailoverError is enriched in place.
unfoldable pub failover_error_from_cause : Error → Text → Text → FailoverError
unfolding classify_error
failover_error_from_cause (failover e) provider model = record e {
  provider = if is_empty e.provider then provider else e.provider;
  model = if is_empty e.model then model else e.model;
}
failover_error_from_cause (raw e) provider model = record {
  reason = classify_error (some (raw e));
  provider = provider;
  model = model;
  status_code = extract_status_code (raw e);
  code = extract_error_code (raw e);
  message = e.message;
  cause = some e;
}
