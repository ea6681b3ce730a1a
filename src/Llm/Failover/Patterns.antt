-- ===== src/Llm/Failover/Patterns.antt =====
-- internal/hivemind/service/llm/domain/entity/failover.go: the patterns of classifyFromMessage.
use echoryn.Prelude.{Text, codes, List, [], ◌∷◌}

abbrev pub timeout_patterns : List Text
timeout_patterns =
    codes "timeout"
    ∷ codes "timed out"
    ∷ codes "deadline exceeded"
    ∷ codes "context deadline exceeded"
    ∷ codes "context canceled"
    ∷ []

abbrev pub rate_limit_patterns : List Text
rate_limit_patterns =
    codes "rate limit"
    ∷ codes "rate_limit"
    ∷ codes "ratelimit"
    ∷ codes "too many requests"
    ∷ codes "quota exceeded"
    ∷ codes "throttl"
    ∷ []

abbrev pub auth_patterns : List Text
auth_patterns =
    codes "unauthorized"
    ∷ codes "authentication"
    ∷ codes "invalid api key"
    ∷ codes "invalid_api_key"
    ∷ codes "forbidden"
    ∷ codes "access denied"
    ∷ []

abbrev pub billing_patterns : List Text
billing_patterns =
    codes "billing"
    ∷ codes "payment"
    ∷ codes "insufficient_quota"
    ∷ codes "insufficient funds"
    ∷ codes "credit"
    ∷ []

abbrev pub unavailable_patterns : List Text
unavailable_patterns =
    codes "unavailable"
    ∷ codes "service overloaded"
    ∷ codes "overloaded"
    ∷ codes "connection refused"
    ∷ []

abbrev pub server_patterns : List Text
server_patterns = codes "internal server error" ∷ codes "internal error" ∷ codes "bad gateway" ∷ []
