-- ===== src/Runtime/Pruner/Boundary.antt =====
-- internal/hivemind/service/agents/domain/service/runtime/context_pruner.go: which messages
-- findProtectionBoundary protects.
use echoryn.Prelude.{ℕ, ◌<◌, List, Stops, backward-Stops}
use echoryn.Runtime.Message.{SchemaMessage}
use echoryn.Runtime.Pruner.{is_assistant, find_protection_boundary}

abbrev pub Protects : ℕ → List SchemaMessage → ℕ → Type 0
Protects = Stops is_assistant

-- With a positive `keep`, either an assistant message stands at the boundary, and from it on there are exactly
-- `keep` of them; or the messages have fewer, and all are protected.
pub find_protection_boundary-Protects :
    (keep : ℕ) (ms : List SchemaMessage)
    → 0 < keep
    → Protects keep ms (find_protection_boundary keep ms)
unfolding find_protection_boundary
find_protection_boundary-Protects keep ms h = backward-Stops is_assistant keep ms h
