-- ===== src/Runtime/Window.antt =====
-- internal/hivemind/service/agents/domain/service/runtime/context_window.go.
-- What the model manager answers is a parameter: the metadata of the model, or `none` where there is
-- no manager, no model, or an error, which the code treats alike but for the log. A negative size in
-- the metadata is not positive and counts as 0.
use echoryn.Prelude.{ℕ, ◌-◌, ◌/◌, Option, none, some, if◌then◌else◌, ltb, ◌==◌}

abbrev pub hard_minimum_context_window : ℕ
hard_minimum_context_window = 16000

abbrev pub default_context_window : ℕ
default_context_window = 200000

-- Of a model instance, the two sizes that Resolve reads.
pub record ModelInfo : Type 0 where
  pub context_window : ℕ
  pub max_tokens : ℕ

pub record ContextWindowInfo : Type 0 where
  pub window_size : ℕ
  pub reserve_tokens : ℕ
  pub usable_tokens : ℕ

-- NewContextWindowGuard: the window that it falls back to.
unfoldable pub new_context_window_guard : ℕ → ℕ
new_context_window_guard default_window =
    if default_window == 0 then default_context_window else default_window

window_of : ℕ → Option ModelInfo → ℕ
window_of default_window none = default_window
window_of default_window (some m) =
    if ltb 0 m.context_window then m.context_window else default_window

reserve_of : Option ModelInfo → ℕ
reserve_of none = 4096
reserve_of (some m) = if ltb 0 m.max_tokens then m.max_tokens else 4096

unfoldable pub resolve : ℕ → Option ModelInfo → ContextWindowInfo
unfolding window_of reserve_of
resolve default_window model =
    let found = window_of default_window model in
    let window_size =
      if ltb found hard_minimum_context_window then hard_minimum_context_window else found in
    let half = window_size / 2 in
    let reserve_tokens = if ltb half (reserve_of model) then half else reserve_of model in
    record {
      window_size = window_size;
      reserve_tokens = reserve_tokens;
      usable_tokens = window_size - reserve_tokens;
    }
