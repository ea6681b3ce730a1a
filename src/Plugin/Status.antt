-- ===== src/Plugin/Status.antt =====
-- internal/hivemind/service/plugin/status.go: the status of an operation. `none` is a nil pointer; the quotes of `%q` are put
-- around a name that has nothing to escape.
use echoryn.Prelude.{
  Text, codes, join, Bool, true, false, List, [], ◌∷◌, ◌++◌, Option, none, some, length, ◌==◌,
  if◌then◌else◌,
}

-- The named codes, and a number that has no name.
pub data Code : Type 0 where
  success error skip unschedulable : Code
  unnamed : Text → Code

abbrev pub code_string : Code → Text
code_string success = codes "Success"
code_string error = codes "Error"
code_string skip = codes "Skip"
code_string unschedulable = codes "Unschedulable"
code_string (unnamed digits) = codes "Code(" ++ (digits ++ codes ")")

pub record Status : Type 0 where
  pub code : Code
  pub reasons : List Text
  pub err : Option Text
  pub plugin : Text

unfoldable pub new_status : Code → List Text → Option Status
new_status code reasons = some (record { code = code; reasons = reasons; err = none; plugin = [] })

unfoldable pub new_status_with_error : Text → Option Status
new_status_with_error err =
    some (record { code = error; reasons = err ∷ []; err = some err; plugin = [] })

abbrev pub code_of : Option Status → Code
code_of none = success
code_of (some s) = s.code

abbrev pub is_success_code : Code → Bool
is_success_code success = true
is_success_code _ = false

abbrev pub is_success : Option Status → Bool
is_success s = is_success_code (code_of s)

unfoldable pub message : Option Status → Text
unfolding join
message none = []
message (some s) = if length s.reasons == 0 then code_string s.code else join (codes ", ") s.reasons

-- The codes that stand for no error.
abbrev pub is_quiet : Code → Bool
is_quiet success = true
is_quiet skip = true
is_quiet _ = false

unfoldable pub status_err : Option Status → Option Text
unfolding message
status_err none = none
status_err (some s) = elim s.err [
  | some e ↦ some e
  | none ↦
      if is_quiet s.code
      then none
      else some (
          codes "plugin \""
          ++ (s.plugin
              ++ (codes "\" returned status "
                  ++ (code_string s.code ++ (codes ": " ++ message (some s))))))
]

unfoldable pub with_plugin : Text → Option Status → Option Status
with_plugin name none = none
with_plugin name (some s) = some (record s { plugin = name })

abbrev pub as_error : Option Status → Option Text
as_error s = status_err s
