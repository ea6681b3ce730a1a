-- ===== src/Runtime/Message.antt =====
-- internal/hivemind/service/agents/domain/entity/message.go and
-- internal/hivemind/service/agents/domain/service/runtime/message_converter.go.
-- Contents are lists of code points. Of a schema.Message, which the Eino library declares, the model
-- has the fields that the code reads or writes. A role is one of the four names or some other string.
use echoryn.Prelude.{
  Text, Assoc, ℕ, ◌≡◌, refl, Option, none, some, List, [], ◌∷◌, map, Bool, true, false,
}

pub data Role : Type 0 where
  system user assistant tool : Role
  other : Text → Role

pub record ToolCall : Type 0 where
  pub id : Text
  pub name : Text
  pub arguments : Text

pub record Message : Type 0 where
  pub role : Role
  pub content : Text
  pub name : Text
  pub tool_calls : List ToolCall
  pub tool_call_id : Text
  pub metadata : Assoc Text
  pub created_at : ℕ

pub record SchemaMessage : Type 0 where
  pub role : Role
  pub content : Text
  pub name : Text
  pub tool_calls : List ToolCall
  pub tool_call_id : Text

unfoldable pub is_user : Message → Bool
is_user m = elim m.role [ user ↦ true | _ ↦ false ]

-- toSchemaRole and fromSchemaRole, which differ in the types of the strings only.
unfoldable pub to_schema_role : Role → Role
to_schema_role user = user
to_schema_role assistant = assistant
to_schema_role system = system
to_schema_role tool = tool
to_schema_role (other r) = user

unfoldable pub from_schema_role : Role → Role
from_schema_role user = user
from_schema_role assistant = assistant
from_schema_role system = system
from_schema_role tool = tool
from_schema_role (other r) = user

unfoldable pub to_schema_message : Message → SchemaMessage
unfolding to_schema_role
to_schema_message m = record {
  role = to_schema_role m.role;
  content = m.content;
  name = m.name;
  tool_calls = m.tool_calls;
  tool_call_id = m.tool_call_id;
}

abbrev pub to_schema_messages : List Message → List SchemaMessage
to_schema_messages = map to_schema_message

-- The zero time is 0.
unfoldable pub from_schema_message : SchemaMessage → Message
unfolding from_schema_role
from_schema_message m = record {
  role = from_schema_role m.role;
  content = m.content;
  name = m.name;
  tool_calls = m.tool_calls;
  tool_call_id = m.tool_call_id;
  metadata = [];
  created_at = 0;
}

-- A null pointer is dropped.
unfoldable pub from_schema_messages : List (Option SchemaMessage) → List Message
unfolding from_schema_message
from_schema_messages [] = []
from_schema_messages (none ∷ ms) = from_schema_messages ms
from_schema_messages (some m ∷ ms) = from_schema_message m ∷ from_schema_messages ms

-- The four roles, and `user` for another.
abbrev pub role_or_user : Role → Role
role_or_user system = system
role_or_user user = user
role_or_user assistant = assistant
role_or_user tool = tool
role_or_user (other r) = user

from_to_schema_role : (r : Role) → from_schema_role (to_schema_role r) ≡ role_or_user r
unfolding to_schema_role from_schema_role
from_to_schema_role system = refl
from_to_schema_role user = refl
from_to_schema_role assistant = refl
from_to_schema_role tool = refl
from_to_schema_role (other r) = refl

-- What the round trip leaves of a message.
abbrev pub sent_and_read : Message → Message
sent_and_read m = record {
  role = role_or_user m.role;
  content = m.content;
  name = m.name;
  tool_calls = m.tool_calls;
  tool_call_id = m.tool_call_id;
  metadata = [];
  created_at = 0;
}

-- A history that goes to the model and comes back has every message in its place, with its content,
-- name and tool calls, and its role, where that is one of the four; a role that is none of the four is `user` from then on, and the metadata and
-- the time of creation are lost.
pub from_schema_messages-to_schema_messages :
    (ms : List Message)
    → from_schema_messages (map some (to_schema_messages ms)) ≡ map sent_and_read ms
unfolding from_schema_messages to_schema_message from_schema_message
from_schema_messages-to_schema_messages [] = refl
from_schema_messages-to_schema_messages (m ∷ ms) =
    cc (from_to_schema_role m.role, from_schema_messages-to_schema_messages ms)
