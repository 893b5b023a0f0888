-- ===== src/AgUiGateway/Models.antt =====
-- services/ag_ui_gateway/ag_ui_gateway/models.py, with the functions on texts and values that the
-- gateway takes from Python.
use Prim.Native.String.{[], ◌∷◌}
use user_delegated_auth_serv.Base.{Char, String, Bool, Option, List, [], ◌∷◌, Exception}
use user_delegated_auth_serv.Json.{
  Json, null, str, arr, obj, Items, nil, cons, Fields, field, nullable,
}

-- `content: str | list[dict[str, Any]] | None`
pub data Content : Type 0 where
  no_content : Content
  text : String → Content
  parts : List Fields → Content

-- A message, with the fields that the model allows besides its own.
pub record AgUiMessage : Type 0 where
  pub role : Option String
  pub content : Content
  pub extra : Fields

pub record RunAgentInput : Type 0 where
  pub thread_id : String
  pub run_id : String
  pub messages : List AgUiMessage
  pub state : Fields

-- `str.lower` of a text, `str.isalnum` of a character, `str` of a value, and `str` of an exception.
pub record Python : Type 0 where
  pub lower : String → String
  pub is_alnum : Char → Bool
  pub str_of : Json → String
  pub str_exception : Exception → String

dump_parts : List Fields → Items
dump_parts [] = nil
dump_parts (part ∷ rest) = cons (obj part) (dump_parts rest)

dump_content : Content → Json
unfolding dump_parts
dump_content no_content = null
dump_content (text s) = str s
dump_content (parts ps) = arr (dump_parts ps)

-- `message.model_dump(mode="json")`
unfoldable pub dump_message : AgUiMessage → Fields
unfolding dump_content
dump_message message =
    field "role" (nullable message.role)
      (field "content" (dump_content message.content) message.extra)

unfoldable pub dump_messages : List AgUiMessage → Items
unfolding dump_message
dump_messages [] = nil
dump_messages (message ∷ rest) = cons (obj (dump_message message)) (dump_messages rest)
