-- ===== src/Request/Context/Types.antt =====
-- The data of a request (context.go: ServerContext, APIResponse; model.go: FieldMeta, ModelMeta;
-- config.go: TraceConfig).
use maniflex.Prelude.{ℕ, String, Bool, Option, none, some, List, [], ◌∷◌, str_eq, if◌then◌else◌}
use maniflex.Request.Operation.{Operation}
use maniflex.Request.Context.Map.{Map}

-- reflect.Kind, as far as the write-through tells kinds apart.
pub data Kind : Type 0 where
  nilable numeric plain : Kind

-- reflect.Type: its name and its kind.
pub record GoType : Type 0 where
  pub name : String
  pub kind : Kind

-- A value that is not nil.
pub record GoValue : Type 0 where
  pub type_of : GoType
  pub text : String

-- `any`: `none` is nil.
abbrev pub Any : Type 0
Any = Option GoValue

-- The tags of a field that decide what a client may write and what a reply may show.
pub record FieldMeta : Type 0 where
  pub json_name : String
  pub db_name : String
  pub go_type : GoType
  pub readonly : Bool
  pub immutable : Bool
  pub hidden : Bool
  pub write_only : Bool
  pub encrypted : Bool

pub record ModelMeta : Type 0 where
  pub name : String
  pub fields : List FieldMeta

-- The index keeps the first field of a name.
unfoldable pub field_by_json_name : List FieldMeta → String → Option FieldMeta
field_by_json_name [] name = none
field_by_json_name (f ∷ fs) name =
    if str_eq f.json_name name then some f else field_by_json_name fs name

-- The typed record that Deserialize binds: a value for each column, and the present set.
pub record TypedRecord : Type 0 where
  pub slots : Map Any
  pub present : Map (Unit {0})

pub record ApiResponse : Type 0 where
  pub status_code : ℕ
  pub code : String
  pub message : String

pub record TraceConfig : Type 0 where
  pub steps : Bool
  pub skips : Bool
  pub aborts : Bool

pub data LogRecord : Type 0 where
  skipped : String → String → LogRecord
  enter : String → String → LogRecord
  exit : String → String → Option (ℕ × String × String) → LogRecord

-- `rest` stands for the fields that no modelled operation reads or writes.
pub record ServerContext (D : Type 0) : Type 0 where
  pub model : Option ModelMeta
  pub operation : Operation
  pub parsed_body : Option (Map Any)
  pub bound_record : Option TypedRecord
  pub server_set : Map Any
  pub response : Option ApiResponse
  pub abort_site : String
  pub log : List LogRecord
  pub rest : D
