-- ===== src/Logging.antt =====
-- src/monitoring/logging/logger.py: `JsonFormatter` and `setup_json_logger`, over the `logging`
-- module of the standard library.
pub mod Fields
use fusedrive_filesystem.Base.{
  Bool, codes, ◌∷◌, [], text_eq, mem, insert, if◌then◌else◌, none, some, Dict, Text, Option, List,
  ℕ, ◌++◌,
}

-- What a formatter reads of a record: `exc_info` is none also where it does not count as true, and
-- `attributes` is `__dict__`.
pub record LogRecord (V E : Type 0) : Type 0 where
  pub levelname : Text
  pub name : Text
  pub message : Text
  pub exc_info : Option E
  pub attributes : Dict Text V

-- `formatTime`, `formatException`, a text as a value, and `json.dumps`: none where it raises.
pub record Library (V E : Type 0) : Type 0 where
  pub format_time : LogRecord V E → Text
  pub format_exception : E → Text
  pub text_value : Text → V
  pub dumps : Dict Text V → Option Text

abbrev pub excluded : List Text
excluded =
    codes "args"
    ∷ codes "asctime"
    ∷ codes "created"
    ∷ codes "exc_info"
    ∷ codes "exc_text"
    ∷ codes "filename"
    ∷ codes "funcName"
    ∷ codes "levelname"
    ∷ codes "levelno"
    ∷ codes "lineno"
    ∷ codes "module"
    ∷ codes "msecs"
    ∷ codes "message"
    ∷ codes "msg"
    ∷ codes "name"
    ∷ codes "pathname"
    ∷ codes "process"
    ∷ codes "processName"
    ∷ codes "relativeCreated"
    ∷ codes "stack_info"
    ∷ codes "thread"
    ∷ codes "threadName"
    ∷ []

unfoldable pub is_excluded : Text → Bool
is_excluded key = mem key excluded

-- The loop over `__dict__`.
unfoldable pub add_attributes : {V : Type 0} → Dict Text V → Dict Text V → Dict Text V
add_attributes [] log_record = log_record
add_attributes ((key, value) ∷ rest) log_record =
    add_attributes rest (if is_excluded key then log_record else insert key value log_record)

module _ {V E : Type 0} (library : Library V E) where
  unfoldable pub first_fields : LogRecord V E → Dict Text V
  first_fields r =
      (codes "timestamp", library.text_value (library.format_time r))
      ∷ (codes "level", library.text_value r.levelname)
      ∷ (codes "message", library.text_value r.message)
      ∷ (codes "logger", library.text_value r.name)
      ∷ []

  -- `log_record` where it is printed.
  unfoldable pub log_record : LogRecord V E → Dict Text V
  log_record r =
      let fields = add_attributes r.attributes (first_fields r) in
      elim r.exc_info [
        | none ↦ fields
        | some e ↦
            insert (codes "exc_info") (library.text_value (library.format_exception e)) fields
      ]

  unfoldable pub format : LogRecord V E → Option Text
  format r = library.dumps (log_record r)

-- A handler of the root logger: the one that is made here, or another.
pub data Handler (H : Type 0) : Type 0 where
  json_stream : Handler H
  other_handler : H → Handler H

pub record RootLogger (H : Type 0) : Type 0 where
  pub level : ℕ
  pub handlers : List (Handler H)

-- `root.handlers.clear()`, for a root that has handlers.
unfoldable pub clear_handlers : {H : Type 0} → RootLogger H → RootLogger H
clear_handlers root = elim root.handlers [ [] ↦ root | _ ∷ _ ↦ record root { handlers = [] } ]

-- The name of the logger that is returned, and the root.
unfoldable pub setup_json_logger : {H : Type 0} → Text → ℕ → RootLogger H → Text × RootLogger H
setup_json_logger name level root =
    let cleared = clear_handlers (record root { level = level }) in
    (name, record cleared { handlers = cleared.handlers ++ json_stream ∷ [] })
