-- ===== src/Logging/Fields.antt =====
-- The fields of a printed record, and the handlers that print it.
use fusedrive_filesystem.Base.{
  List, ◌++◌, ℕ, inr, inl, Option-cases, lookup-insert, insert, text_beq_iff, ◌∷◌, [], arith, some,
  none, ◌==◌, if◌then◌else◌, Option, Distinct, Dict, lookup, Text, codes, text_eq, ◌≡◌, refl,
}
use fusedrive_filesystem.Logging.{
  json_stream, Handler, LogRecord, Library, is_excluded, add_attributes, first_fields, log_record,
  RootLogger, setup_json_logger, clear_handlers,
}

-- What a key of the attributes stands for: the value, unless the key is excluded.
abbrev pub attribute : {V E : Type 0} → LogRecord V E → Text → Option V
attribute r key = if is_excluded key then none else lookup key r.attributes

-- The value under a key, without the order of the insertions.
unfoldable pub field : {V E : Type 0} → Library V E → LogRecord V E → Text → Option V
field library r key = elim (if key == codes "exc_info" then r.exc_info else none) [
  | some e ↦ some (library.text_value (library.format_exception e))
  | none ↦ elim (attribute r key) [
    | some value ↦ some value
    | none ↦ lookup key (first_fields library r)
  ]
]

lookup-add_attributes :
    {V : Type 0} (key : Text) (attributes fields : Dict Text V)
    → Distinct attributes
    → lookup key (add_attributes attributes fields)
      ≡ elim (if is_excluded key then none else lookup key attributes) as (λ x. Option V) [
        | some value ↦ some value
        | none ↦ lookup key fields
      ]
unfolding lookup add_attributes
lookup-add_attributes key [] fields d = ground arith
lookup-add_attributes key ((k, v) ∷ rest) fields d = ground (
  arith,
  text_beq_iff k key,
  lookup-add_attributes key rest fields d.1,
  lookup-add_attributes key rest (insert k v fields) d.1,
  lookup-insert key k v fields,
)

-- For a record without a doubled attribute, the printed fields hold under every key what `field`
-- says: the formatted exception under `exc_info` where there is one, or else an attribute whose
-- key is not excluded, or else one of the four first fields.
pub log_record-field :
    {V E : Type 0} (library : Library V E) (r : LogRecord V E) (key : Text)
    → Distinct r.attributes
    → lookup key (log_record library r) ≡ field library r key
unfolding log_record field
log_record-field library r key d = elim (Option-cases r.exc_info) [
  | inl absent ↦
      rw absent (ground (arith, lookup-add_attributes key r.attributes (first_fields library r) d))
  | inr (e, set) ↦ rw set (
      ground (
        arith,
        text_beq_iff key (codes "exc_info"),
        text_beq_iff (codes "exc_info") key,
        lookup-insert key (codes "exc_info") (library.text_value (library.format_exception e))
            (add_attributes r.attributes (first_fields library r)),
        lookup-add_attributes key r.attributes (first_fields library r) d,
      ))
]

cleared :
    {H : Type 0} (level : ℕ) (handlers : List (Handler H))
    → clear_handlers (record { level = level; handlers = handlers })
      ≡ record { level = level; handlers = [] }
unfolding clear_handlers
cleared level [] = refl
cleared level (h ∷ handlers) = refl

-- Whatever was set up before, one handler is left, with the last level.
pub setup_again :
    {H : Type 0} (name other : Text) (level before : ℕ) (root : RootLogger H)
    → setup_json_logger name level (setup_json_logger other before root).1
      ≡ setup_json_logger name level root
unfolding setup_json_logger
setup_again name other level before root =
    let again = (clear_handlers (record root { level = before })).handlers ++ json_stream ∷ [] in
    rw (setup_json_logger, cleared level again, cleared level root.handlers) refl
