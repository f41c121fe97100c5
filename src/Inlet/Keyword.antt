-- ===== src/Inlet/Keyword.antt =====
-- The keywords of a schema that internal/inlet/schema.go enforces.
use cogitorium.Prelude.{Text, codes}

abbrev pub type : Text
type = codes "type"

abbrev pub enum : Text
enum = codes "enum"

abbrev pub properties : Text
properties = codes "properties"

abbrev pub required : Text
required = codes "required"

abbrev pub additional : Text
additional = codes "additionalProperties"

abbrev pub items : Text
items = codes "items"

abbrev pub min_items : Text
min_items = codes "minItems"

abbrev pub max_items : Text
max_items = codes "maxItems"

abbrev pub min_length : Text
min_length = codes "minLength"

abbrev pub max_length : Text
max_length = codes "maxLength"

abbrev pub minimum : Text
minimum = codes "minimum"

abbrev pub maximum : Text
maximum = codes "maximum"
