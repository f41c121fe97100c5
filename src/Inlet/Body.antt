-- ===== src/Inlet/Body.antt =====
-- CheckSchema, ValidatePayload and ValidateAnswer in internal/inlet/schema.go. A JSON text is
-- decoded by `decode`, which is nothing where json.Decoder.Decode fails and else the first value of
-- the text and what the decoder has not read of it. A text is the code points of the bytes.
use cogitorium.Prelude.{
  ◌==◌, ◌||◌, not, ℕ, ◌+◌, Bool, false, Option, none, some, [], ◌∷◌, ltb, if◌then◌else◌, Text,
  is_empty, trim_space,
}
use cogitorium.Inlet.Json.{Value, object, Fields}
use cogitorium.Inlet.Schema.{
  schema_unreadable, body_too_large, body_empty, body_not_json, body_has_more, Check, refused,
  check_schema,
}
use cogitorium.Inlet.Validate.{Floats, validate}

abbrev pub max_json_payload : ℕ
max_json_payload = 1048576

-- the bytes of a code point in UTF-8, and of a text
abbrev pub rune_width : ℕ → ℕ
rune_width c = if ltb c 0x80 then 1 else if ltb c 0x800 then 2 else if ltb c 0x10000 then 3 else 4

unfoldable pub byte_length : Text → ℕ
byte_length [] = 0
byte_length (c ∷ s) = rune_width c + byte_length s

abbrev object_in : Option (Value × Text) → Option Fields
object_in (some (object fs, rest)) = some fs
object_in _ = none

abbrev pub checked_node : Option Fields → Check
checked_node none = refused schema_unreadable
checked_node (some node) = check_schema node

-- json.Decoder.More at what is not read yet: it looks past the spaces, and says no at the end, at a
-- closing bracket and at a closing brace
abbrev pub is_json_space : ℕ → Bool
is_json_space c = c == b' ' || c == b'\t' || c == b'\n' || c == b'\r'

unfoldable pub more : Text → Bool
more [] = false
more (c ∷ s) = let later = more s in if is_json_space c then later else not (c == b']' || c == b'}')

module _ (decode : Text → Option (Value × Text)) where
  unfoldable pub decode_object : Text → Option Fields
  decode_object raw = object_in (decode raw)

  -- CheckSchema
  unfoldable pub check_schema_text : Text → Check
  unfolding decode_object
  check_schema_text raw = checked_node (decode_object raw)

module _ (F : Floats) where
  abbrev pub against : Option Fields → Value → Check
  against none v = refused schema_unreadable
  against (some node) v = validate F node v

  module _ (decode : Text → Option (Value × Text)) where
    abbrev pub one_document : Text → Option (Value × Text) → Check
    one_document schema none = refused body_not_json
    one_document schema (some (v, rest)) =
        if more rest then refused body_has_more else against (decode_object decode schema) v

    unfoldable pub validate_answer : Text → Text → Check
    unfolding decode_object trim_space more
    validate_answer schema answer =
        if is_empty (trim_space answer)
        then refused body_empty
        else one_document schema (decode answer)

    unfoldable pub validate_payload : Text → Text → Check
    unfolding decode_object trim_space byte_length more
    validate_payload schema body =
        if ltb max_json_payload (byte_length body)
        then refused body_too_large
        else if is_empty (trim_space body)
        then refused body_empty
        else one_document schema (decode body)
