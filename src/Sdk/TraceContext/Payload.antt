-- ===== src/Sdk/TraceContext/Payload.antt =====
-- The `raceway-clock` header in sdks/typescript/src/trace-context.ts.
-- `JSON` and `Buffer` are the platform's: the fields of `Codec`.
use raceway.Prelude.{not, [], ◌∷◌, Option, none, some, length, drop, if◌then◌else◌}
use raceway.Text.{Text, codes, ◌==◌, starts_with}
use raceway.Json.{Json, null, num, str, arr, obj, Items, nil, cons, Fields, end, field}
use raceway.Sdk.Types.{ClockVector}

abbrev pub clock_version_prefix : Text
clock_version_prefix = codes "v1;"

-- JSON.stringify and JSON.parse (`none` where it throws); Buffer's UTF-8 and base64url
pub record Codec : Type 0 where
  pub stringify : Json → Text
  pub parse : Text → Option Json
  pub encode_base64_url : Text → Text
  pub decode_base64_url : Text → Text

pub record ClockPayload : Type 0 where
  pub trace_id : Option Text
  pub span_id : Option Text
  pub parent_span_id : Option Text
  pub clock_vector : ClockVector

-- typeof v === 'string' ? v : null
abbrev pub string_or_null : Option Json → Option Text
string_or_null (some (str s)) = some s
string_or_null _ = none

unfoldable pub field_of : Text → Fields → Option Json
field_of key end = none
field_of key (field k v fs) = if k == key then some v else field_of key fs

-- the filter and the map of `payload.clock`
unfoldable pub clock_items : Items → ClockVector
clock_items nil = []
clock_items (cons (arr (cons (str id) (cons (num value) nil))) items) =
    (id, value) ∷ clock_items items
clock_items (cons item items) = clock_items items

clock_of : Option Json → ClockVector
clock_of (some (arr items)) = clock_items items
clock_of _ = []

payload_fields : Fields → ClockPayload
payload_fields fs = record {
  trace_id = string_or_null (field_of (codes "trace_id") fs);
  span_id = string_or_null (field_of (codes "span_id") fs);
  parent_span_id = string_or_null (field_of (codes "parent_span_id") fs);
  clock_vector = clock_of (field_of (codes "clock") fs);
}

-- A property of null throws; one of a number, a text, a Boolean or an array is undefined.
read_payload : Json → Option ClockPayload
read_payload null = none
read_payload (obj fs) = some (payload_fields fs)
read_payload _ = some (payload_fields end)

read_parsed : Option Json → Option ClockPayload
read_parsed none = none
read_parsed (some payload) = read_payload payload

unfoldable pub clock_json : ClockVector → Items
clock_json [] = nil
clock_json ((id, value) ∷ vector) =
    cons (arr (cons (str id) (cons (num value) nil))) (clock_json vector)

module _ (codec : Codec) where
  unfoldable pub parse_raceway_clock : Text → Option ClockPayload
  unfolding read_parsed read_payload payload_fields clock_of clock_items
  parse_raceway_clock value =
      if not (starts_with value clock_version_prefix)
      then none
      else read_parsed
          (codec.parse (codec.decode_base64_url (drop (length clock_version_prefix) value)))
