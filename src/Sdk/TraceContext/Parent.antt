-- ===== src/Sdk/TraceContext/Parent.antt =====
-- The `traceparent` header in sdks/typescript/src/trace-context.ts.
use raceway.Prelude.{
  ℕ, Bool, ◌&&◌, ◌||◌, not, List, [], ◌∷◌, ◌++◌, map, Option, none, some, nat_eq, length, all,
  if◌then◌else◌,
}
use raceway.Text.{Text, is_truthy, slice, pad_start, remove_all}
use raceway.Text.Split.{split, trim}
use raceway.Text.Hex.{is_hex_digit, lower}

unfoldable pub is_hex : Text → ℕ → Bool
is_hex value expected_length =
    nat_eq (length value) expected_length && (is_truthy value && all is_hex_digit value)

unfoldable pub uuid_to_trace_parent : Text → Text
uuid_to_trace_parent uuid = slice 0 32 (pad_start 32 b'0' (remove_all b'-' uuid))

unfoldable pub trace_parent_to_uuid : Text → Text
trace_parent_to_uuid hex =
    slice 0 8 hex
    ++ b'-'
      ∷ (slice 8 12 hex
          ++ b'-' ∷ (slice 12 16 hex ++ b'-' ∷ (slice 16 20 hex ++ b'-' ∷ slice 20 32 hex)))

pub record ParsedTraceParent : Type 0 where
  pub trace_id : Text
  pub parent_span_id : Text

-- `parts.length !== 4` is the last clause; after `isHex` the text is ASCII, so `lower` is
-- toLowerCase
parse_parts : List Text → Option ParsedTraceParent
parse_parts (version ∷ trace_id_hex ∷ span_id_hex ∷ flags ∷ []) =
    if not (is_hex trace_id_hex 32) || not (is_hex span_id_hex 16)
    then none
    else some (record {
      trace_id = trace_parent_to_uuid trace_id_hex;
      parent_span_id = map lower span_id_hex;
    })
parse_parts _ = none

unfoldable pub parse_trace_parent : Text → Option ParsedTraceParent
unfolding parse_parts
parse_trace_parent value = parse_parts (split b'-' (trim value))
