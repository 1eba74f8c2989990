-- ===== src/Sdk/TraceContext/UuidHex.antt =====
-- `uuidToTraceParent` and `traceParentToUuid` of sdks/typescript/src/trace-context.ts undo one
-- another.
use raceway.Prelude.{ℕ, ◌≡◌, ◌∙◌, true, ◌∷◌, ◌++◌, arith, length, length-append, drop, All-append}
use raceway.Text.{Text, remove_all}
use raceway.Text.Hex.{is_hex_digit, IsHexText, IsHexText-Lacks}
use raceway.Text.Slices.{
  take_exact, take_all, drop_skip, pad_start_full, remove_all-append, remove_all-Lacks,
  remove_all_self,
}
use raceway.Sdk.TraceContext.Parent.{uuid_to_trace_parent, trace_parent_to_uuid}

-- The five groups of hexadecimal digits of a UUID.
pub record UuidParts : Type 0 where
  pub time_low : Text
  pub time_mid : Text
  pub time_high : Text
  pub clock_seq : Text
  pub node : Text

abbrev pub uuid_text : UuidParts → Text
uuid_text p =
    p.time_low
    ++ b'-' ∷ (p.time_mid ++ b'-' ∷ (p.time_high ++ b'-' ∷ (p.clock_seq ++ b'-' ∷ p.node)))

abbrev pub hex_text : UuidParts → Text
hex_text p = p.time_low ++ (p.time_mid ++ (p.time_high ++ (p.clock_seq ++ p.node)))

-- 8, 4, 4, 4 and 12 digits
pub record IsUuid (p : UuidParts) : Type 0 where
  pub low_length : length p.time_low ≡ 8
  pub mid_length : length p.time_mid ≡ 4
  pub high_length : length p.time_high ≡ 4
  pub seq_length : length p.clock_seq ≡ 4
  pub node_length : length p.node ≡ 12
  pub low_hex : IsHexText p.time_low
  pub mid_hex : IsHexText p.time_mid
  pub high_hex : IsHexText p.time_high
  pub seq_hex : IsHexText p.clock_seq
  pub node_hex : IsHexText p.node

pub hex_text-IsHexText : (p : UuidParts) → IsUuid p → IsHexText (hex_text p)
hex_text-IsHexText p u =
    let P = λ (c : ℕ). is_hex_digit c ≡ true in
    All-append P p.time_low _ u.low_hex (
      All-append P p.time_mid _ u.mid_hex (
        All-append P p.time_high _ u.high_hex
          (All-append P p.clock_seq p.node u.seq_hex u.node_hex)))

pub length-hex_text : (p : UuidParts) → IsUuid p → length (hex_text p) ≡ 32
length-hex_text p u = omega (
  arith,
  u.low_length,
  length-append p.time_low (p.time_mid ++ (p.time_high ++ (p.clock_seq ++ p.node))),
  length-append p.time_mid (p.time_high ++ (p.clock_seq ++ p.node)),
  length-append p.time_high (p.clock_seq ++ p.node),
  length-append p.clock_seq p.node,
)

remove_all-group :
    (s t r : Text) → IsHexText s → remove_all b'-' t ≡ r → remove_all b'-' (s ++ b'-' ∷ t) ≡ s ++ r
remove_all-group s t r h e =
    rw (remove_all-append, remove_all-Lacks b'-' s (IsHexText-Lacks s h), remove_all_self, e)

remove_all-uuid_text : (p : UuidParts) → IsUuid p → remove_all b'-' (uuid_text p) ≡ hex_text p
remove_all-uuid_text p u = remove_all-group _ _ _ u.low_hex (
    remove_all-group _ _ _ u.mid_hex (
      remove_all-group _ _ _ u.high_hex (
        remove_all-group _ _ _ u.seq_hex
          (remove_all-Lacks b'-' p.node (IsHexText-Lacks p.node u.node_hex)))))

-- The trace id of a traceparent header is the UUID without its dashes.
pub uuid_to_trace_parent-uuid_text :
    (p : UuidParts) → IsUuid p → uuid_to_trace_parent (uuid_text p) ≡ hex_text p
unfolding uuid_to_trace_parent
uuid_to_trace_parent-uuid_text p u =
    let n = length-hex_text p u in
    rw (remove_all-uuid_text p u, pad_start_full 32 b'0' (hex_text p) n)
      (take_all 32 (hex_text p) n)

module _ (p : UuidParts) (u : IsUuid p) where
  open p use {time_low, time_mid, time_high, clock_seq, node}

  drop_low : drop 8 (hex_text p) ≡ time_mid ++ (time_high ++ (clock_seq ++ node))
  drop_low = drop_skip 8 0 time_low _ u.low_length

  drop_mid : drop 12 (hex_text p) ≡ time_high ++ (clock_seq ++ node)
  drop_mid = drop_skip 8 4 time_low _ u.low_length ∙ drop_skip 4 0 time_mid _ u.mid_length

  drop_high : drop 16 (hex_text p) ≡ clock_seq ++ node
  drop_high =
      drop_skip 8 8 time_low _ u.low_length
      ∙ drop_skip 4 4 time_mid _ u.mid_length
      ∙ drop_skip 4 0 time_high _ u.high_length

  drop_seq : drop 20 (hex_text p) ≡ node
  drop_seq =
      drop_skip 8 12 time_low _ u.low_length
      ∙ drop_skip 4 8 time_mid _ u.mid_length
      ∙ drop_skip 4 4 time_high _ u.high_length
      ∙ drop_skip 4 0 clock_seq _ u.seq_length

  pub trace_parent_to_uuid-hex_text : trace_parent_to_uuid (hex_text p) ≡ uuid_text p
  unfolding trace_parent_to_uuid
  trace_parent_to_uuid-hex_text =
      rw (drop_low, drop_mid, drop_high, drop_seq)
        (rw (
          take_exact 8 time_low (time_mid ++ (time_high ++ (clock_seq ++ node))) u.low_length,
          take_exact 4 time_mid (time_high ++ (clock_seq ++ node)) u.mid_length,
          take_exact 4 time_high (clock_seq ++ node) u.high_length,
          take_exact 4 clock_seq node u.seq_length,
          take_all 12 node u.node_length,
        ))

-- A UUID survives the way into a traceparent header and back.
trace_parent_to_uuid-uuid_to_trace_parent :
    (p : UuidParts)
    → IsUuid p
    → trace_parent_to_uuid (uuid_to_trace_parent (uuid_text p)) ≡ uuid_text p
trace_parent_to_uuid-uuid_to_trace_parent p u =
    rw (uuid_to_trace_parent-uuid_text p u) (trace_parent_to_uuid-hex_text p u)
