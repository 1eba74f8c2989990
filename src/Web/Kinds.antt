-- ===== src/Web/Kinds.antt =====
-- web/src/lib/event-utils.ts: what is shown of the kind of an event, and the tests on kinds. A kind
-- is an object or a string, and the URL of a request is a string. The parsing of URLs and the conversion of a value to a
-- string are parameters.
pub mod Urls
use raceway.Prelude.{
  ℕ, ◌+◌, ◌-◌, ltb, leb, max, Bool, true, false, not, ◌&&◌, ◌||◌, List, [], ◌∷◌, ◌++◌, Option, none,
  some, take, length, if◌then◌else◌,
}
use raceway.Text.{Text, codes, ◌==◌, slice}
use raceway.Json.{
  Json, null, bool, num, str, arr, obj, Items, nil, cons, Fields, end, field, field_value, truthy,
  member,
}

pub data Kind : Type 0 where
  named : Text → Kind
  fields : Fields → Kind

pub record ParsedEventKind : Type 0 where
  pub display : Text
  pub category : Text

-- new URL(url), with what is read of it, or none where it throws; and `${value}`
pub record Browser : Type 0 where
  pub parse_url : Text → Option (Text × Text)
  pub to_text : Json → Text

abbrev pub ellipsis : Text
ellipsis = b'.' ∷ b'.' ∷ b'.' ∷ []

-- s.length > n ? s.substring(0, n) + '...' : s
unfoldable pub shorten : ℕ → Text → Text
shorten n s = if ltb n (length s) then take n s ++ ellipsis else s

module _ (browser : Browser) where
  unfoldable pub truncate_url : Text → ℕ → Text
  unfolding shorten
  truncate_url url max_length = elim (browser.parse_url url) [
    | none ↦ shorten max_length url
    | some (path, []) ↦ shorten max_length path
    | some (path, c ∷ search) ↦
        let path_part = shorten 30 path in
        let remaining_length = max_length - length path_part in
        if leb (length path_part + length (c ∷ search)) max_length
        then path_part ++ (c ∷ search)
        else path_part ++ (take (max 10 (remaining_length - 3)) (c ∷ search) ++ ellipsis)
  ]

  -- a || b, for a property that may be missing and a text
  unfoldable pub text_or : Option Json → Text → Text
  unfolding truthy
  text_or none default = default
  text_or (some v) default = if truthy (some v) then browser.to_text v else default

  -- typeof value === 'object' && value !== null
  abbrev pub is_object : Json → Bool
  is_object (obj fs) = true
  is_object (arr items) = true
  is_object _ = false

  -- Object.keys(value)[0]
  abbrev pub first_key : Json → Option Text
  first_key (obj (field key v rest)) = some key
  first_key (arr (cons v rest)) = some (b'0' ∷ [])
  first_key _ = none

  abbrev pub lock_text : Text → Json → Text
  unfolding text_or member codes
  lock_text key value =
      key
      ++ (codes " | "
          ++ (text_or (member (codes "lock_type") value) (codes "Mutex")
              ++ (codes " | " ++ text_or (member (codes "lock_id") value) (codes "unknown"))))

  -- Everything after the test that the value is an object
  unfoldable pub parse_object : Text → Json → ParsedEventKind
  unfolding text_or member codes truthy truncate_url
  parse_object key value =
      if key == codes "StateChange" && truthy (member (codes "access_type") value)
      then record {
        display = codes "StateChange | " ++ text_or (member (codes "access_type") value) [];
        category = codes "StateChange:" ++ text_or (member (codes "access_type") value) [];
      }
      else if key == codes "HttpRequest"
      then record {
        display =
            codes "HttpRequest | "
            ++ (text_or (member (codes "method") value) (codes "GET")
                ++ (codes " "
                    ++ truncate_url
                        (text_or (member (codes "url") value)
                          (text_or (member (codes "path") value) (codes "unknown")))
                        50));
        category = codes "HttpRequest";
      }
      else if key == codes "HttpResponse"
      then record {
        display =
            codes "HttpResponse | "
            ++ text_or (member (codes "status") value)
                (text_or (member (codes "status_code") value) (codes "200"));
        category = codes "HttpResponse";
      }
      else if key == codes "FunctionCall"
      then record {
        display =
            codes "FunctionCall | "
            ++ text_or (member (codes "function_name") value)
                (text_or (member (codes "name") value) (codes "unknown"));
        category = codes "FunctionCall";
      }
      else if key == codes "LockAcquire" || key == codes "LockRelease"
      then record { display = lock_text key value; category = key }
      else elim (first_key value) [
        | none ↦ record { display = key; category = key }
        | some sub ↦ record { display = key ++ (codes "::" ++ sub); category = key }
      ]

  unfoldable pub parse_event_kind : Kind → ParsedEventKind
  unfolding parse_object codes
  parse_event_kind (named kind) = record { display = kind; category = kind }
  parse_event_kind (fields end) = record { display = codes "Unknown"; category = codes "Unknown" }
  parse_event_kind (fields (field key value rest)) =
      if is_object value then parse_object key value else record { display = key; category = key }

  abbrev pub get_event_kind_string : Kind → Text
  unfolding parse_event_kind
  get_event_kind_string kind = (parse_event_kind kind).display

  abbrev pub get_event_category : Kind → Text
  unfolding parse_event_kind
  get_event_category kind = (parse_event_kind kind).category

-- kind === name, or name in kind
unfoldable pub is_kind : Text → Kind → Bool
unfolding field_value
is_kind name (named kind) = kind == name
is_kind name (fields fs) = elim (field_value name fs) [ none ↦ false | some v ↦ true ]

abbrev pub is_state_change_event : Kind → Bool
unfolding is_kind codes
is_state_change_event kind = is_kind (codes "StateChange") kind

abbrev pub is_http_event : Kind → Bool
unfolding is_kind codes
is_http_event kind = is_kind (codes "HttpRequest") kind || is_kind (codes "HttpResponse") kind

abbrev pub is_lock_event : Kind → Bool
unfolding is_kind codes
is_lock_event kind = is_kind (codes "LockAcquire") kind || is_kind (codes "LockRelease") kind

abbrev pub is_function_call_event : Kind → Bool
unfolding is_kind codes
is_function_call_event kind = is_kind (codes "FunctionCall") kind

-- `null` is none.
unfoldable pub extract_event_kind_details : Kind → Option Json
extract_event_kind_details (named kind) = none
extract_event_kind_details (fields end) = none
extract_event_kind_details (fields (field key value rest)) = some value

-- The details under a name, where they are an object
unfoldable pub details_of : Text → Kind → Option Json
unfolding field_value
details_of name (named kind) = none
details_of name (fields fs) = elim (field_value name fs) [
  | some (obj details) ↦ some (obj details)
  | some (arr items) ↦ some (arr items)
  | _ ↦ none
]

-- a || b among values
unfoldable pub value_or : Option Json → Option Json → Option Json
unfolding truthy
value_or a b = if truthy a then a else b

unfoldable pub get_http_method : Kind → Option Json
unfolding details_of value_or member codes
get_http_method kind = elim (details_of (codes "HttpRequest") kind) [
  | none ↦ none
  | some details ↦ value_or (member (codes "method") details) (some (str (codes "GET")))
]

unfoldable pub get_http_status : Kind → Option Json
unfolding details_of value_or member codes
get_http_status kind = elim (details_of (codes "HttpResponse") kind) [
  | none ↦ none
  | some details ↦
      value_or (member (codes "status") details)
        (value_or (member (codes "status_code") details) (some (num 200)))
]

unfoldable pub get_variable_name : Kind → Option Json
unfolding details_of value_or member codes
get_variable_name kind = elim (details_of (codes "StateChange") kind) [
  | none ↦ none
  | some details ↦ value_or (member (codes "variable") details) none
]

unfoldable pub get_lock_id : Kind → Option Json
unfolding value_or member field_value codes
get_lock_id (named kind) = none
get_lock_id (fields fs) =
    elim (value_or (field_value (codes "LockAcquire") fs) (field_value (codes "LockRelease") fs)) [
      | some (obj details) ↦ value_or (member (codes "lock_id") (obj details)) none
      | _ ↦ none
    ]
