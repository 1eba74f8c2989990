-- ===== src/Web/Csv.antt =====
-- `exportToCSV` of web/src/lib/export.ts, up to the text of the file.
pub mod Quotes
use raceway.Prelude.{List, [], ◌∷◌, ◌++◌, Option, none, some, map}
use raceway.Text.{Text, codes}
use raceway.Json.{Json, Fields, end, field}
use raceway.Web.Types.{Event}

-- texts.join(separator)
unfoldable pub join : Text → List Text → Text
join separator [] = []
join separator (s ∷ []) = s
join separator (s ∷ t ∷ rest) = s ++ (separator ++ join separator (t ∷ rest))

-- `"${cell}"`
unfoldable pub quoted : Text → Text
quoted cell = b'"' ∷ (cell ++ b'"' ∷ [])

-- A missing value is written as `undefined`.
unfoldable pub or_undefined : Option Text → Text
unfolding codes
or_undefined none = codes "undefined"
or_undefined (some s) = s

-- Object.keys(kind)[0]
unfoldable pub first_key : Fields → Option Text
first_key end = none
first_key (field k v rest) = some k

unfoldable pub cells : Event → List Text
unfolding or_undefined first_key
cells event =
    event.id
    ∷ event.timestamp
    ∷ or_undefined (first_key event.kind)
    ∷ event.metadata.thread_id
    ∷ event.metadata.service_name
    ∷ event.metadata.environment
    ∷ or_undefined event.metadata.location
    ∷ []

headers : List Text
unfolding codes
headers =
    codes "ID"
    ∷ codes "Timestamp"
    ∷ codes "Kind"
    ∷ codes "Thread ID"
    ∷ codes "Service Name"
    ∷ codes "Environment"
    ∷ codes "Location"
    ∷ []

unfoldable pub csv_row : List Text → Text
unfolding join quoted
csv_row row = join (b',' ∷ []) (map quoted row)

unfoldable pub export_to_csv : List Event → Text
unfolding headers join csv_row cells
export_to_csv events =
    join (b'\n' ∷ []) (join (b',' ∷ []) headers ∷ map (λ e. csv_row (cells e)) events)
