-- ===== src/Ingestion/SplitCsvLine.antt =====
-- One CSV line into its fields (src/modules/ingestion/domain/split-csv-line.ts).
pub mod RoundTrip
use promotion_management_api.Base.{ℕ, Bool, true, false, List, [], ◌∷◌, ◌++◌, ◌==◌, if◌then◌else◌}
use promotion_management_api.Base.Texts.{Text}

-- The loop over `line`, with what it has pushed, the open field and the quote flag. A doubled
-- quote consumes two characters.
unfoldable pub split_from : List Text → Text → Bool → Text → List Text
split_from fields field quoted [] = fields ++ field ∷ []
split_from fields field true (char ∷ []) =
    let kept = split_from fields (field ++ char ∷ []) true [] in
    let closed = split_from fields field false [] in if char == b'"' then closed else kept
split_from fields field true (char ∷ next ∷ line) =
    let kept = split_from fields (field ++ char ∷ []) true (next ∷ line) in
    let doubled = split_from fields (field ++ b'"' ∷ []) true line in
    let closed = split_from fields field false (next ∷ line) in
    if char == b'"' then (if next == b'"' then doubled else closed) else kept
split_from fields field false (char ∷ line) =
    let opened = split_from fields field true line in
    let pushed = split_from (fields ++ field ∷ []) [] false line in
    let kept = split_from fields (field ++ char ∷ []) false line in
    if char == b'"' then opened else (if char == b',' then pushed else kept)

unfoldable pub split_csv_line : Text → List Text
unfolding split_from
split_csv_line line = split_from [] [] false line
