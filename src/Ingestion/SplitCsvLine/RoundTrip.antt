-- ===== src/Ingestion/SplitCsvLine/RoundTrip.antt =====
-- Writing fields by RFC 4180 and splitting the line again.
use mathlib.Core.List.{append-nil, append_assoc}
use promotion_management_api.Base.{
  ℕ, ◌≡◌, ◌≢◌, refl, sym, ap, ◌∙◌, Bool, true, false, List, [], ◌∷◌, ◌++◌, map, arith, ◌==◌,
  if◌then◌else◌, All,
}
use promotion_management_api.Base.Texts.{Text}
use promotion_management_api.Ingestion.SplitCsvLine.{split_from, split_csv_line}

-- A field may be written bare or quoted.
pub record Written : Type 0 where
  pub quoted : Bool
  pub field : Text

abbrev pub double_quotes : Text → Text
double_quotes [] = []
double_quotes (c ∷ s) = if c == b'"' then b'"' ∷ b'"' ∷ double_quotes s else c ∷ double_quotes s

abbrev pub IsPlain : Text → Type 0
IsPlain s = All (λ c. (c ≢ b'"') × (c ≢ b',')) s

-- A bare field holds no quote and no comma.
abbrev pub IsWritable : Bool → Text → Type 0
IsWritable true s = Unit
IsWritable false s = IsPlain s

abbrev write_field : Bool → Text → Text → Text
write_field true s rest = b'"' ∷ double_quotes s ++ b'"' ∷ rest
write_field false s rest = s ++ rest

-- What stands after the first field of a record.
abbrev write_rest : List Written → Text
write_rest [] = []
write_rest (w ∷ ws) = b',' ∷ write_field w.quoted w.field (write_rest ws)

abbrev pub write_line : Written → List Written → Text
write_line w ws = write_field w.quoted w.field (write_rest ws)

-- Text that does not begin with a quote, so that a closing quote before it is one.
abbrev Ends : Text → Type 0
Ends [] = Unit
Ends (c ∷ s) = c ≢ b'"'

split_from-plain :
    (fields : List Text) (field s rest : Text)
    → IsPlain s
    → split_from fields field false (s ++ rest) ≡ split_from fields (field ++ s) false rest
unfolding split_from
split_from-plain fields field [] rest h =
    ap (λ f. split_from fields f false rest) (sym (append-nil field))
split_from-plain fields field (c ∷ s) rest (p, h) =
    ground
      (arith, split_from-plain fields (field ++ c ∷ []) s rest h, append_assoc field (c ∷ []) s)

split_from-closed :
    (fields : List Text) (field rest : Text)
    → Ends rest
    → split_from fields field true (b'"' ∷ rest) ≡ split_from fields field false rest
unfolding split_from
split_from-closed fields field [] e = refl
split_from-closed fields field (c ∷ rest) e = ground arith

split_from-kept :
    (fields : List Text) (field : Text) (c : ℕ) (rest : Text)
    → c ≢ b'"'
    → split_from fields field true (c ∷ rest) ≡ split_from fields (field ++ c ∷ []) true rest
unfolding split_from
split_from-kept fields field c [] e = ground arith
split_from-kept fields field c (d ∷ rest) e = ground arith

split_from-doubled :
    (fields : List Text) (field rest : Text)
    → split_from fields field true (b'"' ∷ b'"' ∷ rest)
      ≡ split_from fields (field ++ b'"' ∷ []) true rest
unfolding split_from
split_from-doubled fields field rest = refl

split_from-quoted :
    (fields : List Text) (field s rest : Text)
    → Ends rest
    → split_from fields field true (double_quotes s ++ b'"' ∷ rest)
      ≡ split_from fields (field ++ s) false rest
split_from-quoted fields field [] rest e = rw append-nil (split_from-closed fields field rest e)
split_from-quoted fields field (c ∷ s) rest e = ground (
  arith,
  split_from-quoted fields (field ++ c ∷ []) s rest e,
  split_from-doubled fields field (double_quotes s ++ b'"' ∷ rest),
  split_from-kept fields field c (double_quotes s ++ b'"' ∷ rest),
  append_assoc field (c ∷ []) s,
)

-- One field, written in either style.
split_from-write_field :
    (fields : List Text) (style : Bool) (s rest : Text)
    → IsWritable style s
    → Ends rest
    → split_from fields [] false (write_field style s rest) ≡ split_from fields s false rest
unfolding split_from
split_from-write_field fields true s rest h e = split_from-quoted fields [] s rest e
split_from-write_field fields false s rest h e = split_from-plain fields [] s rest h

write_rest-Ends : (ws : List Written) → Ends (write_rest ws)
write_rest-Ends [] = tt
write_rest-Ends (w ∷ ws) = omega arith

split_from-write_rest :
    (fields : List Text) (field : Text) (ws : List Written)
    → All (λ w. IsWritable w.quoted w.field) ws
    → split_from fields field false (write_rest ws) ≡ fields ++ field ∷ map (λ w. w.field) ws
unfolding split_from
split_from-write_rest fields field [] h = refl
split_from-write_rest fields field (w ∷ ws) (p, h) =
    split_from-write_field (fields ++ field ∷ []) w.quoted w.field (write_rest ws) p
      (write_rest-Ends ws)
    ∙ split_from-write_rest (fields ++ field ∷ []) w.field ws h
    ∙ append_assoc fields (field ∷ []) _

-- A record of one or more fields, each written quoted with its quotes doubled, or bare when it
-- holds no quote and no comma, is split into just those fields.
pub split_csv_line-write_line :
    (w : Written) (ws : List Written)
    → IsWritable w.quoted w.field
    → All (λ v. IsWritable v.quoted v.field) ws
    → split_csv_line (write_line w ws) ≡ w.field ∷ map (λ v. v.field) ws
unfolding split_csv_line
split_csv_line-write_line w ws p h =
    split_from-write_field [] w.quoted w.field (write_rest ws) p (write_rest-Ends ws)
    ∙ split_from-write_rest [] w.field ws h
