-- ===== src/Pricing/Conditions.antt =====
-- The two walks over a rule's conditions, `withoutPriorities` and `hasEmptyGroup`
-- (src/modules/pricing/domain/base-price-calculator.ts).
use promotion_management_api.Base.{
  sym, ◌≡◌, refl, ap, Bool, true, false, ◌||◌, if◌then◌else◌, arith,
}
use promotion_management_api.Base.Texts.{Text, codes, text_eq}
use promotion_management_api.Base.Json.{Json, arr, obj, Items, nil, cons, Entries, end, entry}

unfoldable mutual
  pub without_priorities : Json → Json
  without_priorities (arr children) = arr (without_priorities_each children)
  without_priorities (obj fields) = obj (without_priority_fields fields)
  without_priorities node = node

  pub without_priorities_each : Items → Items
  without_priorities_each nil = nil
  without_priorities_each (cons child rest) =
      cons (without_priorities child) (without_priorities_each rest)

  -- The entries but `priority`, with their values walked.
  pub without_priority_fields : Entries → Entries
  without_priority_fields end = end
  without_priority_fields (entry key value rest) =
      if text_eq key (codes "priority")
      then without_priority_fields rest
      else entry key (without_priorities value) (without_priority_fields rest)

abbrev is_empty_array : Json → Bool
is_empty_array (arr nil) = true
is_empty_array _ = false

-- `groups.some(...)`: an `all` or an `any` whose value is an empty array.
is_empty_group : Text → Json → Bool
is_empty_group key value =
    if text_eq key (codes "all") || text_eq key (codes "any") then is_empty_array value else false

unfoldable pub has_empty_group_key : Entries → Bool
unfolding is_empty_group
has_empty_group_key end = false
has_empty_group_key (entry key value rest) = is_empty_group key value || has_empty_group_key rest

unfoldable mutual
  pub has_empty_group : Json → Bool
  has_empty_group (arr children) = has_empty_group_in children
  has_empty_group (obj fields) = has_empty_group_key fields || has_empty_group_values fields
  has_empty_group node = false

  pub has_empty_group_in : Items → Bool
  has_empty_group_in nil = false
  has_empty_group_in (cons child rest) = has_empty_group child || has_empty_group_in rest

  pub has_empty_group_values : Entries → Bool
  has_empty_group_values end = false
  has_empty_group_values (entry key value rest) =
      has_empty_group value || has_empty_group_values rest

-- An empty array stays one, and no other array becomes one.
is_empty_array-without_priorities :
    (node : Json) → is_empty_array (without_priorities node) ≡ is_empty_array node
unfolding without_priorities
is_empty_array-without_priorities (arr nil) = refl
is_empty_array-without_priorities (arr (cons child rest)) = refl
is_empty_array-without_priorities _ = refl

mutual
  unfolding without_priorities

  without_priorities_again :
      (node : Json) → without_priorities (without_priorities node) ≡ without_priorities node
  without_priorities_again (arr children) = ap arr (without_priorities_each_again children)
  without_priorities_again (obj fields) = ap obj (without_priority_fields_again fields)
  without_priorities_again _ = refl

  without_priorities_each_again :
      (children : Items)
      → without_priorities_each (without_priorities_each children)
        ≡ without_priorities_each children
  without_priorities_each_again nil = refl
  without_priorities_each_again (cons child rest) =
      ground (arith, without_priorities_again child, without_priorities_each_again rest)

  without_priority_fields_again :
      (fields : Entries)
      → without_priority_fields (without_priority_fields fields) ≡ without_priority_fields fields
  without_priority_fields_again end = refl
  without_priority_fields_again (entry key value rest) =
      ground (arith, without_priorities_again value, without_priority_fields_again rest)

or_mono :
    (a b c d : Bool)
    → (a ≡ true → c ≡ true)
    → (b ≡ true → d ≡ true)
    → (a || b) ≡ true
    → (c || d) ≡ true
or_mono true b c d f g h = rw (f refl)
or_mono false b true d f g h = refl
or_mono false b false d f g h = g h

kept_or_dropped :
    (drop a b c d : Bool)
    → (a ≡ true → c ≡ true)
    → (b ≡ true → d ≡ true)
    → (if drop then b else a || b) ≡ true
    → (c || d) ≡ true
kept_or_dropped true a b c d f g h = or_mono false b c d (λ e. cc) g h
kept_or_dropped false a b c d f g h = or_mono a b c d f g h

is_empty_group-without_priorities :
    (key : Text) (node : Json)
    → is_empty_group key (without_priorities node) ≡ is_empty_group key node
unfolding is_empty_group
is_empty_group-without_priorities key node = rw (is_empty_array-without_priorities node)

-- The stripped entries begin with this one, or it was a priority.
has_empty_group_key_split :
    (drop : Bool) (key : Text) (value : Json) (rest : Entries)
    → has_empty_group_key (if drop then rest else entry key value rest) ≡ (
        if drop
        then has_empty_group_key rest
        else is_empty_group key value || has_empty_group_key rest)
unfolding has_empty_group_key
has_empty_group_key_split true key value rest = refl
has_empty_group_key_split false key value rest = refl

has_empty_group_key-kept :
    (fields : Entries)
    → has_empty_group_key (without_priority_fields fields) ≡ true
    → has_empty_group_key fields ≡ true
unfolding without_priorities has_empty_group_key
has_empty_group_key-kept end h = h
has_empty_group_key-kept (entry key value rest) h =
    kept_or_dropped (text_eq key (codes "priority")) _ _ _ _
      (λ e. rw is_empty_group-without_priorities at e) (has_empty_group_key-kept rest)
      (rw has_empty_group_key_split at h)

has_empty_group_values_split :
    (drop : Bool) (key : Text) (value : Json) (rest : Entries)
    → has_empty_group_values (if drop then rest else entry key value rest) ≡ (
        if drop
        then has_empty_group_values rest
        else has_empty_group value || has_empty_group_values rest)
unfolding has_empty_group
has_empty_group_values_split true key value rest = refl
has_empty_group_values_split false key value rest = refl

mutual
  unfolding without_priorities has_empty_group

  has_empty_group-kept :
      (node : Json) → has_empty_group (without_priorities node) ≡ true → has_empty_group node ≡ true
  has_empty_group-kept (arr children) h = has_empty_group_in-kept children h
  has_empty_group-kept (obj fields) h =
      or_mono _ _ _ _ (has_empty_group_key-kept fields) (has_empty_group_values-kept fields) h
  has_empty_group-kept _ h = h

  has_empty_group_in-kept :
      (children : Items)
      → has_empty_group_in (without_priorities_each children) ≡ true
      → has_empty_group_in children ≡ true
  has_empty_group_in-kept nil h = h
  has_empty_group_in-kept (cons child rest) h =
      or_mono _ _ _ _ (has_empty_group-kept child) (has_empty_group_in-kept rest) h

  has_empty_group_values-kept :
      (fields : Entries)
      → has_empty_group_values (without_priority_fields fields) ≡ true
      → has_empty_group_values fields ≡ true
  has_empty_group_values-kept end h = h
  has_empty_group_values-kept (entry key value rest) h =
      kept_or_dropped (text_eq key (codes "priority")) _ _ _ _ (has_empty_group-kept value)
        (has_empty_group_values-kept rest) (rw has_empty_group_values_split at h)

or_absorbed : (a b : Bool) → (b ≡ true → a ≡ true) → (a || b) ≡ a
or_absorbed true b h = refl
or_absorbed false true h = sym (h refl)
or_absorbed false false h = refl

-- Stripping the priorities from conditions twice is stripping them once, and it makes no group
-- empty: where the stripped conditions have an empty `all` or `any`, the conditions had one.
pub without_priorities_lem :
    (node : Json)
    → (without_priorities (without_priorities node) ≡ without_priorities node)
      × ((has_empty_group node || has_empty_group (without_priorities node)) ≡ has_empty_group node)
without_priorities_lem node =
    (without_priorities_again node, or_absorbed _ _ (has_empty_group-kept node))
