-- ===== src/Base/Json.antt =====
-- JSON values. The list of an array and the entries of an object are types of their own.
use promotion_management_api.Base.{Bool, true, ◌&&◌, Option, none, some, if◌then◌else◌}
use promotion_management_api.Base.Int.{ℤ}
use promotion_management_api.Base.Texts.{Text, text_eq}

mutual
  pub data Json : Type 0 where
    null : Json
    bool : Bool → Json
    whole : ℤ → Json
    fractional : Text → Json
    str : Text → Json
    arr : Items → Json
    obj : Entries → Json

  pub data Items : Type 0 where
    nil : Items
    cons : Json → Items → Items

  pub data Entries : Type 0 where
    end : Entries
    entry : Text → Json → Entries → Entries

-- `value[key]`, or no value.
unfoldable pub get : Text → Entries → Option Json
get key end = none
get key (entry k v rest) = if text_eq k key then some v else get key rest

-- A strict object has no key but those listed.
unfoldable pub only_keys : Text → Text → Entries → Bool
only_keys a b end = true
only_keys a b (entry k v rest) = (if text_eq k a then true else text_eq k b) && only_keys a b rest
