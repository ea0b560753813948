-- ===== src/Base/Json.antt =====
-- JSON values as Python's json module reads them. The module itself is a parameter.
use demos_rework.Base.{Bool, Option}
use demos_rework.Base.Text.{Text}

mutual
  pub data Json : Type 0 where
    null : Json
    boolean : Bool → Json
    -- an int or a float, by the text that str() gives
    number : Text → Json
    string : Text → Json
    array : Items → Json
    object : Members → Json

  pub data Items : Type 0 where
    no_item : Items
    item : Json → Items → Items

  -- The keys of an object, in order, with their values.
  pub data Members : Type 0 where
    no_member : Members
    member : Text → Json → Members → Members

-- json.dumps, with compact separators and sorted keys, and json.loads; `none` is the
-- JSONDecodeError
pub record Codec : Type 0 where
  pub dumps : Json → Text
  pub loads : Text → Option Json
