-- ===== src/Common/Json.antt =====
-- Values of decoded JSON, as the handlers read them. Floats are left out of the messages.
use Prim.Native.String.{String}
use mathlib.Core.Bool.{Bool}
use mathlib.Core.Option.{Option, none, some}
use pitlane_agent.Common.Tests.{str_eq, if◌then◌else◌}
use pitlane_agent.Common.Int.{ℤ}

mutual
  pub data Value : Type 0 where
    null : Value
    boolean : Bool → Value
    integer : ℤ → Value
    text : String → Value
    array : Items → Value
    object : Fields → Value

  pub data Items : Type 0 where
    nil : Items
    cons : Value → Items → Items

  pub data Fields : Type 0 where
    end : Fields
    field : String → Value → Fields → Fields

-- `d.get(k)`.
unfoldable pub get : Fields → String → Value
get end k = null
get (field j v d) k = if str_eq j k then v else get d k

-- `isinstance(v, dict)`, with the fields.
abbrev pub as_object : Value → Option Fields
as_object (object d) = some d
as_object _ = none

-- `{**d, k: v}`.
unfoldable pub put : Fields → String → Value → Fields
put end k v = field k v end
put (field j w d) k v = if str_eq j k then field j v d else field j w (put d k v)
