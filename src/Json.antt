-- ===== src/Json.antt =====
-- The values that encoding/json stores in an `any`: what a tool's arguments and a token's claims
-- hold. A number is kept as its text.
use docsclaw.Base.{Str, Option, none, some, Bool}

mutual
  pub data Json : Type 0 where
    null : Json
    bool : Bool → Json
    num : Str → Json
    str : Str → Json
    arr : Elems → Json
    obj : Fields → Json

  pub data Elems : Type 0 where
    nil : Elems
    cons : Json → Elems → Elems

  pub data Fields : Type 0 where
    end : Fields
    field : Str → Json → Fields → Fields

-- The type assertion `v.(string)` with its ok.
abbrev pub as_str : Option Json → Option Str
as_str (some (str s)) = some s
as_str _ = none
