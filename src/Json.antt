-- ===== src/Json.antt =====
-- The values of Python's json module as the program inspects them. Texts of keys are read by
-- `int(key)` and written by `str(issue)`, which are parameters where they are used.
-- Of a float only the integer is kept that `int(value)` cuts it off to.
use baton_harness.Base.{
  String, Bool, true, false, Option, none, some, if◌then◌else◌, ◌==◌, nat_eq, string_eq, ℤ, pos,
}

mutual
  pub data Json : Type 0 where
    null : Json
    bool : Bool → Json
    int : ℤ → Json
    float : ℤ → Json
    str : String → Json
    arr : Items → Json
    obj : Fields → Json

  pub data Items : Type 0 where
    nil : Items
    cons : Json → Items → Items

  pub data Fields : Type 0 where
    end : Fields
    field : String → Json → Fields → Fields

-- obj.get(name)
abbrev pub get : String → Fields → Option Json
get name end = none
get name (field k v fs) = if name == k then some v else get name fs

-- isinstance(value, int), with the integer: True and False are the integers 1 and 0.
abbrev pub as_int : Json → Option ℤ
as_int (int z) = some z
as_int (bool true) = some (pos 1)
as_int (bool false) = some (pos 0)
as_int _ = none
