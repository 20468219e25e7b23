-- ===== src/Json.antt =====
-- The values of JSON, as JSON.parse gives them. Numbers are the non-negative integers, which is what
-- the program's percentages, counts, codes and minutes are.
use saral.Base.{ℕ, Bool, Option, none, some, List, [], ◌∷◌, String, if◌then◌else◌}
use text.Mathlib.Text.{◌==◌ as str_eq}

mutual
  pub data Json : Type 0 where
    null : Json
    bool : Bool → Json
    num : ℕ → Json
    str : String → Json
    arr : Items → Json
    obj : Fields → Json

  pub data Items : Type 0 where
    nil : Items
    cons : Json → Items → Items

  pub data Fields : Type 0 where
    end : Fields
    field : String → Json → Fields → Fields

abbrev pub items : Items → List Json
items nil = []
items (cons v vs) = v ∷ items vs

-- `Object.values` of an object.
abbrev pub values : Fields → List Json
values end = []
values (field k v fs) = v ∷ values fs

-- `o[k]`; `none` is `undefined`.
unfoldable pub property : String → Fields → Option Json
property k end = none
property k (field j v fs) = if str_eq j k then some v else property k fs

-- `v[k]` of any value; only an object has such properties here.
unfoldable pub property_of : String → Json → Option Json
unfolding property
property_of k (obj fs) = property k fs
property_of k _ = none
