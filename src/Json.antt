-- ===== src/Json.antt =====
-- The values that `JSON.parse` yields, as the wire code of packages/t3code-lib/src reads them. A
-- number is kept as the text that `String(n)` gives, the only use that the modelled code makes of
-- it. The fields of an object stand in their order, each key once.
use t3code_client.Prelude.{
  String, Bool, Option, none, some, List, [], ◌∷◌, same, if◌then◌else◌, ◌≡◌, refl, arith, same_iff,
  same_refl,
}

mutual
  pub data Json : Type 0 where
    null : Json
    bool : Bool → Json
    num : String → Json
    str : String → Json
    arr : Items → Json
    obj : Fields → Json

  pub data Items : Type 0 where
    nil : Items
    cons : Json → Items → Items

  pub data Fields : Type 0 where
    no_fields : Fields
    field : String → Json → Fields → Fields

abbrev pub to_list : Items → List Json
to_list nil = []
to_list (cons v vs) = v ∷ to_list vs

-- `record[key]`; none for `undefined`.
unfoldable pub get : String → Fields → Option Json
get k no_fields = none
get k (field j v fs) = if same j k then some v else get k fs

-- `{ ...record, [key]: value }`: a key that is there keeps its place.
unfoldable pub set : String → Json → Fields → Fields
set k v no_fields = field k v no_fields
set k v (field j w fs) = if same j k then field k v fs else field j w (set k v fs)

-- `typeof value === "string"`
abbrev pub as_str : Option Json → Option String
as_str none = none
as_str (some null) = none
as_str (some (bool b)) = none
as_str (some (num n)) = none
as_str (some (str s)) = some s
as_str (some (arr vs)) = none
as_str (some (obj fs)) = none

pub get-set :
    (k j : String) (v : Json) (fs : Fields)
    → get j (set k v fs) ≡ (if same k j then some v else get j fs)
unfolding get set
get-set k j v no_fields = refl
get-set k j v (field i w fs) =
    ground (arith, same_iff k j, same_iff i k, same_iff i j, get-set k j v fs)

-- `typeof value === "object" && value !== null && !Array.isArray(value)`
abbrev pub as_obj : Option Json → Option Fields
as_obj none = none
as_obj (some null) = none
as_obj (some (bool b)) = none
as_obj (some (num n)) = none
as_obj (some (str s)) = none
as_obj (some (arr vs)) = none
as_obj (some (obj fs)) = some fs

pub set-set : (k : String) (v w : Json) (fs : Fields) → set k v (set k w fs) ≡ set k v fs
unfolding set
set-set k v w no_fields = ground (arith, same_refl k)
set-set k v w (field j x fs) = ground (arith, same_refl k, set-set k v w fs)

pub set_same : (k : String) (v : Json) (fs : Fields) → get k fs ≡ some v → set k v fs ≡ fs
unfolding set get
set_same k v no_fields h = cc
set_same k v (field j x fs) h = ground (arith, same_iff j k, set_same k v fs)

pub set_str_same : (k t : String) (fs : Fields) → as_str (get k fs) ≡ some t → set k (str t) fs ≡ fs
set_str_same k t fs h = set_same k (str t) fs (text_of (get k fs) h)
  where
    text_of : (o : Option Json) → as_str o ≡ some t → o ≡ some (str t)
    text_of none e = cc
    text_of (some null) e = cc
    text_of (some (bool b)) e = cc
    text_of (some (num n)) e = cc
    text_of (some (str s)) e = cc
    text_of (some (arr vs)) e = cc
    text_of (some (obj gs)) e = cc

pub set_obj_same :
    (k : String) (gs fs : Fields) → as_obj (get k fs) ≡ some gs → set k (obj gs) fs ≡ fs
set_obj_same k gs fs h = set_same k (obj gs) fs (fields_of (get k fs) h)
  where
    fields_of : (o : Option Json) → as_obj o ≡ some gs → o ≡ some (obj gs)
    fields_of none e = cc
    fields_of (some null) e = cc
    fields_of (some (bool b)) e = cc
    fields_of (some (num n)) e = cc
    fields_of (some (str s)) e = cc
    fields_of (some (arr vs)) e = cc
    fields_of (some (obj gs)) e = cc

pub get-set_self : (k : String) (v : Json) (fs : Fields) → get k (set k v fs) ≡ some v
get-set_self k v fs = rw (get-set k k v fs, same_refl k) refl
