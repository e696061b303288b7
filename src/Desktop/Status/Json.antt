-- ===== src/Desktop/Status/Json.antt =====
-- `Value` of serde_json with the accessors that src-tauri/src/tunnel_status.rs calls. A number is its
-- text.
use chat_x.Prelude.{Bool, true, false, Option, none, some, Str, ◌==◌, str_eq, if◌then◌else◌}

mutual
  pub data Json : Type 0 where
    null : Json
    bool : Bool → Json
    number : Str → Json
    string : Str → Json
    array : Items → Json
    object : Fields → Json

  pub data Items : Type 0 where
    nil : Items
    cons : Json → Items → Items

  pub data Fields : Type 0 where
    end : Fields
    field : Str → Json → Fields → Fields

unfoldable pub field_of : Str → Fields → Option Json
field_of key end = none
field_of key (field k v fs) = if k == key then some v else field_of key fs

-- `get` with a name, `as_bool` and `as_str`.
unfoldable pub get_field : Str → Json → Option Json
unfolding field_of
get_field key (object fs) = field_of key fs
get_field key _ = none

unfoldable pub as_bool : Json → Option Bool
as_bool (bool b) = some b
as_bool _ = none

unfoldable pub as_str : Json → Option Str
as_str (string s) = some s
as_str _ = none

infixl 5 ◌>>=◌
abbrev pub ◌>>=◌ {ℓ κ} : {A : Type ℓ} {B : Type κ} → Option A → (A → Option B) → Option B
none >>= f = none
some a >>= f = f a

-- `value.get(key).and_then(Value::as_bool)`, and with `as_str`.
unfoldable pub bool_field : Str → Json → Option Bool
unfolding get_field as_bool
bool_field key value = get_field key value >>= as_bool

unfoldable pub str_field : Str → Json → Option Str
unfolding get_field as_str
str_field key value = get_field key value >>= as_str

abbrev pub or_else {ℓ} : {A : Type ℓ} → Option A → Option A → Option A
or_else none other = other
or_else (some a) other = some a

abbrev pub unwrap_or {ℓ} : {A : Type ℓ} → Option A → A → A
unwrap_or none other = other
unwrap_or (some a) other = a

-- `x == Some(b)` for an `Option<bool>`.
abbrev pub is_said : Option Bool → Bool → Bool
is_said none b = false
is_said (some true) b = b
is_said (some false) true = false
is_said (some false) false = true
