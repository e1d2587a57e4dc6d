-- ===== src/Security/Json.antt =====
-- `sanitizeInput` and `maskSensitiveData` (packages/shared/src/security/owasp-middleware.ts) on JSON.
-- Numbers are whole, and no key is `__proto__`. How an index of an array is printed is a parameter.
use Prim.Native.Char.{Char, code}
use banking_platform.Base.{
  ℕ, ◌+◌, ◌==◌, String, Bool, true, false, not, ◌&&◌, ◌||◌, List, [], ◌∷◌, if◌then◌else◌,
}
use banking_platform.Base.Int.{ℤ, pos_part, neg_part}
use banking_platform.Base.Texts.{includes}
use text.Mathlib.Text.{◌==◌ as str_eq}

mutual
  pub data Json : Type 0 where
    null : Json
    boolean : Bool → Json
    number : ℤ → Json
    str : String → Json
    array : Items → Json
    object : Fields → Json

  pub data Items : Type 0 where
    nil : Items
    cons : Json → Items → Items

  pub data Fields : Type 0 where
    end : Fields
    field : (key : String) → Json → Fields → Fields

-- One of `<`, `>`, `"` and `'`.
abbrev pub is_special : Char → Bool
is_special c = code c == 60 || code c == 62 || code c == 34 || code c == 39

abbrev pub keep_char : Bool → Char → String → String
keep_char true c s = s
keep_char false c s = String.◌∷◌ c s

-- `s.replace(/[<>"']/g, '')`.
abbrev pub strip : String → String
strip String.[] = ""
strip (String.◌∷◌ c s) = keep_char (is_special c) c (strip s)

module _ (index : ℕ → String) where
  -- An array is an object too, and becomes one.
  unfoldable mutual
    pub sanitize : Json → Json
    sanitize null = null
    sanitize (boolean b) = boolean b
    sanitize (number n) = number n
    sanitize (str s) = str (strip s)
    sanitize (array items) = object (sanitize_items 0 items)
    sanitize (object fields) = object (sanitize_fields fields)

    pub sanitize_items : ℕ → Items → Fields
    sanitize_items i nil = end
    sanitize_items i (cons v items) = field (index i) (sanitize v) (sanitize_items (i + 1) items)

    pub sanitize_fields : Fields → Fields
    sanitize_fields end = end
    sanitize_fields (field key v fields) = field key (sanitize v) (sanitize_fields fields)

-- A value that counts as true.
abbrev pub truthy : Json → Bool
truthy null = false
truthy (boolean b) = b
truthy (number n) = not (pos_part n == 0 && neg_part n == 0)
truthy (str s) = not (str_eq s "")
truthy (array items) = true
truthy (object fields) = true

abbrev pub sensitive_fields : List String
sensitive_fields = "password" ∷ "documentNumber" ∷ "accountNumber" ∷ "cvv" ∷ "pin" ∷ []

abbrev pub mask_value : String → Json → Json
mask_value key v = if includes key sensitive_fields && truthy v then str "***MASKED***" else v

abbrev pub mask_fields : Fields → Fields
mask_fields end = end
mask_fields (field key v fields) = field key (mask_value key v) (mask_fields fields)

-- `{ ...items }`.
abbrev pub spread : (ℕ → String) → ℕ → Items → Fields
spread index i nil = end
spread index i (cons v items) = field (index i) v (spread index (i + 1) items)

-- `maskSensitiveData`: the fields of the object itself, not of what stands in it.
unfoldable pub mask : (ℕ → String) → Json → Json
mask index null = null
mask index (boolean b) = boolean b
mask index (number n) = number n
mask index (str s) = str s
mask index (array items) = object (mask_fields (spread index 0 items))
mask index (object fields) = object (mask_fields fields)
