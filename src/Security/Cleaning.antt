-- ===== src/Security/Cleaning.antt =====
-- What `sanitizeInput` (packages/shared/src/security/owasp-middleware.ts) leaves of a JSON value.
use banking_platform.Base.{
  ℕ, ◌+◌, ◌≡◌, refl, ap, String, Bool, true, not, List, [], ◌∷◌, ◌++◌, ◌&&◌, Bool-cases, inl, inr,
}
use banking_platform.Security.Json.{
  Json, null, boolean, number, str, array, object, Items, nil, cons, Fields, end, field, is_special,
  strip, sanitize, sanitize_items, sanitize_fields,
}

-- A text without `<`, `>`, `"` and `'`.
abbrev pub is_clean_text : String → Bool
is_clean_text String.[] = true
is_clean_text (String.◌∷◌ c s) = not (is_special c) && is_clean_text s

-- No text that stands as a value has one of these characters. The names of fields are not looked at.
unfoldable mutual
  pub has_clean_values : Json → Bool
  has_clean_values null = true
  has_clean_values (boolean b) = true
  has_clean_values (number n) = true
  has_clean_values (str s) = is_clean_text s
  has_clean_values (array items) = has_clean_items items
  has_clean_values (object fields) = has_clean_fields fields

  pub has_clean_items : Items → Bool
  has_clean_items nil = true
  has_clean_items (cons v items) = has_clean_values v && has_clean_items items

  pub has_clean_fields : Fields → Bool
  has_clean_fields end = true
  has_clean_fields (field key v fields) = has_clean_values v && has_clean_fields fields

strip-clean : (s : String) → is_clean_text (strip s) ≡ true
strip-clean String.[] = refl
strip-clean (String.◌∷◌ c s) = elim (Bool-cases (is_special c)) [
  | inl special ↦ rw (special) (strip-clean s)
  | inr plain ↦ rw (plain, plain) (strip-clean s)
]

strip_idem : (s : String) → strip (strip s) ≡ strip s
strip_idem String.[] = refl
strip_idem (String.◌∷◌ c s) = elim (Bool-cases (is_special c)) [
  | inl special ↦ rw (special) (strip_idem s)
  | inr plain ↦ rw (plain, plain) (ap (String.◌∷◌ c) (strip_idem s))
]

module _ (index : ℕ → String) where
  mutual
    unfolding sanitize has_clean_values

    sanitize-clean : (j : Json) → has_clean_values (sanitize index j) ≡ true
    sanitize-clean null = refl
    sanitize-clean (boolean b) = refl
    sanitize-clean (number n) = refl
    sanitize-clean (str s) = strip-clean s
    sanitize-clean (array items) = items-clean 0 items
    sanitize-clean (object fields) = fields-clean fields

    items-clean : (i : ℕ) (items : Items) → has_clean_fields (sanitize_items index i items) ≡ true
    items-clean i nil = refl
    items-clean i (cons v items) = rw (sanitize-clean v) (items-clean (i + 1) items)

    fields-clean : (fields : Fields) → has_clean_fields (sanitize_fields index fields) ≡ true
    fields-clean end = refl
    fields-clean (field key v fields) = rw (sanitize-clean v) (fields-clean fields)

  mutual
    unfolding sanitize

    sanitize_idem : (j : Json) → sanitize index (sanitize index j) ≡ sanitize index j
    sanitize_idem null = refl
    sanitize_idem (boolean b) = refl
    sanitize_idem (number n) = refl
    sanitize_idem (str s) = ap str (strip_idem s)
    sanitize_idem (array items) = ap object (items_idem 0 items)
    sanitize_idem (object fields) = ap object (fields_idem fields)

    items_idem :
        (i : ℕ) (items : Items)
        → sanitize_fields index (sanitize_items index i items) ≡ sanitize_items index i items
    items_idem i nil = refl
    items_idem i (cons v items) = cc (sanitize_idem v, items_idem (i + 1) items)

    fields_idem :
        (fields : Fields)
        → sanitize_fields index (sanitize_fields index fields) ≡ sanitize_fields index fields
    fields_idem end = refl
    fields_idem (field key v fields) = cc (sanitize_idem v, fields_idem fields)

module _ (index : ℕ → String) where
  -- The names of the fields of a value, at every depth; the places of an array count as names.
  unfoldable mutual
    pub names : Json → List String
    names null = []
    names (boolean b) = []
    names (number n) = []
    names (str s) = []
    names (array items) = names_of_items 0 items
    names (object fields) = names_of_fields fields

    pub names_of_items : ℕ → Items → List String
    names_of_items i nil = []
    names_of_items i (cons v items) = index i ∷ names v ++ names_of_items (i + 1) items

    pub names_of_fields : Fields → List String
    names_of_fields end = []
    names_of_fields (field key v fields) = key ∷ names v ++ names_of_fields fields

  mutual
    unfolding sanitize names

    names-sanitize : (j : Json) → names (sanitize index j) ≡ names j
    names-sanitize null = refl
    names-sanitize (boolean b) = refl
    names-sanitize (number n) = refl
    names-sanitize (str s) = refl
    names-sanitize (array items) = names-sanitize_items 0 items
    names-sanitize (object fields) = names-sanitize_fields fields

    names-sanitize_items :
        (i : ℕ) (items : Items)
        → names_of_fields (sanitize_items index i items) ≡ names_of_items i items
    names-sanitize_items i nil = refl
    names-sanitize_items i (cons v items) =
        rw (names-sanitize v, names-sanitize_items (i + 1) items) refl

    names-sanitize_fields :
        (fields : Fields) → names_of_fields (sanitize_fields index fields) ≡ names_of_fields fields
    names-sanitize_fields end = refl
    names-sanitize_fields (field key v fields) =
        rw (names-sanitize v, names-sanitize_fields fields) refl
