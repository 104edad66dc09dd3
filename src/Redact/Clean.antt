-- ===== src/Redact/Clean.antt =====
-- What is left of a value when its secrets are out.
use t3code_client.Prelude.{
  String, Bool, true, false, not, ◌&&◌, ◌||◌, Bool-cases, Option, same, same_refl, same_iff, ◌≡◌,
  refl, sym, ap, ◌⊎◌, inl, inr, arith,
}
use t3code_client.Json.{
  Json, null, bool, num, str, arr, obj, Items, nil, cons, Fields, no_fields, field,
}
use t3code_client.Proxy.Units.{Text, units}
use t3code_client.Redact.Patterns.{is_secret_key, is_secret_map, holds_secret_url}
use t3code_client.Redact.{
  redacted, is_prototype, is_text, is_plain_object, redact_text, redact_entry, redact, redact_items,
  redact_fields,
}

-- An entry of an object that may stay: no object under a name of headers, and no text but the mark
-- under the name of a secret.
abbrev pub is_marked : Json → Bool
is_marked null = false
is_marked (bool b) = false
is_marked (num n) = false
is_marked (str s) = same s redacted
is_marked (arr vs) = false
is_marked (obj fs) = false

abbrev pub may_stay : String → Json → Bool
may_stay key v =
    not (is_secret_map (units key) && is_plain_object v)
    && (not (is_text v && is_secret_key (units key)) || is_marked v)

and_left : (a b : Bool) → a && b ≡ true → a ≡ true
and_left a b h = ground arith

and_right : (a b : Bool) → a && b ≡ true → b ≡ true
and_right a b h = ground arith

all_three : (a b c : Bool) → a ≡ true → b ≡ true → c ≡ true → a && (b && c) ≡ true
all_three a b c ha hb hc = ground arith

module _ (decode_uri_component : Text → Option Text) where
  -- No text holds a URL with a secret, and every entry may stay, which none under "__proto__" may.
  unfoldable mutual
    pub is_clean : Json → Bool
    is_clean null = true
    is_clean (bool b) = true
    is_clean (num n) = true
    is_clean (str s) = not (holds_secret_url decode_uri_component (units s))
    is_clean (arr vs) = are_clean vs
    is_clean (obj fs) = fields_clean fs

    pub are_clean : Items → Bool
    are_clean nil = true
    are_clean (cons v vs) = is_clean v && are_clean vs

    pub fields_clean : Fields → Bool
    fields_clean no_fields = true
    fields_clean (field key v fs) =
        not (is_prototype key) && (may_stay key v && (is_clean v && fields_clean fs))

  redacted_holds_none : holds_secret_url decode_uri_component (units redacted) ≡ false
  unfolding holds_secret_url
  redacted_holds_none = refl

  redact_text_holds_none :
      (s : String)
      → holds_secret_url decode_uri_component (units (redact_text decode_uri_component s)) ≡ false
  unfolding redact_text
  redact_text_holds_none s = elim (Bool-cases (holds_secret_url decode_uri_component (units s))) [
    | inl hit ↦ rw hit redacted_holds_none
    | inr miss ↦ rw (miss, miss) refl
  ]

  redact-is_text : (v : Json) → is_text (redact decode_uri_component v) ≡ is_text v
  unfolding redact
  redact-is_text null = refl
  redact-is_text (bool b) = refl
  redact-is_text (num n) = refl
  redact-is_text (str s) = refl
  redact-is_text (arr vs) = refl
  redact-is_text (obj fs) = refl

  redact-is_plain_object :
      (v : Json) → is_plain_object (redact decode_uri_component v) ≡ is_plain_object v
  unfolding redact
  redact-is_plain_object null = refl
  redact-is_plain_object (bool b) = refl
  redact-is_plain_object (num n) = refl
  redact-is_plain_object (str s) = refl
  redact-is_plain_object (arr vs) = refl
  redact-is_plain_object (obj fs) = refl

  -- A mark is clean under each name.
  mark_stays : (key : String) → may_stay key (str redacted) && is_clean (str redacted) ≡ true
  unfolding is_clean
  mark_stays key = ground (arith, same_refl redacted, redacted_holds_none)

  entry_stays :
      (key : String) (v inner : Json)
      → is_text inner ≡ is_text v
      → is_plain_object inner ≡ is_plain_object v
      → is_clean inner ≡ true
      → may_stay key (redact_entry decode_uri_component key v inner)
          && is_clean (redact_entry decode_uri_component key v inner)
        ≡ true
  unfolding redact_entry
  entry_stays key v inner t p c =
      elim (Bool-cases (is_secret_map (units key) && is_plain_object v)) [
        | inl map ↦ rw map (mark_stays key)
        | inr no_map ↦ elim (Bool-cases (is_text v && is_secret_key (units key))) [
          | inl secret ↦ rw (no_map, secret) (mark_stays key)
          | inr rest ↦ rw (no_map, rest) (rw (t, p, no_map, rest, c) refl)
        ]
      ]

  mutual
    unfolding redact is_clean

    redact_clean : (v : Json) → is_clean (redact decode_uri_component v) ≡ true
    redact_clean null = refl
    redact_clean (bool b) = refl
    redact_clean (num n) = refl
    redact_clean (str s) = rw (redact_text_holds_none s) refl
    redact_clean (arr vs) = items_clean vs
    redact_clean (obj fs) = redact_fields_clean fs

    items_clean : (vs : Items) → are_clean (redact_items decode_uri_component vs) ≡ true
    items_clean nil = refl
    items_clean (cons v vs) = rw (redact_clean v, items_clean vs) refl

    redact_fields_clean :
        (fs : Fields) → fields_clean (redact_fields decode_uri_component fs) ≡ true
    redact_fields_clean no_fields = refl
    redact_fields_clean (field key v fs) =
        let stays =
          entry_stays key v (redact decode_uri_component v) (redact-is_text v)
            (redact-is_plain_object v) (redact_clean v) in
        let entry = redact_entry decode_uri_component key v (redact decode_uri_component v) in
        let rest = redact_fields_clean fs in
        elim (Bool-cases (is_prototype key)) [
          | inl dropped ↦ rw dropped rest
          | inr own ↦
              rw (own, own)
                (all_three (may_stay key entry) (is_clean entry)
                  (fields_clean (redact_fields decode_uri_component fs))
                  (and_left (may_stay key entry) (is_clean entry) stays)
                  (and_right (may_stay key entry) (is_clean entry) stays) rest)
        ]

  text_stays : (s : String) → is_clean (str s) ≡ true → redact_text decode_uri_component s ≡ s
  unfolding is_clean redact_text
  text_stays s h = elim (Bool-cases (holds_secret_url decode_uri_component (units s))) [
    | inl hit ↦ cc (rw hit at h)
    | inr miss ↦ rw miss refl
  ]

  mark_is : (v : Json) → is_marked v ≡ true → v ≡ str redacted
  mark_is null h = cc
  mark_is (bool b) h = cc
  mark_is (num n) h = cc
  mark_is (str s) h = ap str ((same_iff s redacted).0 h)
  mark_is (arr vs) h = cc
  mark_is (obj fs) h = cc

  entry_fixed :
      (key : String) (v inner : Json)
      → may_stay key v ≡ true
      → inner ≡ v
      → redact_entry decode_uri_component key v inner ≡ v
  unfolding redact_entry
  entry_fixed key v inner h e = elim (Bool-cases (is_secret_map (units key) && is_plain_object v)) [
    | inl map ↦ cc (rw map at h)
    | inr no_map ↦ elim (Bool-cases (is_text v && is_secret_key (units key))) [
      | inl secret ↦ rw (no_map, secret) (sym (mark_is v (rw (no_map, secret) at h)))
      | inr rest ↦ rw (no_map, rest) e
    ]
  ]

  -- A clean value is left as it is.
  mutual
    unfolding redact is_clean

    clean_stays : (v : Json) → is_clean v ≡ true → redact decode_uri_component v ≡ v
    clean_stays null h = refl
    clean_stays (bool b) h = refl
    clean_stays (num n) h = refl
    clean_stays (str s) h = ap str (text_stays s h)
    clean_stays (arr vs) h = ap arr (items_stay vs h)
    clean_stays (obj fs) h = ap obj (fields_stay fs h)

    items_stay : (vs : Items) → are_clean vs ≡ true → redact_items decode_uri_component vs ≡ vs
    items_stay nil h = refl
    items_stay (cons v vs) h =
        rw
          (
            clean_stays v (and_left (is_clean v) (are_clean vs) h),
            items_stay vs (and_right (is_clean v) (are_clean vs) h),
          )
          refl

    fields_stay :
        (fs : Fields) → fields_clean fs ≡ true → redact_fields decode_uri_component fs ≡ fs
    fields_stay no_fields h = refl
    fields_stay (field key v fs) h =
        let entry_clean = may_stay key v && (is_clean v && fields_clean fs) in
        let own : is_prototype key ≡ false =
          ground (arith, and_left (not (is_prototype key)) entry_clean h) in
        let stays = and_right (not (is_prototype key)) entry_clean h in
        let may = and_left (may_stay key v) (is_clean v && fields_clean fs) stays in
        let both = and_right (may_stay key v) (is_clean v && fields_clean fs) stays in
        let inner = clean_stays v (and_left (is_clean v) (fields_clean fs) both) in
        let entry = entry_fixed key v (redact decode_uri_component v) may inner in
        let rest = fields_stay fs (and_right (is_clean v) (fields_clean fs) both) in
        rw (own, entry, rest) refl

  -- What is kept of a value is clean: no text of it holds a URL with a secret, no object stands under a
  -- name of headers, no text but the mark under the name of a secret, and nothing under "__proto__"; and
  -- a value that was clean is kept as it is.
  pub redact-stays_clean :
      (v : Json)
      → (is_clean (redact decode_uri_component v) ≡ true)
        × ((is_clean v ≡ false) ⊎ (redact decode_uri_component v ≡ v))
  redact-stays_clean v = (
    redact_clean v,
    elim (Bool-cases (is_clean v)) [
      | inl clean ↦ inr (clean_stays v clean)
      | inr dirty ↦ inl dirty
    ],
  )
