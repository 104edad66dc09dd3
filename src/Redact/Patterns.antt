-- ===== src/Redact/Patterns.antt =====
-- packages/t3code-lib/src/internal/redact.ts: its regular expressions, which have the flags `iu`, on the
-- code points of a text.
use mathlib.Core.List.{reverse}
use t3code_client.Prelude.{
  ℕ, zero, suc, ◌+◌, ◌==◌, leb, Bool, true, false, not, ◌&&◌, ◌||◌, Option, none, some, List, [],
  ◌∷◌, all, any, map, length, if◌then◌else◌,
}
use t3code_client.Proxy.Units.{Text, units, is_space, same_text}

-- The case folding of ASCII letters, the Kelvin sign and the long s.
abbrev pub fold : ℕ → ℕ
fold c =
    if leb 65 c && leb c 90
    then c + 32
    else if c == 0x212a
    then 107
    else if c == 0x17f
    then 115
    else c

abbrev pub is_letter : ℕ → Bool
is_letter c = leb 97 (fold c) && leb (fold c) 122

abbrev pub is_digit : ℕ → Bool
is_digit c = leb 48 c && leb c 57

-- `\w`
abbrev pub is_word_unit : ℕ → Bool
is_word_unit c = is_letter c || is_digit c || c == 95

abbrev pub starts_with_word : Text → Text → Bool
starts_with_word [] s = true
starts_with_word (c ∷ w) [] = false
starts_with_word (c ∷ w) (d ∷ s) = c == fold d && starts_with_word w s

abbrev pub has_word : Text → Text → Bool
has_word w [] = starts_with_word w []
has_word w (c ∷ s) = starts_with_word w (c ∷ s) || has_word w s

abbrev pub is_word : Text → Text → Bool
is_word w s = same_text w (map fold s)

abbrev pub secret_words : List Text
secret_words =
    units "token"
    ∷ units "credential"
    ∷ units "secret"
    ∷ units "authorization"
    ∷ units "password"
    ∷ units "ticket"
    ∷ units "usercode"
    ∷ units "verifier"
    ∷ []

-- `SECRET_KEY.test`
unfoldable pub is_secret_key : Text → Bool
unfolding same_text
is_secret_key s =
    any (λ w. has_word w s) secret_words || is_word (units "dpop") s || is_word (units "d") s

-- `SECRET_MAP.test`
unfoldable pub is_secret_map : Text → Bool
unfolding same_text
is_secret_map s = is_word (units "headers") s

abbrev pub secret_query_names : List Text
secret_query_names =
    units "code" ∷ units "code_verifier" ∷ units "state" ∷ units "id_token_hint" ∷ []

-- `SECRET_QUERY_NAME.test`
unfoldable pub is_secret_query_name : Text → Bool
unfolding same_text
is_secret_query_name s =
    any (λ w. is_word w s) secret_query_names
    || all is_word_unit s && starts_with_word (reverse (units "token")) (reverse s)

-- The matches of `QUERY_NAME`: outside of a name, and within one, the units of which stand last first. A
-- match that fails within a name fails from each unit of it.
abbrev pub opens_name : ℕ → Bool
opens_name c = c == 63 || c == 38

abbrev pub ended : Text → List Text → List Text
ended [] names = names
ended (c ∷ name) names = reverse (c ∷ name) ∷ names

abbrev pub next_place : ℕ → Option Text → Option Text
next_place c none = if opens_name c then some [] else none
next_place c (some name) =
    if c == 61 || is_space c then none else if c == 38 then some [] else some (c ∷ name)

abbrev pub ended_at : ℕ → Option Text → List Text → List Text
ended_at c none names = names
ended_at c (some name) names = if c == 61 then ended name names else names

unfoldable pub query_names : Option Text → Text → List Text
unfolding is_space
query_names place [] = []
query_names place (c ∷ s) = ended_at c place (query_names (next_place c place) s)

-- The scheme of `URL_USERINFO`: its further units, and what follows `://`.
abbrev pub is_scheme_unit : ℕ → Bool
is_scheme_unit c = is_letter c || is_digit c || c == 43 || c == 46 || c == 45

abbrev pub after_colon : Text → Option Text
after_colon [] = none
after_colon (c ∷ []) = none
after_colon (c ∷ d ∷ s) = if c == 47 && d == 47 then some s else none

unfoldable pub scheme_rest : Text → Option (Text × Text)
scheme_rest [] = none
scheme_rest (c ∷ s) =
    let rest = scheme_rest s in
    if c == 58
    then elim (after_colon s) [ none ↦ none | some authority ↦ some ([], authority) ]
    else if is_scheme_unit c
    then elim rest [ none ↦ none | some (scheme, authority) ↦ some (c ∷ scheme, authority) ]
    else none

-- The user information up to the last `@` of an authority.
abbrev pub is_authority_unit : ℕ → Bool
is_authority_unit c = not (is_space c || c == 47 || c == 63 || c == 35)

unfoldable pub userinfo : Text → Option Text
unfolding is_space
userinfo [] = none
userinfo (c ∷ s) =
    let rest = userinfo s in
    if is_authority_unit c
    then elim rest [ some info ↦ some (c ∷ info) | none ↦ if c == 64 then some [] else none ]
    else none

-- `toLowerCase` on the units of a scheme.
abbrev pub lower : ℕ → ℕ
lower c = if c == 0x17f then c else fold c

abbrev pub is_secret_userinfo : Text → Text → Bool
is_secret_userinfo scheme info =
    not (same_text (map lower scheme) (units "ssh")) || not (same_text info (units "git"))

-- A match that starts with a unit, behind a boundary of words: whether it is secret, and how many units
-- of the text behind that unit it takes.
abbrev pub userinfo_match : Bool → ℕ → Text → Option (Bool × ℕ)
userinfo_match after_word c s =
    if not after_word && is_letter c
    then elim (scheme_rest s) [
      | none ↦ none
      | some (scheme, authority) ↦ elim (userinfo authority) [
        | none ↦ none
        | some info ↦
            some (is_secret_userinfo (c ∷ scheme) info, length scheme + 3 + length info + 1)
      ]
    ]
    else none

-- The loop over the matches of `URL_USERINFO`; the first number is of the units that a match takes yet.
unfoldable pub has_secret_userinfo : Bool → ℕ → Text → Bool
unfolding scheme_rest userinfo same_text
has_secret_userinfo after_word skip [] = false
has_secret_userinfo after_word (suc skip) (c ∷ s) = has_secret_userinfo (is_word_unit c) skip s
has_secret_userinfo after_word zero (c ∷ s) = elim (userinfo_match after_word c s) [
  | none ↦ has_secret_userinfo (is_word_unit c) 0 s
  | some (secret, taken) ↦ secret || has_secret_userinfo (is_word_unit c) taken s
]

module _ (decode_uri_component : Text → Option Text) where
  -- `decodedName`
  abbrev pub decoded_name : Text → Text
  decoded_name name = elim (decode_uri_component name) [ none ↦ name | some decoded ↦ decoded ]

  -- `holdsSecretUrl`
  unfoldable pub holds_secret_url : Text → Bool
  unfolding is_secret_query_name query_names has_secret_userinfo
  holds_secret_url text =
      any (λ name. is_secret_query_name (decoded_name name)) (query_names none text)
      || has_secret_userinfo false 0 text
