-- ===== src/Proxy/Units.antt =====
-- Texts as JavaScript has them, lists of UTF-16 code units, with the string operations that the proxy uses.
use Prim.Native.Char.{code}
use t3code_client.Prelude.{
  ℕ, ◌==◌, leb, String, Bool, true, false, ◌&&◌, ◌||◌, Option, none, some, List, [], ◌∷◌, ◌++◌,
  if◌then◌else◌, ◌≡◌, refl, arith,
}
use mathlib.Core.List.{reverse}

abbrev pub Text : Type 0
Text = List ℕ

-- The units of a text of the basic plane.
abbrev pub units : String → Text
units String.[] = []
units (String.◌∷◌ c s) = code c ∷ units s

-- The white space and line terminators of the language, which `trim` removes and `\s` matches.
unfoldable pub is_space : ℕ → Bool
is_space c =
    leb 9 c && leb c 13
    || (c == 32 || c == 0xa0 || c == 0x1680)
    || leb 0x2000 c && leb c 0x200a
    || (c == 0x2028 || c == 0x2029 || c == 0x202f || c == 0x205f || c == 0x3000 || c == 0xfeff)

unfoldable pub drop_while : (ℕ → Bool) → Text → Text
drop_while p [] = []
drop_while p (c ∷ s) = if p c then drop_while p s else c ∷ s

-- `trimStart` and `trimEnd`
unfoldable pub trim_start : Text → Text
unfolding drop_while is_space
trim_start s = drop_while is_space s

unfoldable pub trim_end : Text → Text
unfolding drop_while is_space
trim_end s = reverse (drop_while is_space (reverse s))

-- What follows a prefix, or none for another text.
unfoldable pub after : Text → Text → Option Text
after [] s = some s
after (c ∷ p) [] = none
after (c ∷ p) (d ∷ s) = if c == d then after p s else none

abbrev pub is_some_text : Option Text → Bool
is_some_text none = false
is_some_text (some s) = true

-- `startsWith`
abbrev pub starts_with : Text → Text → Bool
starts_with s p = is_some_text (after p s)

-- What stands before a suffix, or none for a text that does not end with it.
abbrev pub turned : Option Text → Option Text
turned none = none
turned (some s) = some (reverse s)

unfoldable pub before : Text → Text → Option Text
unfolding after
before p s = turned (after (reverse p) (reverse s))

-- `===`
unfoldable pub same_text : Text → Text → Bool
same_text [] [] = true
same_text [] (d ∷ t) = false
same_text (c ∷ s) [] = false
same_text (c ∷ s) (d ∷ t) = c == d && same_text s t

pub same_text_eq : (s t : Text) → same_text s t ≡ true → s ≡ t
unfolding same_text
same_text_eq [] [] h = refl
same_text_eq [] (d ∷ t) h = cc
same_text_eq (c ∷ s) [] h = cc
same_text_eq (c ∷ s) (d ∷ t) h = ground (arith, same_text_eq s t)

pub after-append : (p s : Text) → after p (p ++ s) ≡ some s
unfolding after
after-append [] s = refl
after-append (c ∷ p) s = ground (arith, after-append p s)
