-- ===== src/Proxy/Byline.antt =====
-- packages/t3code-proxy/src/byline.ts: the line that says who sent a message.
use mathlib.Core.List.{reverse}
use t3code_client.Prelude.{
  ℕ, ◌+◌, ◌==◌, leb, ltb, Bool, true, false, ◌&&◌, ◌||◌, Option, none, some, or_else, List, [], ◌∷◌,
  ◌++◌, all, length, if◌then◌else◌,
}
use t3code_client.Proxy.Units.{
  Text, units, is_space, drop_while, trim_start, trim_end, after, starts_with, before, same_text,
}

-- `BYLINE_START` and `ATTACHMENT_ONLY_PLACEHOLDER`
abbrev pub byline_start : Text
byline_start = units "— Sent by "

abbrev pub attachment_only_placeholder : Text
attachment_only_placeholder =
    units
      "[User attached one or more files without additional text. Respond using the conversation context and the attached files.]"

-- The case folding of the letters of `ULTRATHINK_PREFIX`: of ASCII, and of the Kelvin sign.
abbrev pub fold : ℕ → ℕ
fold c = if leb 65 c && leb c 90 then c + 32 else if c == 0x212a then 107 else c

abbrev pub after_folded : Text → Text → Option Text
after_folded [] s = some s
after_folded (c ∷ p) [] = none
after_folded (c ∷ p) (d ∷ s) = if c == fold d then after_folded p s else none

abbrev pub all_space : Option Text → Bool
all_space none = false
all_space (some s) = all is_space s

-- `ULTRATHINK_PREFIX.test`
unfoldable pub is_ultrathink_prefix : Text → Bool
unfolding is_space
is_ultrathink_prefix s = all_space (after_folded (units "ultrathink:") s)

unfoldable pub stamp : Text → Text → Option Text → Text
unfolding is_ultrathink_prefix
stamp text byline none = text ++ 10 ∷ 10 ∷ byline
stamp text byline (some prefix) =
    if is_ultrathink_prefix prefix then prefix ++ byline else text ++ 10 ∷ 10 ∷ byline

-- `withByline`
unfoldable pub with_byline : Text → Text → Text
unfolding trim_start after same_text stamp before
with_byline text name =
    if starts_with (trim_start text) (units "/")
    then text
    else if same_text text [] || same_text text attachment_only_placeholder
    then byline_start ++ name
    else stamp text (byline_start ++ name) (before attachment_only_placeholder text)

-- `isLineBreak`
abbrev pub is_line_break : ℕ → Bool
is_line_break c = c == 10 || c == 13

-- `sort` by the length, longest first, which is stable.
unfoldable pub insert_longest : Text → List Text → List Text
insert_longest n [] = n ∷ []
insert_longest n (m ∷ ms) =
    if ltb (length n) (length m) then m ∷ insert_longest n ms else n ∷ m ∷ ms

unfoldable pub longest_first : List Text → List Text
unfolding insert_longest
longest_first [] = []
longest_first (n ∷ ns) = insert_longest n (longest_first ns)

-- What follows the first of the names that a text starts with.
unfoldable pub after_name : List Text → Text → Option Text
unfolding after
after_name [] s = none
after_name (n ∷ ns) s = elim (after n s) [ some rest ↦ some rest | none ↦ after_name ns s ]

-- A position `at` is the text before it, the last unit first, and the text from it on.
abbrev pub is_line_start : Text → Bool
is_line_start [] = true
is_line_start (c ∷ rev) = c == 10

abbrev pub after_start : List Text → Bool → Option Text → Option Text
after_start ns starts none = none
after_start ns starts (some s) = if starts then after_name ns s else none

-- What follows a byline at a position.
unfoldable pub after_byline : List Text → Text → Text → Option Text
unfolding after_name
after_byline ns rev s = after_start ns (is_line_start rev) (after byline_start s)

-- The replacement of `BYLINE_LINE_END`.
abbrev pub is_blank : ℕ → Bool
is_blank c = c == 32 || c == 9

abbrev pub drop_line_feeds : Bool → Text → Text
drop_line_feeds returned [] = if returned then 13 ∷ [] else []
drop_line_feeds returned (c ∷ s) =
    let next = drop_line_feeds false s in
    let carried = drop_line_feeds true s in
    if c == 10 then next else if returned then 13 ∷ c ∷ s else if c == 13 then carried else c ∷ s

unfoldable pub drop_line_end : Text → Text
unfolding drop_while
drop_line_end s = drop_line_feeds false (drop_while is_blank s)

abbrev pub joined : Text → Text → Text
joined [] rest = drop_line_end rest
joined (c ∷ rev) rest = reverse (c ∷ rev) ++ rest

unfoldable pub without : Text → Text → Text
unfolding drop_while drop_line_end trim_end
without rev rest = trim_end (joined (drop_while is_line_break rev) rest)

-- The loop, from the last position to the first one.
unfoldable pub search : List Text → Text → Text → Option Text
unfolding after_byline without
search ns [] s = elim (after_byline ns [] s) [ some rest ↦ some (without [] rest) | none ↦ none ]
search ns (c ∷ rev) s = elim (after_byline ns (c ∷ rev) s) [
  | some rest ↦ some (without (c ∷ rev) rest)
  | none ↦ search ns rev (c ∷ s)
]

-- `withoutByline`
unfoldable pub without_byline : Text → List Text → Text
unfolding longest_first search
without_byline text names = or_else (search (longest_first names) (reverse text) []) text
