-- ===== src/Proxy/Stamped.antt =====
-- packages/t3code-proxy/src/byline.ts: a byline that is put on a text and taken off again.
use mathlib.Core.List.{reverse, reverse-append, reverse-reverse}
use t3code_client.Prelude.{
  ◌==◌, true, false, Option, none, some, or_else, List, [], ◌∷◌, ◌++◌, any, ◌≡◌, refl, sym, ap, ◌∙◌,
  inl, inr, arith, append_assoc, append-nil, All, All-append, Bool-cases,
}
use t3code_client.Proxy.Units.{
  Text, units, is_space, drop_while, trim_start, trim_end, after, starts_with, before, same_text,
  same_text_eq,
}
use t3code_client.Proxy.KnownNames.{
  LongestFirst, longest_first-LongestFirst, any-longest_first, after_name_known, after_self,
}
use t3code_client.Proxy.Byline.{
  byline_start, attachment_only_placeholder, with_byline, is_line_break, longest_first,
  is_line_start, after_start, after_byline, drop_line_end, joined, without, search, without_byline,
}

-- A text on one line.
abbrev pub OneLine : Text → Type 0
OneLine s = All (λ c. c == 10 ≡ false) s

after_start_inside : (ns : List Text) (o : Option Text) → after_start ns false o ≡ none
after_start_inside ns none = refl
after_start_inside ns (some s) = refl

-- No byline begins inside a line.
search_skips :
    (ns : List Text) (xs rev s : Text)
    → OneLine xs
    → search ns (xs ++ rev) s ≡ search ns rev (reverse xs ++ s)
unfolding search
search_skips ns [] rev s h = refl
search_skips ns (x ∷ xs) rev s h = rw (inside, search) (search_skips ns xs rev (x ∷ s) h.1 ∙ turn)
  where
    inside : after_byline ns (x ∷ (xs ++ rev)) s ≡ none
    inside = unfold after_byline in rw h.0 (after_start_inside ns (after byline_start s))

    turn : search ns rev (reverse xs ++ x ∷ s) ≡ search ns rev (reverse (x ∷ xs) ++ s)
    turn = ap (search ns rev) (
        sym (append_assoc (reverse xs) (x ∷ []) s)
        ∙ ap (λ (t : Text). t ++ s) (sym (reverse-append (x ∷ []) xs)))

drop_while_twice :
    (s : Text) → drop_while is_space (drop_while is_line_break s) ≡ drop_while is_space s
unfolding drop_while is_space
drop_while_twice [] = refl
drop_while_twice (c ∷ s) = ground (arith, drop_while_twice s)

-- Behind a text and its line breaks, only the white space of the end goes.
trim_end-joined_nothing :
    (rev : Text) → trim_end (joined rev []) ≡ reverse (drop_while is_space rev)
unfolding trim_end drop_line_end
trim_end-joined_nothing [] = refl
trim_end-joined_nothing (c ∷ rev) =
    rw (append-nil (reverse (c ∷ rev)), reverse-reverse (c ∷ rev)) refl

without_nothing : (rev : Text) → without rev [] ≡ reverse (drop_while is_space rev)
unfolding without
without_nothing rev =
    trim_end-joined_nothing (drop_while is_line_break rev) ∙ ap reverse (drop_while_twice rev)

before_self : (s : Text) → before s s ≡ some []
unfolding before
before_self s = rw (after_self (reverse s)) refl

same_text_clear : (s t : Text) → before t s ≡ none → same_text s t ≡ false
same_text_clear s t b = elim (Bool-cases (same_text s t)) [
  | inl hit ↦ cc (before_self t, same_text_eq s t hit)
  | inr miss ↦ miss
]

with_byline_plain :
    (text name : Text)
    → starts_with (trim_start text) (units "/") ≡ false
    → before attachment_only_placeholder text ≡ none
    → same_text text [] ≡ false
    → with_byline text name ≡ text ++ 10 ∷ 10 ∷ (byline_start ++ name)
unfolding with_byline
with_byline_plain text name plain b e =
    rw (plain, e, same_text_clear text attachment_only_placeholder b, b) refl

with_byline-nil : (name : Text) → with_byline [] name ≡ byline_start ++ name
unfolding with_byline
with_byline-nil name = refl

reverse-OneLine : (s : Text) → OneLine s → OneLine (reverse s)
reverse-OneLine [] h = tt
reverse-OneLine (c ∷ s) h =
    rw (reverse-append (c ∷ []) s)
      (All-append (λ c. c == 10 ≡ false) (reverse s) (c ∷ []) (reverse-OneLine s h.1) (h.0, tt))

byline_start-OneLine : OneLine byline_start
byline_start-OneLine =
    (refl, (refl, (refl, (refl, (refl, (refl, (refl, (refl, (refl, (refl, tt))))))))))

search_here :
    (ns : List Text) (rev s rest : Text)
    → after_byline ns rev s ≡ some rest
    → search ns rev s ≡ some (without rev rest)
unfolding search
search_here ns [] s rest h = rw (h, search) refl
search_here ns (c ∷ rev) s rest h = rw (h, search) refl

-- The search finds the byline at the end of a text, and nothing stands behind it.
search-stamped :
    (ns : List Text) (name rev : Text)
    → LongestFirst ns
    → any (same_text name) ns ≡ true
    → OneLine name
    → is_line_start rev ≡ true
    → search ns (reverse name ++ (reverse byline_start ++ rev)) [] ≡ some (without rev [])
search-stamped ns name rev l m o b =
    search_skips ns (reverse name) (reverse byline_start ++ rev) [] (reverse-OneLine name o)
    ∙ search_skips ns (reverse byline_start) rev _
        (reverse-OneLine byline_start byline_start-OneLine)
    ∙ search_here ns rev _ [] whole
  where
    whole :
        after_byline ns rev (reverse (reverse byline_start) ++ (reverse (reverse name) ++ []))
        ≡ some []
    whole =
        unfold after_byline in
        rw (reverse-reverse name, append-nil name, b) (after_name_known name ns l m)

reversed :
    (text name : Text)
    → reverse (text ++ 10 ∷ 10 ∷ (byline_start ++ name))
      ≡ reverse name ++ (reverse byline_start ++ 10 ∷ 10 ∷ reverse text)
reversed text name =
    let break = 10 ∷ 10 ∷ byline_start in
    reverse-append text (break ++ name)
    ∙ ap (λ (t : Text). t ++ reverse text) (reverse-append break name)
    ∙ append_assoc (reverse name) (reverse break) (reverse text)

off_nil :
    (name : Text) (names : List Text)
    → OneLine name
    → any (same_text name) names ≡ true
    → without_byline (with_byline [] name) names ≡ trim_end []
unfolding without_byline
off_nil name names o m =
    rw (with_byline-nil name, reverse-append byline_start name)
      (ap (λ t. or_else t (byline_start ++ name))
        (search-stamped (longest_first names) name [] (longest_first-LongestFirst names)
          (any-longest_first (same_text name) names ∙ m) o refl))

off_plain :
    (text name : Text) (names : List Text)
    → OneLine name
    → any (same_text name) names ≡ true
    → without_byline (text ++ 10 ∷ 10 ∷ (byline_start ++ name)) names ≡ trim_end text
unfolding without_byline
off_plain text name names o m = rw (reversed text name) (
    ap (λ t. or_else t (text ++ 10 ∷ 10 ∷ (byline_start ++ name)))
      (search-stamped (longest_first names) name (10 ∷ 10 ∷ reverse text)
        (longest_first-LongestFirst names) (any-longest_first (same_text name) names ∙ m) o refl)
    ∙ without_nothing (10 ∷ 10 ∷ reverse text))

-- The byline of a known name on one line that was put on a text comes off again, with the white space
-- at the end of the text. The text is no command, and does not end with the placeholder of a
-- message of attachments only.
pub without_byline-with_byline :
    (text name : Text) (names : List Text)
    → starts_with (trim_start text) (units "/") ≡ false
    → before attachment_only_placeholder text ≡ none
    → OneLine name
    → any (same_text name) names ≡ true
    → without_byline (with_byline text name) names ≡ trim_end text
without_byline-with_byline text name names plain b o m = elim (Bool-cases (same_text text [])) [
  | inl blank ↦ rw (same_text_eq text [] blank) (off_nil name names o m)
  | inr written ↦ rw (with_byline_plain text name plain b written) (off_plain text name names o m)
]
