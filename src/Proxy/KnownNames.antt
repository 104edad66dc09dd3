-- ===== src/Proxy/KnownNames.antt =====
-- packages/t3code-proxy/src/byline.ts: the names of a listener, the longest first.
use t3code_client.Prelude.{
  ℕ, ◌≤◌, Bool, true, ◌||◌, some, List, [], ◌∷◌, any, length, ◌≡◌, refl, ap, inl, inr, arith, All,
  Bool-cases, Option-cases,
}
use t3code_client.Proxy.Units.{Text, after, same_text, same_text_eq}
use t3code_client.Proxy.Byline.{insert_longest, longest_first, after_name}

abbrev AtMost : ℕ → List Text → Type 0
AtMost n ns = All (λ m. length m ≤ n) ns

-- The longest text stands first.
abbrev pub LongestFirst : List Text → Type 0
LongestFirst [] = Unit
LongestFirst (n ∷ ns) = AtMost (length n) ns × LongestFirst ns

AtMost-le : (n m : ℕ) (ns : List Text) → n ≤ m → AtMost n ns → AtMost m ns
AtMost-le n m [] l h = tt
AtMost-le n m (k ∷ ns) l h = (omega (arith, h.0), AtMost-le n m ns l h.1)

insert_longest-AtMost :
    (k : ℕ) (n : Text) (ns : List Text)
    → length n ≤ k
    → AtMost k ns
    → AtMost k (insert_longest n ns)
unfolding insert_longest
insert_longest-AtMost k n [] l h = (l, tt)
insert_longest-AtMost k n (m ∷ ms) l h =
    ground (arith, h.0, h.1, insert_longest-AtMost k n ms l h.1)

insert_longest-LongestFirst :
    (n : Text) (ns : List Text) → LongestFirst ns → LongestFirst (insert_longest n ns)
unfolding insert_longest
insert_longest-LongestFirst n [] h = (tt, tt)
insert_longest-LongestFirst n (m ∷ ms) h = ground (
  arith,
  insert_longest-LongestFirst n ms h.1,
  insert_longest-AtMost (length m) n ms,
  AtMost-le (length m) (length n) ms,
)

pub longest_first-LongestFirst : (ns : List Text) → LongestFirst (longest_first ns)
unfolding longest_first
longest_first-LongestFirst [] = tt
longest_first-LongestFirst (n ∷ ns) =
    insert_longest-LongestFirst n (longest_first ns) (longest_first-LongestFirst ns)

any-insert_longest :
    (p : Text → Bool) (n : Text) (ns : List Text) → any p (insert_longest n ns) ≡ p n || any p ns
unfolding insert_longest
any-insert_longest p n [] = refl
any-insert_longest p n (m ∷ ms) = ground (arith, any-insert_longest p n ms)

pub any-longest_first : (p : Text → Bool) (ns : List Text) → any p (longest_first ns) ≡ any p ns
unfolding longest_first
any-longest_first p [] = refl
any-longest_first p (n ∷ ns) =
    ground (arith, any-insert_longest p n (longest_first ns), any-longest_first p ns)

-- A prefix that is not shorter is the whole text.
after_whole : (p s rest : Text) → length s ≤ length p → after p s ≡ some rest → rest ≡ []
unfolding after
after_whole [] [] rest l h = cc
after_whole [] (d ∷ s) rest l h = absurd (omega arith)
after_whole (c ∷ p) [] rest l h = cc
after_whole (c ∷ p) (d ∷ s) rest l h = ground (arith, after_whole p s rest)

pub after_self : (s : Text) → after s s ≡ some []
unfolding after
after_self [] = refl
after_self (c ∷ s) = ground (arith, after_self s)

length_of_known :
    (n : Text) (k : ℕ) (ns : List Text) → AtMost k ns → any (same_text n) ns ≡ true → length n ≤ k
length_of_known n k [] h m = cc
length_of_known n k (x ∷ ns) h m = elim (Bool-cases (same_text n x)) [
  | inl hit ↦ rw (same_text_eq n x hit) h.0
  | inr miss ↦ length_of_known n k ns h.1 (rw miss at m)
]

-- The longest known name that a known name starts with is the name itself.
pub after_name_known :
    (n : Text) (ns : List Text)
    → LongestFirst ns
    → any (same_text n) ns ≡ true
    → after_name ns n ≡ some []
unfolding after_name
after_name_known n [] h m = cc
after_name_known n (x ∷ ns) h m = elim (Bool-cases (same_text n x)) [
  | inl hit ↦ rw (← same_text_eq n x hit, after_self n, after_name) refl
  | inr miss ↦
      let later : any (same_text n) ns ≡ true = rw miss at m in
      elim (Option-cases (after x n)) [
        | inl other ↦ rw (other, after_name) (after_name_known n ns h.1 later)
        | inr (rest, begins) ↦
            rw (begins, after_name)
              (ap some (after_whole x n rest (length_of_known n (length x) ns h.0 later) begins))
      ]
]
