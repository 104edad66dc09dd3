-- ===== src/Follow/Shown.antt =====
-- What a command that streams shows of a message.
use t3code_client.Prelude.{
  ltb, leb, Bool-cases, String, Bool, true, false, Option, none, some, List, [], ◌∷◌, ◌++◌, length,
  same, same_refl, same_iff, ◌∙◌, if◌then◌else◌, ◌≡◌, refl, sym, ap, inl, inr, append_assoc,
  append-nil, arith,
}
use t3code_client.Prelude.Dict.{lookup, insert, lookup-insert}
use t3code_client.Thread.Watch.{WatchItem}
use t3code_client.Proxy.Units.{Text, after, starts_with}
use t3code_client.Follow.Stream.{
  FollowStream, previous, delta, append, printed, append_all, texts, follow,
}
use t3code_client.Follow.Sayings.{
  of_message, of_message-append, sayings, about, item-about, about-none,
}

abbrev pub concat : List Text → Text
concat [] = []
concat (t ∷ ts) = t ++ concat ts

-- The longest text, the first of those that are equally long.
abbrev pub longer : Text → Text → Text
longer best t = if ltb (length best) (length t) then t else best

abbrev pub longest : Text → List Text → Text
longest best [] = best
longest best (t ∷ ts) = longest (longer best t) ts

abbrev pub AllPrefixes : Text → List Text → Type 0
AllPrefixes whole [] = Unit
AllPrefixes whole (t ∷ ts) = (starts_with whole t ≡ true) × AllPrefixes whole ts

-- Of two prefixes of a text the shorter one is a prefix of the other.
prefixes_by_length :
    (s t whole : Text)
    → starts_with whole s ≡ true
    → starts_with whole t ≡ true
    → starts_with t s ≡ leb (length s) (length t)
unfolding after
prefixes_by_length [] t whole hs ht = ground arith
prefixes_by_length (c ∷ s) [] whole hs ht = ground arith
prefixes_by_length (c ∷ s) (d ∷ t) [] hs ht = cc
prefixes_by_length (c ∷ s) (d ∷ t) (e ∷ whole) hs ht = ground (arith, prefixes_by_length s t whole)

append-delta : (s t : Text) → starts_with t s ≡ true → s ++ delta s t ≡ t
unfolding after
append-delta [] t h = refl
append-delta (c ∷ s) [] h = cc
append-delta (c ∷ s) (d ∷ t) h = ground (arith, append-delta s t)

-- What was printed of a message is what the map has for it.
abbrev pub shown : String → List (String × Text) → Text
shown id ds = concat (of_message id ds)

concat-append : (xs ys : List Text) → concat (xs ++ ys) ≡ concat xs ++ concat ys
concat-append [] ys = refl
concat-append (x ∷ xs) ys = rw (concat-append xs ys, append_assoc) refl

previous-insert :
    (id j : String) (text : Text) (s : FollowStream)
    → previous id (insert j text s) ≡ (if same j id then text else previous id s)
previous-insert id j text s = ground (arith, lookup-insert j id text s)

-- One call, on the message itself: the map has the longer of the two texts, and the delta makes it of
-- what was printed.
append-shows :
    (id : String) (text whole : Text) (s : FollowStream)
    → starts_with whole (previous id s) ≡ true
    → starts_with whole text ≡ true
    → (previous id (append id text s).0 ≡ longer (previous id s) text)
      × (previous id s ++ shown id (printed id (append id text s).1)
          ≡ previous id (append id text s).0)
unfolding append
append-shows id text whole s hs ht = elim (Bool-cases (starts_with (previous id s) text)) [
  | inl old ↦
      rw old (ground (arith, prefixes_by_length text (previous id s) whole ht hs), append-nil _)
  | inr new ↦
      let longer_text : ltb (length (previous id s)) (length text) ≡ true =
        ground (arith, prefixes_by_length text (previous id s) whole ht hs) in
      let extends : starts_with text (previous id s) ≡ true =
        ground (arith, prefixes_by_length (previous id s) text whole hs ht) in
      rw (new, previous-insert id id text s, same_refl id, longer_text, append-nil)
        (refl, append-delta (previous id s) text extends)
]

append_here :
    (id j : String) (text whole : Text) (s : FollowStream)
    → same j id ≡ true
    → starts_with whole (previous id s) ≡ true
    → starts_with whole text ≡ true
    → (previous id (append j text s).0 ≡ longer (previous id s) text)
      × (previous id s ++ shown id (printed j (append j text s).1)
          ≡ previous id (append j text s).0)
append_here id j text whole s hit hs ht =
    rw ((same_iff j id).0 hit) (append-shows id text whole s hs ht)

-- And on another message.
append_elsewhere :
    (id j : String) (text : Text) (s : FollowStream)
    → same j id ≡ false
    → (previous id (append j text s).0 ≡ previous id s)
      × (shown id (printed j (append j text s).1) ≡ [])
unfolding append
append_elsewhere id j text s miss = elim (Bool-cases (starts_with (previous j s) text)) [
  | inl old ↦ rw old (refl, refl)
  | inr new ↦ rw (new, previous-insert id j text s, miss) (refl, refl)
]

shown-append :
    (id : String) (xs ys : List (String × Text)) → shown id (xs ++ ys) ≡ shown id xs ++ shown id ys
shown-append id xs ys = rw (of_message-append, concat-append) refl

longer-prefix :
    (s t whole : Text)
    → starts_with whole s ≡ true
    → starts_with whole t ≡ true
    → starts_with whole (longer s t) ≡ true
longer-prefix s t whole hs ht = ground arith

-- Further calls go on from what the map has.
shows_on :
    (id : String) (ts : List (String × Text)) (d : List (String × Text)) (s s1 : FollowStream)
    → previous id s ++ shown id d ≡ previous id s1
    → previous id s1 ++ shown id (append_all ts s1).1 ≡ previous id (append_all ts s1).0
    → previous id s ++ shown id (d ++ (append_all ts s1).1) ≡ previous id (append_all ts s1).0
shows_on id ts d s s1 h rest =
    rw
      (shown-append, ← append_assoc (previous id s) (shown id d) (shown id (append_all ts s1).1), h)
      rest

append_all-shows :
    (id : String) (ts : List (String × Text)) (whole : Text) (s : FollowStream)
    → starts_with whole (previous id s) ≡ true
    → AllPrefixes whole (of_message id ts)
    → (previous id (append_all ts s).0 ≡ longest (previous id s) (of_message id ts))
      × (previous id s ++ shown id (append_all ts s).1 ≡ previous id (append_all ts s).0)
unfolding append_all
append_all-shows id [] whole s hs ht = (refl, append-nil _)
append_all-shows id ((j, text) ∷ ts) whole s hs ht = elim (Bool-cases (same j id)) [
  | inl hit ↦
      let (t_prefix, ts_prefix) = rw hit at ht in
      let (kept, told) = append_here id j text whole s hit hs t_prefix in
      let (best, all) =
        append_all-shows id ts whole (append j text s).0
          (rw kept (longer-prefix (previous id s) text whole hs t_prefix)) ts_prefix in
      rw hit (best ∙ ap (λ p. longest p (of_message id ts)) kept, shows_on id ts _ s _ told all)
  | inr miss ↦
      let (kept, silent) = append_elsewhere id j text s miss in
      let (best, all) =
        append_all-shows id ts whole (append j text s).0 (rw kept hs) (rw miss at ht) in
      rw miss (
        best ∙ ap (λ p. longest p (of_message id ts)) kept,
        shows_on id ts _ s _ (rw (silent, append-nil) (sym kept)) all,
      )
]

append_all-append :
    (xs ys : List (String × Text)) (s : FollowStream)
    → ((append_all (xs ++ ys) s).0 ≡ (append_all ys (append_all xs s).0).0)
      × ((append_all (xs ++ ys) s).1 ≡ (append_all xs s).1 ++ (append_all ys (append_all xs s).0).1)
unfolding append_all
append_all-append [] ys s = (refl, refl)
append_all-append ((j, text) ∷ xs) ys s =
    let (stored, told) = append_all-append xs ys (append j text s).0 in
    (stored, rw (told, append_assoc) refl)

module _ (units : String → Text) (streams : Bool) where
  -- The texts that a watch tells of a message in the run that is followed at the time, in order; none
  -- for a command that does not stream.
  abbrev pub told : String → List (WatchItem × Option String) → List Text
  told id [] = []
  told id ((item, run) ∷ items) =
      (if streams then about units id run (sayings item) else []) ++ told id items

  abbrev all_texts : List (WatchItem × Option String) → List (String × Text)
  all_texts [] = []
  all_texts ((item, run) ∷ items) = texts units streams item run ++ all_texts items

  texts-about :
      (id : String) (item : WatchItem) (run : Option String)
      → of_message id (texts units streams item run)
        ≡ (if streams then about units id run (sayings item) else [])
  texts-about id item none = ground (arith, about-none units id (sayings item))
  texts-about id item (some run) = ground (arith, item-about units id run item)

  all_texts-told :
      (id : String) (items : List (WatchItem × Option String))
      → of_message id (all_texts items) ≡ told id items
  all_texts-told id [] = refl
  all_texts-told id ((item, run) ∷ items) =
      rw (of_message-append, texts-about id item run, all_texts-told id items) refl

  follow-append_all :
      (items : List (WatchItem × Option String)) (s : FollowStream)
      → (follow units streams items s).1 ≡ (append_all (all_texts items) s).1
  unfolding follow
  follow-append_all [] s = refl
  follow-append_all ((item, run) ∷ items) s =
      let (stored, shows) = append_all-append (texts units streams item run) (all_texts items) s in
      rw (shows, follow-append_all items (append_all (texts units streams item run) s).0) refl

  -- A command that streams a run shows of each message the longest text that the watch told of it, by the
  -- rows of that run in a snapshot or by a delta of that run, also where snapshots tell again what was
  -- shown; and nothing where it does not stream. The texts of the message are prefixes of one text.
  pub follow-shows :
      (items : List (WatchItem × Option String)) (id : String) (whole : Text)
      → AllPrefixes whole (told id items)
      → shown id (follow units streams items []).1 ≡ longest [] (told id items)
  unfolding lookup after
  follow-shows items id whole h =
      let same_texts = all_texts-told id items in
      let (best, all) = append_all-shows id (all_texts items) whole [] refl (rw same_texts h) in
      rw (follow-append_all items []) (all ∙ rw same_texts at best)
