-- ===== src/Thread/Announcements.antt =====
-- The two loops of `#reconcileRequests`, by what they announce and resolve.
use t3code_client.Prelude.{
  String, Bool, true, false, ◌||◌, Option, none, some, List, [], ◌∷◌, ◌++◌, same, same_iff,
  if◌then◌else◌, ◌≡◌, refl, ap, sym, subst, arith, Bool-cases, inl, inr,
}
use t3code_client.Thread.Upsert.{Distinct, Distinct-append}
use t3code_client.Thread.Derived.{PendingRequest}
use t3code_client.Thread.Tracker.{
  Item, assistant_delta, requested, request_resolved, turn_settled, has, resolve, is_silent,
  announce,
}
use t3code_client.Thread.Settled.{has-append}

-- Reads the items for the request with id q, which is open or not: none if it is announced while it is
-- open, or resolved while it is not.
abbrev pub play : String → Bool → List Item → Option Bool
play q is_open [] = some is_open
play q is_open (requested r ∷ items) =
    if same r.request.id q
    then (if is_open then none else play q true items)
    else play q is_open items
play q is_open (request_resolved id ∷ items) =
    if same id q then (if is_open then play q false items else none) else play q is_open items
play q is_open (assistant_delta i m x s d ∷ items) = play q is_open items
play q is_open (turn_settled o ∷ items) = play q is_open items

pub play-append :
    (q : String) (b c : Bool) (xs ys : List Item)
    → play q b xs ≡ some c
    → play q b (xs ++ ys) ≡ play q c ys
play-append q b c [] ys h = ap (λ x. play q x ys) (ground arith)
play-append q b c (requested r ∷ xs) ys h =
    ground (arith, play-append q true c xs ys, play-append q b c xs ys)
play-append q b c (request_resolved id ∷ xs) ys h =
    ground (arith, play-append q false c xs ys, play-append q b c xs ys)
play-append q b c (assistant_delta i m x s d ∷ xs) ys h = play-append q b c xs ys h
play-append q b c (turn_settled o ∷ xs) ys h = play-append q b c xs ys h

resolve_others :
    (q : String) (b : Bool) (open_ids ids : List String)
    → has q ids ≡ false
    → (play q b (resolve open_ids ids).1 ≡ some b) × (has q (resolve open_ids ids).0 ≡ false)
resolve_others q b open_ids [] h = (refl, refl)
resolve_others q b open_ids (id ∷ ids) h = ground (arith, resolve_others q b open_ids ids)

has_iff : (q k : String) (s : List String) → q ≡ k → has q s ≡ has k s
has_iff q k s e = ap (λ x. has x s) e

pub play-resolve :
    (q : String) (open_ids ids : List String)
    → Distinct ids
    → play q (has q ids) (resolve open_ids ids).1 ≡ some (has q (resolve open_ids ids).0)
play-resolve q open_ids [] d = refl
play-resolve q open_ids (id ∷ ids) (fresh, d) = ground (
  arith,
  play-resolve q open_ids ids d,
  same_iff id q,
  has_iff q id ids,
  resolve_others q true open_ids ids,
  resolve_others q false open_ids ids,
)

either_list :
    (b : Bool) (id : String) (kept : List String) (i : Item) (items : List Item)
    → Distinct (id ∷ kept)
    → Distinct kept
    → let x : List String × List Item = if b then (id ∷ kept, items) else (kept, i ∷ items) in
      Distinct x.0
either_list true id kept i items d e = d
either_list false id kept i items d e = e

pub resolve-Distinct :
    (open_ids ids : List String) → Distinct ids → Distinct (resolve open_ids ids).0
resolve-Distinct open_ids [] d = tt
resolve-Distinct open_ids (id ∷ ids) (fresh, d) =
    either_list (has id open_ids) id (resolve open_ids ids).0 (request_resolved id)
      (resolve open_ids ids).1
      ((resolve_others id true open_ids ids fresh).1, resolve-Distinct open_ids ids d)
      (resolve-Distinct open_ids ids d)

pub play-announce :
    (q : String) (rs : List PendingRequest) (s : List String)
    → play q (has q s) (announce rs s).1 ≡ some (has q (announce rs s).0)
play-announce q [] s = refl
play-announce q (r ∷ rs) s = ground (
  arith,
  play-announce q rs s,
  play-announce q rs (s ++ r.request.id ∷ []),
  has-append q s r.request.id,
  same_iff r.request.id q,
  has_iff q r.request.id s,
)

skip-announce :
    (r : PendingRequest) (rs : List PendingRequest) (s : List String)
    → (has r.request.id s || is_silent r) ≡ true
    → (announce (r ∷ rs) s).0 ≡ (announce rs s).0
skip-announce r rs s h = ground (arith, h)

add-announce :
    (r : PendingRequest) (rs : List PendingRequest) (s : List String)
    → (has r.request.id s || is_silent r) ≡ false
    → (announce (r ∷ rs) s).0 ≡ (announce rs (s ++ r.request.id ∷ [])).0
add-announce r rs s h = ground (arith, h)

pub announce-Distinct :
    (rs : List PendingRequest) (s : List String) → Distinct s → Distinct (announce rs s).0
announce-Distinct [] s d = d
announce-Distinct (r ∷ rs) s d = elim (Bool-cases (has r.request.id s || is_silent r)) [
  | inl skipped ↦ subst Distinct (sym (skip-announce r rs s skipped)) (announce-Distinct rs s d)
  | inr new ↦ subst Distinct (sym (add-announce r rs s new)) (
      announce-Distinct rs (s ++ r.request.id ∷ [])
        (Distinct-append s r.request.id d (ground (arith, new))))
]
