-- ===== src/Thread/Upsert.antt =====
-- What `upsertById` does to the entries, by their ids.
use t3code_client.Prelude.{
  String, Bool, false, some, List, [], ◌∷◌, ◌++◌, ◌≡◌, refl, ap, sym, subst, ◌∙◌, any, find, keep,
  map, same, same_iff, same_refl, if◌then◌else◌, arith, Option-cases, Bool-cases, inl, inr,
}
use t3code_client.Thread.Projection.{find_index, upsert_by_id}

-- No id twice.
abbrev pub Distinct : List String → Type 0
Distinct [] = Unit
Distinct (k ∷ ks) = (any (λ j. same j k) ks ≡ false) × Distinct ks

any-append :
    {A : Type 0}
    → (p : A → Bool) (xs : List A) (x : A) → p x ≡ false
    → any p xs ≡ false
    → any p (xs ++ x ∷ []) ≡ false
any-append p [] x h m = ground arith
any-append p (y ∷ xs) x h m = ground (arith, any-append p xs x h)

pub Distinct-append :
    (ks : List String) (k : String)
    → Distinct ks
    → any (λ j. same j k) ks ≡ false
    → Distinct (ks ++ k ∷ [])
Distinct-append [] k d m = (refl, tt)
Distinct-append (j ∷ ks) k (fresh, d) m = (
  any-append (λ i. same i j) ks k (ground (arith, same_iff k j, same_iff j k)) fresh,
  Distinct-append ks k d (ground arith),
)

module _ {A : Type 0} (id_of : A → String) where
  abbrev pub ids : List A → List String
  ids [] = []
  ids (x ∷ xs) = id_of x ∷ ids xs

  abbrev pub with_id : String → A → Bool
  with_id k x = same (id_of x) k

  -- One entry that replaces the first with its id, or stands behind the others.
  pub upsert-cons :
      (e x : A) (xs : List A)
      → upsert_by_id id_of (x ∷ xs) e
        ≡ (if same (id_of x) (id_of e) then e ∷ xs else x ∷ upsert_by_id id_of xs e)
  unfolding upsert_by_id
  upsert-cons e x xs = elim (Option-cases (find_index (with_id (id_of e)) xs)) [
    | inl absent ↦ ground arith
    | inr (i, found) ↦ ground arith
  ]

  pub upsert-nil : (e : A) → upsert_by_id id_of [] e ≡ e ∷ []
  unfolding upsert_by_id
  upsert-nil e = refl

  -- The entry with an id, after an upsert: the new one under its own id, and the old one under every
  -- other id.
  pub find-upsert_by_id :
      (e : A) (k : String) (xs : List A)
      → find (with_id k) (upsert_by_id id_of xs e)
        ≡ (if same (id_of e) k then some e else find (with_id k) xs)
  find-upsert_by_id e k [] = ground (arith, ap (find (with_id k)) (upsert-nil e))
  find-upsert_by_id e k (x ∷ xs) = ground (
    arith,
    ap (find (with_id k)) (upsert-cons e x xs),
    find-upsert_by_id e k xs,
    same_iff (id_of x) (id_of e),
    same_iff (id_of x) k,
    same_iff (id_of e) k,
  )

  -- The ids keep their places, and a new one stands behind them.
  pub ids-upsert_by_id :
      (e : A) (xs : List A)
      → ids (upsert_by_id id_of xs e)
        ≡ (if any (λ k. same k (id_of e)) (ids xs) then ids xs else ids xs ++ id_of e ∷ [])
  ids-upsert_by_id e [] = ground (arith, ap ids (upsert-nil e))
  ids-upsert_by_id e (x ∷ xs) =
      ground
        (arith, ap ids (upsert-cons e x xs), ids-upsert_by_id e xs, same_iff (id_of x) (id_of e))

  pub upsert_by_id-Distinct :
      (e : A) (xs : List A) → Distinct (ids xs) → Distinct (ids (upsert_by_id id_of xs e))
  upsert_by_id-Distinct e xs d = elim (Bool-cases (any (λ k. same k (id_of e)) (ids xs))) [
    | inl there ↦ subst Distinct (sym (ids-upsert_by_id e xs ∙ ground arith)) d
    | inr fresh ↦
        subst Distinct (sym (ids-upsert_by_id e xs ∙ ground arith))
          (Distinct-append (ids xs) (id_of e) d fresh)
  ]

  -- An upsert that was made already changes nothing.
  pub upsert_twice :
      (e : A) (xs : List A)
      → upsert_by_id id_of (upsert_by_id id_of xs e) e ≡ upsert_by_id id_of xs e
  upsert_twice e [] = ground (
    arith,
    ap (λ ys. upsert_by_id id_of ys e) (upsert-nil e),
    upsert-nil e,
    upsert-cons e e [],
    same_refl (id_of e),
  )
  upsert_twice e (x ∷ xs) = ground (
    arith,
    ap (λ ys. upsert_by_id id_of ys e) (upsert-cons e x xs),
    upsert-cons e x xs,
    upsert-cons e e xs,
    upsert-cons e x (upsert_by_id id_of xs e),
    same_refl (id_of e),
    upsert_twice e xs,
  )

  -- What a filter leaves of distinct ids is distinct.
  any-keep :
      (p : A → Bool) (k : String) (xs : List A)
      → any (λ j. same j k) (ids xs) ≡ false
      → any (λ j. same j k) (ids (keep p xs)) ≡ false
  any-keep p k [] h = refl
  any-keep p k (x ∷ xs) h = ground (arith, any-keep p k xs)

  pub keep-Distinct : (p : A → Bool) (xs : List A) → Distinct (ids xs) → Distinct (ids (keep p xs))
  keep-Distinct p [] d = tt
  keep-Distinct p (x ∷ xs) (fresh, d) = elim (Bool-cases (p x)) [
    | inl hit ↦
        let kept : x ∷ keep p xs ≡ keep p (x ∷ xs) = ground arith in
        subst (λ ys. Distinct (ids ys)) kept (any-keep p (id_of x) xs fresh, keep-Distinct p xs d)
    | inr miss ↦
        let dropped : keep p xs ≡ keep p (x ∷ xs) = ground arith in
        subst (λ ys. Distinct (ids ys)) dropped (keep-Distinct p xs d)
  ]

  -- A map that keeps each id keeps the ids.
  pub ids-map :
      (f : A → A) (xs : List A) → ((x : A) → id_of (f x) ≡ id_of x) → ids (map f xs) ≡ ids xs
  ids-map f [] h = refl
  ids-map f (x ∷ xs) h = ground (arith, h x, ids-map f xs h)
