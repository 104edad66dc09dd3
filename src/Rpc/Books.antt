-- ===== src/Rpc/Books.antt =====
-- The books of the calls: how often the promise of a call was settled, and if it is in flight.
use t3code_client.Prelude.{
  ℕ, ◌+◌, String, Option, none, some, List, [], ◌∷◌, ◌≡◌, refl, ap, subst, ◌==◌, tally, arith,
  Bool-cases, Option-cases, inl, inr, same, same_iff,
}
use t3code_client.Prelude.Dict.{
  lookup, insert, delete, Unique, insert-Unique, delete-Unique, delete_absent, lookup-insert,
  lookup-delete,
}
use t3code_client.Json.{Json}
use t3code_client.Errors.{T3Error}
use t3code_client.Wire.Envelope.{ClientEnvelope}
use t3code_client.Rpc.State.{
  Entry, call, stream, Owner, owner, Stream, Act, sent, resolved, rejected, handed, Conn, note,
  with_stream, try_send, release, release_entry, interrupt_entry, interrupt_request,
}

-- How often the promise of the call with ticket t was settled.
abbrev pub settlements : ℕ → List Act → ℕ
settlements t [] = 0
settlements t (sent e ∷ l) = settlements t l
settlements t (resolved s v ∷ l) = tally (s == t) + settlements t l
settlements t (rejected s e ∷ l) = tally (s == t) + settlements t l
settlements t (handed h s d ∷ l) = settlements t l

-- How many entries in flight would settle it.
abbrev pub weight : ℕ → Option Entry → ℕ
weight t none = 0
weight t (some (call tag s)) = tally (s == t)
weight t (some (stream tag h mark pending)) = 0

abbrev pub in_flight : ℕ → List (String × Entry) → ℕ
in_flight t [] = 0
in_flight t ((id, e) ∷ m) = weight t (some e) + in_flight t m

in_flight-delete :
    (t : ℕ) (id : String) (m : List (String × Entry))
    → Unique m
    → in_flight t (delete id m) + weight t (lookup id m) ≡ in_flight t m
unfolding lookup delete
in_flight-delete t id [] u = omega arith
in_flight-delete t id ((j, e) ∷ m) u = elim (Bool-cases (same j id)) [
  | inl hit ↦
      let absent : lookup id m ≡ none =
        subst (λ k. lookup k m ≡ none) ((same_iff j id).0 hit) u.0 in
      ground (arith, hit, delete_absent id m absent)
  | inr miss ↦ ground (arith, miss, in_flight-delete t id m u.1)
]

in_flight-insert :
    (t : ℕ) (id : String) (e : Entry) (m : List (String × Entry))
    → in_flight t (insert id e m) + weight t (lookup id m) ≡ in_flight t m + weight t (some e)
unfolding lookup insert
in_flight-insert t id e [] = omega arith
in_flight-insert t id e ((j, f) ∷ m) = elim (Bool-cases (same j id)) [
  | inl hit ↦ ground (arith, hit)
  | inr miss ↦ ground (arith, miss, in_flight-insert t id e m)
]

-- Each entry stands under the id that its owner was given.
abbrev pub Owned : (Owner → String) → List (String × Entry) → Type 0
Owned next_id m = (id : String) (e : Entry) → lookup id m ≡ some e → id ≡ next_id (owner e)

Owned-delete :
    (next_id : Owner → String) (id : String) (m : List (String × Entry))
    → Owned next_id m
    → Owned next_id (delete id m)
Owned-delete next_id id m o k e h = ground (arith, lookup-delete id k m, o k e)

Owned-insert :
    (next_id : Owner → String) (id : String) (e : Entry) (m : List (String × Entry))
    → id ≡ next_id (owner e)
    → Owned next_id m
    → Owned next_id (insert id e m)
Owned-insert next_id id e m p o k f h = ground (arith, same_iff id k, lookup-insert id k e m, o k f)

-- The ticket's promise was asked for N times: it is settled or in flight, as often.
pub record Balanced (next_id : Owner → String) (t n : ℕ) (c : Conn) : Type 0 where
  pub unique : Unique c.entries
  pub owned : Owned next_id c.entries
  pub balance : settlements t c.log + in_flight t c.entries ≡ n

module _ (next_id : Owner → String) (t : ℕ) where
  pub same_books :
      (n : ℕ) (c d : Conn)
      → c.entries ≡ d.entries
      → settlements t c.log ≡ settlements t d.log
      → Balanced next_id t n c
      → Balanced next_id t n d
  same_books n c d e s b = record {
    unique = subst Unique e b.unique;
    owned = subst (Owned next_id) e b.owned;
    balance = omega (arith, s, ap (in_flight t) e, b.balance);
  }

  pub reindex : {m n : ℕ} {c : Conn} → m ≡ n → Balanced next_id t m c → Balanced next_id t n c
  reindex {c} e b = subst (λ k. Balanced next_id t k c) e b

  -- The count without the entry that stands under an id.
  pub takes :
      {n : ℕ} (id : String) (c : Conn)
      → Balanced next_id t n c
      → (m : ℕ) × (m + weight t (lookup id c.entries) ≡ n)
  takes id c b = (
    settlements t c.log + in_flight t (delete id c.entries),
    omega (arith, b.balance, in_flight-delete t id c.entries b.unique),
  )

  pub deletes-Balanced :
      (m n : ℕ) (id : String) (c : Conn)
      → m + weight t (lookup id c.entries) ≡ n
      → Balanced next_id t n c
      → Balanced next_id t m (record c { entries = delete id c.entries })
  deletes-Balanced m n id c w b = record {
    unique = delete-Unique id c.entries b.unique;
    owned = Owned-delete next_id id c.entries b.owned;
    balance = omega (arith, w, b.balance, in_flight-delete t id c.entries b.unique);
  }

  pub inserts-Balanced :
      (m n : ℕ) (id : String) (e : Entry) (c : Conn)
      → id ≡ next_id (owner e)
      → m + weight t (lookup id c.entries) ≡ n + weight t (some e)
      → Balanced next_id t n c
      → Balanced next_id t m (record c { entries = insert id e c.entries })
  inserts-Balanced m n id e c p w b = record {
    unique = insert-Unique id e c.entries b.unique;
    owned = Owned-insert next_id id e c.entries p b.owned;
    balance = omega (arith, w, b.balance, in_flight-insert t id e c.entries);
  }

  pub rejects-Balanced :
      (n s : ℕ) (e : T3Error) (c : Conn)
      → Balanced next_id t n c
      → Balanced next_id t (n + tally (s == t)) (note (rejected s e) c)
  rejects-Balanced n s e c b = record {
    unique = b.unique;
    owned = b.owned;
    balance = omega (arith, b.balance);
  }

  pub resolves-Balanced :
      (n s : ℕ) (v : Option Json) (c : Conn)
      → Balanced next_id t n c
      → Balanced next_id t (n + tally (s == t)) (note (resolved s v) c)
  resolves-Balanced n s e c b = record {
    unique = b.unique;
    owned = b.owned;
    balance = omega (arith, b.balance);
  }

  pub try_send-Balanced :
      (n : ℕ) (e : ClientEnvelope) (c : Conn)
      → Balanced next_id t n c
      → Balanced next_id t n (try_send e c)
  unfolding try_send
  try_send-Balanced n e c b = same_books n c (try_send e c) (ground arith) (ground arith) b

  pub with_stream-Balanced :
      (n h : ℕ) (s : Stream) (c : Conn)
      → Balanced next_id t n c
      → Balanced next_id t n (with_stream h s c)
  with_stream-Balanced n h s c b = same_books n c (with_stream h s c) refl refl b

  pub release-Balanced :
      (n h : ℕ) (c : Conn) → Balanced next_id t n c → Balanced next_id t n (release h c)
  unfolding release
  release-Balanced n h c b = same_books n c (release h c) (ground arith) (ground arith) b

  pub release_entry-Balanced :
      (n : ℕ) (e : Entry) (c : Conn)
      → Balanced next_id t n c
      → Balanced next_id t n (release_entry e c)
  release_entry-Balanced n (call tag s) c b = b
  release_entry-Balanced n (stream tag h mark pending) c b = release-Balanced n h c b

  -- An interrupt takes the entry of the id off.
  pub interrupts-Balanced :
      (m n : ℕ) (id : String) (c : Conn)
      → m + weight t (lookup id c.entries) ≡ n
      → Balanced next_id t n c
      → Balanced next_id t m (interrupt_request id c)
  unfolding interrupt_request
  interrupts-Balanced m n id c w b = elim (Option-cases (lookup id c.entries)) [
    | inl missing ↦
        let e : n ≡ m = omega (arith, w, ap (weight t) missing) in
        rw (missing, interrupt_entry) (subst (λ k. Balanced next_id t k c) e b)
    | inr (e, found) ↦
        rw (found, interrupt_entry)
          (try_send-Balanced m _ _ (release_entry-Balanced m e _ (deletes-Balanced m n id c w b)))
  ]
