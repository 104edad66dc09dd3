-- ===== src/Rpc/Settle.antt =====
-- transport/rpcConnection.ts: the account of the promises over the methods that fail a request.
use native.Mathlib.Nat.{add-zero, add_assoc}
use t3code_client.Prelude.{
  ℕ, ◌+◌, String, false, ◌&&◌, some, List, [], ◌∷◌, ◌≡◌, refl, ap, ◌==◌, tally, leb, arith,
  Bool-cases, Option-cases, inl, inr,
}
use t3code_client.Prelude.Dict.{lookup}
use t3code_client.Json.{Json}
use t3code_client.Errors.{T3Error}
use t3code_client.Channel
use t3code_client.Channel.{
  Channel, Delivery, value, done, error, Effect, settle, on_pull, on_return,
}
use t3code_client.Rpc.State.{
  Entry, call, stream, Owner, of_stream, owner, handed, Conn, note, with_stream, interrupt_request,
  ack_entry, maybe_ack, hand, absorb, on_channel, settle_with_error, settle_all, fail_all,
}
use t3code_client.Rpc.Books.{
  settlements, weight, in_flight, Owned, Balanced, same_books, inserts-Balanced, rejects-Balanced,
  try_send-Balanced, with_stream-Balanced, release-Balanced, interrupts-Balanced,
}

-- `nextId` gives each owner an id of its own.
module _ (next_id : Owner → String) (distinct : (a b : Owner) → next_id a ≡ next_id b → a ≡ b)
    (t : ℕ) where
  pub Owned-nil : Owned next_id []
  unfolding lookup
  Owned-nil id e h = cc

  pub owned_by :
      {n : ℕ} {c : Conn} (a : Owner) (e : Entry)
      → Balanced next_id t n c
      → lookup (next_id a) c.entries ≡ some e
      → a ≡ owner e
  owned_by a e b found = distinct a (owner e) (b.owned (next_id a) e found)

  pub weight_of_stream :
      {n : ℕ} (h : ℕ) (c : Conn)
      → Balanced next_id t n c
      → weight t (lookup (next_id (of_stream h)) c.entries) ≡ 0
  weight_of_stream h c b = elim (Option-cases (lookup (next_id (of_stream h)) c.entries)) [
    | inl missing ↦ rw missing
    | inr (e, found) ↦ rw found (by_owner e (owned_by (of_stream h) e b found))
  ]
    where
      by_owner : (e : Entry) → of_stream h ≡ owner e → weight t (some e) ≡ 0
      by_owner (call tag s) p = cc
      by_owner (stream tag k mark pending) p = refl

  pub interrupts_stream :
      (n h : ℕ) (c : Conn)
      → Balanced next_id t n c
      → Balanced next_id t n (interrupt_request (next_id (of_stream h)) c)
  interrupts_stream n h c b =
      interrupts-Balanced next_id t n n _ c (omega (arith, weight_of_stream h c b)) b

  pub maybe_ack-Balanced :
      (n : ℕ) (id : String) (remaining : ℕ) (c : Conn)
      → Balanced next_id t n c
      → Balanced next_id t n (maybe_ack id remaining c)
  unfolding maybe_ack
  maybe_ack-Balanced n id remaining c b = elim (Option-cases (lookup id c.entries)) [
    | inl missing ↦ rw (missing, ack_entry) b
    | inr (e, found) ↦ rw (found, ack_entry) (acks e found)
  ]
    where
      acks :
          (e : Entry)
          → lookup id c.entries ≡ some e
          → Balanced next_id t n (ack_entry id remaining (some e) c)
      acks (call tag s) found = b
      acks (stream tag h mark pending) found = elim (Bool-cases (pending && leb remaining mark)) [
        | inl due ↦ rw due (
            try_send-Balanced next_id t n _ _ (
              inserts-Balanced next_id t n n id (stream tag h mark false) c (b.owned id _ found)
                (omega (arith, ap (weight t) found)) b))
        | inr kept ↦ rw kept b
      ]

  hand-Balanced :
      (n h s : ℕ) (d : Delivery Json T3Error) (c : Conn)
      → Balanced next_id t n c
      → Balanced next_id t n (hand next_id h s d c)
  unfolding hand
  hand-Balanced n h s (value v) c b = same_books next_id t n c _ refl refl b
  hand-Balanced n h s done c b =
      release-Balanced next_id t n h (note (handed h s done) c)
        (same_books next_id t n c (note (handed h s done) c) refl refl b)
  hand-Balanced n h s (error e) c b =
      release-Balanced next_id t n h (note (handed h s (error e)) c)
        (same_books next_id t n c (note (handed h s (error e)) c) refl refl b)

  absorb-Balanced :
      (n h : ℕ) (es : List (Effect Json T3Error)) (c : Conn)
      → Balanced next_id t n c
      → Balanced next_id t n (absorb next_id h es c)
  unfolding absorb
  absorb-Balanced n h [] c b = b
  absorb-Balanced n h (settle s d ∷ es) c b =
      absorb-Balanced n h es (hand next_id h s d c) (hand-Balanced n h s d c b)
  absorb-Balanced n h (on_pull k ∷ es) c b =
      absorb-Balanced n h es (maybe_ack (next_id (of_stream h)) k c)
        (maybe_ack-Balanced n (next_id (of_stream h)) k c b)
  absorb-Balanced n h (on_return ∷ es) c b =
      absorb-Balanced n h es (interrupt_request (next_id (of_stream h)) c)
        (interrupts_stream n h c b)

  pub on_channel-Balanced :
      (n h : ℕ) (op : Channel Json T3Error → Channel Json T3Error × List (Effect Json T3Error))
      (c : Conn)
      → Balanced next_id t n c
      → Balanced next_id t n (on_channel next_id h op c)
  unfolding on_channel
  on_channel-Balanced n h op c b =
      let (ch, es) = op (c.streams h).channel in
      let s = record (c.streams h) { channel = ch } in
      absorb-Balanced n h es (with_stream h s c) (with_stream-Balanced next_id t n h s c b)

  pub settle_with_error-Balanced :
      (n : ℕ) (e : Entry) (err : T3Error) (c : Conn)
      → Balanced next_id t n c
      → Balanced next_id t (n + weight t (some e)) (settle_with_error next_id e err c)
  unfolding settle_with_error
  settle_with_error-Balanced n (call tag s) err c b = rejects-Balanced next_id t n s err c b
  settle_with_error-Balanced n (stream tag h mark pending) err c b =
      rw add-zero
        (on_channel-Balanced n h (Channel.fail err) _ (release-Balanced next_id t n h c b))

  settle_all-Balanced :
      (n : ℕ) (err : String → T3Error) (es : List (String × Entry)) (c : Conn)
      → Balanced next_id t n c
      → Balanced next_id t (n + in_flight t es) (settle_all next_id err es c)
  unfolding settle_all
  settle_all-Balanced n err [] c b = rw add-zero b
  settle_all-Balanced n err ((id, call tag s) ∷ es) c b = rw (← add_assoc) (
      settle_all-Balanced (n + tally (s == t)) err es
        (settle_with_error next_id (call tag s) (err tag) c)
        (settle_with_error-Balanced n (call tag s) (err tag) c b))
  settle_all-Balanced n err ((id, stream tag h mark pending) ∷ es) c b = rw (← add_assoc) (
      settle_all-Balanced (n + 0) err es
        (settle_with_error next_id (stream tag h mark pending) (err tag) c)
        (settle_with_error-Balanced n (stream tag h mark pending) (err tag) c b))

  pub fail_all-Balanced :
      (n : ℕ) (err : String → T3Error) (c : Conn)
      → Balanced next_id t n c
      → Balanced next_id t n (fail_all next_id err c)
  unfolding fail_all
  fail_all-Balanced n err c b = rw (← b.balance) (
      settle_all-Balanced (settlements t c.log) err c.entries _
        (record { unique = tt; owned = Owned-nil; balance = omega arith }))
