-- ===== src/Rpc/Answers.antt =====
-- transport/rpcConnection.ts: the account of the promises over the envelopes of the server.
use t3code_client.Prelude.{
  ℕ, ◌+◌, String, true, Option, none, some, List, [], ◌∷◌, ◌≡◌, ap, ◌==◌, tally, arith, Bool-cases,
  Option-cases, inl, inr,
}
use t3code_client.Prelude.Dict.{lookup}
use t3code_client.Json.{Json}
use t3code_client.Errors.{T3Error, rpc_defect}
use t3code_client.Channel
use t3code_client.Channel.{
  Channel, Delivery, value, done, error, Effect, settle, on_pull, on_return,
}
use t3code_client.Rpc.State.{Entry, call, stream, Owner, owner, Conn, on_channel}
use t3code_client.Wire.Envelope.{ServerEnvelope, chunk, exit, defect, pong, ExitEncoded}
use t3code_client.Wire.Exit.{
  Outcome, succeeded, failed, died, was_interrupted, normalize_exit, exit_to_error,
}
use t3code_client.Rpc.Calls.{
  settle_call, settle_stream, exit_entry, on_exit, push_all, mark_pending, ack_chunk, chunk_entry,
  on_chunk, on_envelope, on_envelopes,
}
use t3code_client.Rpc.Books.{
  reindex, takes, weight, Balanced, same_books, deletes-Balanced, inserts-Balanced,
  rejects-Balanced, resolves-Balanced, release-Balanced,
}
use t3code_client.Rpc.Settle.{
  weight_of_stream, maybe_ack-Balanced, on_channel-Balanced, fail_all-Balanced,
}

module _ (next_id : Owner → String) (distinct : (a b : Owner) → next_id a ≡ next_id b → a ≡ b)
    (t : ℕ) where
  settle_call-Balanced :
      (n s : ℕ) (tag : String) (o : Outcome) (c : Conn)
      → Balanced next_id t n c
      → Balanced next_id t
          (n + tally (s == t))
          (settle_call next_id s tag o (exit_to_error o tag) c)
  unfolding settle_call exit_to_error
  settle_call-Balanced n s tag (succeeded v) c b = resolves-Balanced next_id t n s v c b
  settle_call-Balanced n s tag (failed r) c b = rejects-Balanced next_id t n s _ c b
  settle_call-Balanced n s tag (died d) c b = rejects-Balanced next_id t n s _ c b
  settle_call-Balanced n s tag was_interrupted c b = rejects-Balanced next_id t n s _ c b

  settle_stream-Balanced :
      (n h : ℕ) (e : Option T3Error) (c : Conn)
      → Balanced next_id t n c
      → Balanced next_id t n (settle_stream next_id h e c)
  unfolding settle_stream
  settle_stream-Balanced n h none c b = on_channel-Balanced next_id distinct t n h Channel.end c b
  settle_stream-Balanced n h (some e) c b =
      on_channel-Balanced next_id distinct t n h (Channel.fail e) c b

  exit_entry-Balanced :
      (n : ℕ) (id : String) (o : Outcome) (e : Entry) (c : Conn)
      → lookup id c.entries ≡ some e
      → Balanced next_id t n c
      → Balanced next_id t n (exit_entry next_id id o (some e) c)
  unfolding exit_entry
  exit_entry-Balanced n id o (call tag s) c found b =
      let (m, w) = takes next_id t id c b in
      reindex next_id t (omega (arith, w, ap (weight t) found))
        (settle_call-Balanced m s tag o _ (deletes-Balanced next_id t m n id c w b))
  exit_entry-Balanced n id o (stream tag h mark due) c found b =
      settle_stream-Balanced n h (exit_to_error o tag) _ (
        release-Balanced next_id t n h _
          (deletes-Balanced next_id t n n id c (omega (arith, ap (weight t) found)) b))

  on_exit-Balanced :
      (n : ℕ) (id : String) (x : ExitEncoded) (c : Conn)
      → Balanced next_id t n c
      → Balanced next_id t n (on_exit next_id id x c)
  unfolding on_exit
  on_exit-Balanced n id x c b = elim (Option-cases (lookup id c.entries)) [
    | inl missing ↦ rw (missing, exit_entry) b
    | inr (e, found) ↦ rw found (exit_entry-Balanced n id (normalize_exit x) e c found b)
  ]

  push_all-Balanced :
      (n h : ℕ) (vs : List Json) (c : Conn)
      → Balanced next_id t n c
      → Balanced next_id t n (push_all next_id h vs c)
  unfolding push_all
  push_all-Balanced n h [] c b = b
  push_all-Balanced n h (v ∷ vs) c b =
      push_all-Balanced n h vs (on_channel next_id h (Channel.push v) c)
        (on_channel-Balanced next_id distinct t n h (Channel.push v) c b)

  chunk_entry-Balanced :
      (n : ℕ) (id : String) (vs : List Json) (e : Entry) (c : Conn)
      → id ≡ next_id (owner e)
      → Balanced next_id t n c
      → Balanced next_id t n (chunk_entry next_id id vs (some e) c).0
  unfolding chunk_entry ack_chunk
  chunk_entry-Balanced n id vs (call tag s) c mine b =
      same_books next_id t n c (chunk_entry next_id id vs (some (call tag s)) c).0 (ground arith)
        (ground arith) b
  chunk_entry-Balanced n id vs (stream tag h mark due) c mine b =
      let pushed = push_all next_id h vs c in
      let pushed_b = push_all-Balanced n h vs c b in
      let weightless : weight t (lookup id pushed.entries) ≡ 0 =
        rw mine (weight_of_stream next_id distinct t h pushed pushed_b) in
      maybe_ack-Balanced next_id distinct t n id _
        (mark_pending next_id id (stream tag h mark true) pushed)
        (inserts-Balanced next_id t n n id (stream tag h mark true) pushed mine
          (omega (arith, weightless)) pushed_b)

  on_envelope-Balanced :
      (n : ℕ) (e : ServerEnvelope) (c : Conn)
      → Balanced next_id t n c
      → Balanced next_id t n (on_envelope next_id e c).0
  unfolding on_envelope on_chunk
  on_envelope-Balanced n (chunk id vs) c b = elim (Option-cases (lookup id c.entries)) [
    | inl missing ↦ rw (missing, chunk_entry) b
    | inr (e, found) ↦ rw found (chunk_entry-Balanced n id vs e c (b.owned id e found) b)
  ]
  on_envelope-Balanced n (exit id x) c b = on_exit-Balanced n id x c b
  on_envelope-Balanced n (defect d) c b =
      fail_all-Balanced next_id distinct t n (λ tag. rpc_defect tag d) c b
  on_envelope-Balanced n pong c b = b

  pub on_envelopes-Balanced :
      (n : ℕ) (es : List ServerEnvelope) (c : Conn)
      → Balanced next_id t n c
      → Balanced next_id t n (on_envelopes next_id es c)
  unfolding on_envelopes
  on_envelopes-Balanced n [] c b = b
  on_envelopes-Balanced n (e ∷ es) c b =
      let kept = on_envelope-Balanced n e c b in
      let rest = on_envelopes-Balanced n es (on_envelope next_id e c).0 kept in
      elim (Bool-cases (on_envelope next_id e c).1) [
        | inl goes_on ↦ rw (goes_on, on_envelopes) rest
        | inr threw ↦ rw (threw, on_envelopes) kept
      ]
