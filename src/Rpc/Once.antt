-- ===== src/Rpc/Once.antt =====
-- transport/rpcConnection.ts: the account of the promises over `call`, its abort and its send.
use t3code_client.Prelude.{
  ℕ, ◌+◌, String, Bool, true, false, ◌&&◌, Option, none, some, ◌≡◌, refl, ap, ◌==◌, tally, arith,
  Bool-cases, Option-cases, inl, inr, same_refl,
}
use t3code_client.Prelude.Dict.{lookup, insert, delete, lookup-insert, lookup-delete}
use t3code_client.Json.{Json}
use t3code_client.Errors.{T3Error, interrupted, connection, closed}
use t3code_client.Rpc.State.{
  Entry, call, stream, Owner, of_call, owner, sent, Conn, note, interrupt_request,
}
use t3code_client.Wire.Envelope.{request_envelope}
use t3code_client.Rpc.Calls.{
  send_request, call_request, call_connected, abort_call, abort_entry, settle_call, settle_stream,
  exit_entry, on_exit, push_all, mark_pending, ack_chunk, chunk_entry, on_chunk, on_envelope,
  on_envelopes,
}
use t3code_client.Rpc.Calls
use t3code_client.Rpc.Books.{
  reindex, takes, weight, Balanced, same_books, deletes-Balanced, inserts-Balanced,
  rejects-Balanced, interrupts-Balanced,
}
use t3code_client.Rpc.Settle.{owned_by, settle_with_error-Balanced}

module _ (next_id : Owner → String) (distinct : (a b : Owner) → next_id a ≡ next_id b → a ≡ b)
    (t : ℕ) where
  -- The entry that stands under a call's id is that call's.
  weight_of_call :
      {n : ℕ} (s : ℕ) (e : Entry) (c : Conn)
      → Balanced next_id t n c
      → lookup (next_id (of_call s)) c.entries ≡ some e
      → weight t (some e) ≡ tally (s == t)
  weight_of_call s e c b found = by_owner e (owned_by next_id distinct t (of_call s) e b found)
    where
      by_owner : (e : Entry) → of_call s ≡ owner e → weight t (some e) ≡ tally (s == t)
      by_owner (call tag k) p = cc
      by_owner (stream tag h mark pending) p = cc

  pub abort_call-Balanced :
      (n s : ℕ) (c : Conn) → Balanced next_id t n c → Balanced next_id t n (abort_call next_id s c)
  unfolding abort_call
  abort_call-Balanced n s c b = elim (Option-cases (lookup (next_id (of_call s)) c.entries)) [
    | inl missing ↦ rw (missing, abort_entry) b
    | inr (e, found) ↦
        let (m, w) = takes next_id t (next_id (of_call s)) c b in
        let same_weight = weight_of_call s e c b found in
        rw (found, abort_entry)
          (reindex next_id t (omega (arith, w, same_weight, ap (weight t) found)) (
            rejects-Balanced next_id t m s interrupted (interrupt_request (next_id (of_call s)) c)
              (interrupts-Balanced next_id t m n (next_id (of_call s)) c w b)))
  ]

  -- A call is sent under an id that is not in use.
  insert_call :
      (n s : ℕ) (tag : String) (c : Conn)
      → lookup (next_id (of_call s)) c.entries ≡ none
      → Balanced next_id t n c
      → Balanced next_id t
          (n + tally (s == t))
          (record c { entries = insert (next_id (of_call s)) (call tag s) c.entries })
  insert_call n s tag c fresh b =
      inserts-Balanced next_id t (n + tally (s == t)) n (next_id (of_call s)) (call tag s) c refl
        (omega (arith, ap (weight t) fresh)) b

  send-Balanced :
      (n s : ℕ) (tag : String) (payload : Json) (encodes aborted : Bool) (c : Conn)
      → lookup (next_id (of_call s)) c.entries ≡ some (call tag s)
      → Balanced next_id t (n + tally (s == t)) c
      → Balanced next_id t (n + tally (s == t)) (
          Calls.after_send next_id s tag aborted
            (send_request (next_id (of_call s)) tag payload encodes c))
  unfolding send_request Calls.after_send
  send-Balanced n s tag payload encodes aborted c found b =
      let id = next_id (of_call s) in
      let request = note (sent (request_envelope id tag payload)) c in
      let back = record c { entries = delete id c.entries } in
      let counted : n + weight t (lookup id c.entries) ≡ n + tally (s == t) = rw found in
      let sent_b = same_books next_id t _ c request refl refl b in
      let back_b = deletes-Balanced next_id t n _ id c counted b in
      let absent : lookup id back.entries ≡ none =
        rw (lookup-delete id id c.entries, same_refl id) in
      let gone : n + weight t (lookup id back.entries) ≡ n = omega (arith, ap (weight t) absent) in
      elim (Bool-cases (c.link && encodes)) [
        | inl sends ↦
            rw sends
              (elim aborted
                as (λ a.
                  Balanced next_id t (n + tally (s == t))
                    (Calls.after_send next_id s tag a (request, true))) [
                      | true ↦
                          rejects-Balanced next_id t n s interrupted (interrupt_request id request)
                            (interrupts-Balanced next_id t n _ id request counted sent_b)
                      | false ↦ sent_b
                    ])
        | inr fails ↦
            rw fails
              (elim aborted
                as (λ a.
                  Balanced next_id t (n + tally (s == t))
                    (Calls.after_send next_id s tag a (back, false))) [
                      | true ↦
                          rejects-Balanced next_id t n s interrupted (interrupt_request id back)
                            (interrupts-Balanced next_id t n n id back gone back_b)
                      | false ↦
                          settle_with_error-Balanced next_id distinct t n (call tag s)
                            (connection closed) back back_b
                    ])
      ]

  call_request-Balanced :
      (n s : ℕ) (tag : String) (payload : Json) (encodes aborted : Bool) (c : Conn)
      → lookup (next_id (of_call s)) c.entries ≡ none
      → Balanced next_id t n c
      → Balanced next_id t
          (n + tally (s == t))
          (call_request next_id s tag payload encodes aborted c)
  unfolding call_request
  call_request-Balanced n s tag payload encodes aborted c fresh b =
      send-Balanced n s tag payload encodes aborted _
        (rw (
          lookup-insert (next_id (of_call s)) (next_id (of_call s)),
          same_refl (next_id (of_call s)),
        ))
        (insert_call n s tag c fresh b)

  pub call_connected-Balanced :
      (n s : ℕ) (tag : String) (payload : Json) (failure : Option T3Error) (encodes aborted : Bool)
      (c : Conn)
      → lookup (next_id (of_call s)) c.entries ≡ none
      → Balanced next_id t n c
      → Balanced next_id t
          (n + tally (s == t))
          (call_connected next_id s tag payload failure encodes aborted c)
  unfolding call_connected
  call_connected-Balanced n s tag payload none encodes aborted c fresh b =
      call_request-Balanced n s tag payload encodes aborted c fresh b
  call_connected-Balanced n s tag payload (some e) encodes aborted c fresh b =
      rejects-Balanced next_id t n s e c b
