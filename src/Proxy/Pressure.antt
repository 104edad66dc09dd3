-- ===== src/Proxy/Pressure.antt =====
-- packages/t3code-proxy/src/bridge.ts: backpressure and order of one direction of a bridge.
use t3code_client.Prelude.{
  ℕ, zero, suc, ◌+◌, ◌≤◌, leb, ◌&&◌, Bool, true, false, Option, none, some, List, [], ◌∷◌, ◌++◌,
  ◌≡◌, ◌⊎◌, inl, inr, Bool-cases, refl, sym, ap, ◌∙◌, arith, append_assoc, append-nil, length,
}
use t3code_client.Proxy.Bridge.{
  high_water_bytes, can_send_close_code, Bytes, Data, buffer, string, size, Act, sent,
  paused_source, resumed_source, sent_ping, sent_pong, closed_with, Forward, new_forward, Event,
  message, flushed, ping, pong, closes, errors, frame_at, remove_at, transform, on_message, flush,
  close_act, step, run,
}

-- The bytes of the frames that go on as they came, and the UTF-16 units of those that were rewritten.
abbrev pub total : List Data → ℕ
total [] = 0
total (buffer bytes ∷ ds) = length bytes + total ds
total (string units ∷ ds) = length units + total ds

total-append : (ds : List Data) (d : Data) → total (ds ++ d ∷ []) ≡ total ds + size d
unfolding size
total-append [] (buffer bytes) = omega arith
total-append [] (string units) = omega arith
total-append (buffer bytes ∷ ds) d = omega (arith, total-append ds d)
total-append (string units ∷ ds) d = omega (arith, total-append ds d)

total-remove_at :
    (i : ℕ) (d : Data) (ds : List Data)
    → frame_at i ds ≡ some d
    → size d + total (remove_at i ds) ≡ total ds
unfolding size
total-remove_at i d [] h = cc
total-remove_at zero d (buffer bytes ∷ ds) h = ground (arith, h)
total-remove_at zero d (string units ∷ ds) h = ground (arith, h)
total-remove_at (suc i) d (buffer bytes ∷ ds) h = omega (arith, total-remove_at i d ds h)
total-remove_at (suc i) d (string units ∷ ds) h = omega (arith, total-remove_at i d ds h)

-- The source is paused if the log pauses it last.
abbrev pub pauses : List Act → Bool
pauses [] = false
pauses (paused_source ∷ l) = true
pauses (resumed_source ∷ l) = false
pauses (sent f b ∷ l) = pauses l
pauses (sent_ping d ∷ l) = pauses l
pauses (sent_pong d ∷ l) = pauses l
pauses (closed_with c ∷ l) = pauses l

-- The count is of the lengths of the frames in flight, and the source is paused exactly while it
-- reaches the mark.
pub record Inv (f : Forward) : Type 0 where
  pub counted : f.unsent ≡ total f.in_flight
  pub held : f.paused ≡ leb high_water_bytes f.unsent
  pub told : pauses f.log ≡ f.paused

flush-Inv :
    (i : ℕ) (o : Option Data) (f : Forward) → frame_at i f.in_flight ≡ o → Inv f → Inv (flush i o f)
unfolding flush
flush-Inv i none f h v = v
flush-Inv i (some d) f h v = ground (arith, total-remove_at i d f.in_flight h)

-- What the other side got, in order, from a log with the newest first.
abbrev pub got : List Act → List Act
got [] = []
got (paused_source ∷ l) = got l
got (resumed_source ∷ l) = got l
got (sent f b ∷ l) = got l ++ sent f b ∷ []
got (sent_ping d ∷ l) = got l ++ sent_ping d ∷ []
got (sent_pong d ∷ l) = got l ++ sent_pong d ∷ []
got (closed_with c ∷ l) = got l ++ closed_with c ∷ []

got-flush : (i : ℕ) (o : Option Data) (f : Forward) → got (flush i o f).log ≡ got f.log
unfolding flush
got-flush i none f = refl
got-flush i (some n) f = ground arith

module _ (transform_text : Bytes → Data) where
  message-Inv :
      (bytes : Bytes) (b : Bool) (f : Forward) → Inv f → Inv (on_message transform_text bytes b f)
  unfolding on_message
  message-Inv bytes b f v =
      ground (arith, total-append f.in_flight (transform transform_text bytes b))

  step-Inv : (f : Forward) (e : Event) → Inv f → Inv (step transform_text f e)
  unfolding step
  step-Inv f (message bytes b) v = message-Inv bytes b f v
  step-Inv f (flushed i) v = flush-Inv i (frame_at i f.in_flight) f refl v
  step-Inv f (ping d) v = ground arith
  step-Inv f (pong d) v = ground arith
  step-Inv f (closes code reason) v = unfold close_act in ground arith
  step-Inv f errors v = v

  run-Inv : (f : Forward) (es : List Event) → Inv f → Inv (run transform_text f es)
  unfolding run
  run-Inv f [] v = v
  run-Inv f (e ∷ es) v = run-Inv (step transform_text f e) es (step-Inv f e v)

  new_forward-Inv : Inv new_forward
  unfolding new_forward
  new_forward-Inv = ground arith

  -- After any events of one direction of a bridge: the count is of the frames in flight, by the bytes of
  -- those that go on as they came and the UTF-16 units of those that were rewritten; the source is
  -- paused exactly while the count reaches the high water mark; and it was told so.
  pub run-new_forward-Inv : (es : List Event) → Inv (run transform_text new_forward es)
  run-new_forward-Inv es = run-Inv new_forward es new_forward-Inv

-- The codes that an endpoint may send.
abbrev pub Sendable : ℕ → Type 0
Sendable code =
    ((1000 ≤ code) × (code ≤ 1003))
    ⊎ ((1007 ≤ code) × (code ≤ 1014))
    ⊎ ((3000 ≤ code) × (code ≤ 4999))

abbrev pub ClosesAs : ℕ → Bytes → Option (ℕ × Bytes) → Type 0
ClosesAs code reason c =
    (Sendable code × (c ≡ some (code, reason))) ⊎ (¬ Sendable code × (c ≡ none))

-- What the other side is to get of the events, in order: a text frame transformed and sent as a text
-- frame, a binary frame with the bytes that came, and pings and pongs as they are; a close with its code
-- and reason if the code may be sent, and else without.
abbrev pub Forwards : (Bytes → Data) → List Event → List Act → Type 0
Forwards g [] acts = acts ≡ []
Forwards g (message bytes false ∷ es) acts =
    (rest : List Act) × (acts ≡ sent (g bytes) false ∷ rest) × Forwards g es rest
Forwards g (message bytes true ∷ es) acts =
    (rest : List Act) × (acts ≡ sent (buffer bytes) true ∷ rest) × Forwards g es rest
Forwards g (flushed i ∷ es) acts = Forwards g es acts
Forwards g (ping d ∷ es) acts = (rest : List Act) × (acts ≡ sent_ping d ∷ rest) × Forwards g es rest
Forwards g (pong d ∷ es) acts = (rest : List Act) × (acts ≡ sent_pong d ∷ rest) × Forwards g es rest
Forwards g (closes code reason ∷ es) acts =
    (c : Option (ℕ × Bytes)) × (rest : List Act) × (acts ≡ closed_with c ∷ rest)
    × ClosesAs code reason c
    × Forwards g es rest
Forwards g (errors ∷ es) acts = Forwards g es acts

can_send-Sendable : (code : ℕ) → can_send_close_code code ≡ true → Sendable code
unfolding can_send_close_code
can_send-Sendable code h = elim (Bool-cases (leb 1000 code && leb code 1003)) [
  | inl low ↦ inl (ground (arith, low), ground (arith, low))
  | inr not_low ↦ elim (Bool-cases (leb 1007 code && leb code 1014)) [
    | inl middle ↦ inr (inl (ground (arith, middle), ground (arith, middle)))
    | inr not_middle ↦
        inr (inr (ground (arith, h, not_low, not_middle), ground (arith, h, not_low, not_middle)))
  ]
]

Sendable-can_send : (code : ℕ) → Sendable code → can_send_close_code code ≡ true
unfolding can_send_close_code
Sendable-can_send code (inl low) = ground (arith, low.0, low.1)
Sendable-can_send code (inr (inl middle)) = ground (arith, middle.0, middle.1)
Sendable-can_send code (inr (inr high)) = ground (arith, high.0, high.1)

close_act-ClosesAs :
    (code : ℕ) (reason : Bytes)
    → (c : Option (ℕ × Bytes)) × (close_act code reason ≡ closed_with c) × ClosesAs code reason c
unfolding close_act
close_act-ClosesAs code reason = elim (Bool-cases (can_send_close_code code)) [
  | inl may ↦ (some (code, reason), rw may refl, inl (can_send-Sendable code may, refl))
  | inr refused ↦ (none, rw refused refl, inr (λ s. cc (Sendable-can_send code s, refused), refl))
]

-- What one event makes the other side get.
abbrev acts_of : (Bytes → Data) → Event → List Act
acts_of g (message bytes b) = sent (transform g bytes b) b ∷ []
acts_of g (flushed i) = []
acts_of g (ping d) = sent_ping d ∷ []
acts_of g (pong d) = sent_pong d ∷ []
acts_of g (closes code reason) = close_act code reason ∷ []
acts_of g errors = []

abbrev all_acts : (Bytes → Data) → List Event → List Act
all_acts g [] = []
all_acts g (e ∷ es) = acts_of g e ++ all_acts g es

all_acts-Forwards : (g : Bytes → Data) (es : List Event) → Forwards g es (all_acts g es)
unfolding transform
all_acts-Forwards g [] = refl
all_acts-Forwards g (message bytes false ∷ es) = (_, refl, all_acts-Forwards g es)
all_acts-Forwards g (message bytes true ∷ es) = (_, refl, all_acts-Forwards g es)
all_acts-Forwards g (flushed i ∷ es) = all_acts-Forwards g es
all_acts-Forwards g (ping d ∷ es) = (_, refl, all_acts-Forwards g es)
all_acts-Forwards g (pong d ∷ es) = (_, refl, all_acts-Forwards g es)
all_acts-Forwards g (closes code reason ∷ es) =
    let (c, e, as_) = close_act-ClosesAs code reason in
    (c, all_acts g es, ap (λ a. a ∷ all_acts g es) e, as_, all_acts-Forwards g es)
all_acts-Forwards g (errors ∷ es) = all_acts-Forwards g es

module _ (transform_text : Bytes → Data) where
  got-step :
      (f : Forward) (e : Event)
      → got (step transform_text f e).log ≡ got f.log ++ acts_of transform_text e
  unfolding step on_message close_act
  got-step f (message bytes b) = ground arith
  got-step f (flushed i) = got-flush i (frame_at i f.in_flight) f ∙ sym (append-nil (got f.log))
  got-step f (ping d) = refl
  got-step f (pong d) = refl
  got-step f (closes code reason) = refl
  got-step f errors = sym (append-nil (got f.log))

  got-run_from :
      (f : Forward) (es : List Event)
      → got (run transform_text f es).log ≡ got f.log ++ all_acts transform_text es
  unfolding run
  got-run_from f [] = sym (append-nil (got f.log))
  got-run_from f (e ∷ es) =
      got-run_from (step transform_text f e) es
      ∙ ap (λ l. l ++ all_acts transform_text es) (got-step f e)
      ∙ append_assoc (got f.log) _ _

  -- The other side of a bridge gets what the source sent, in the same order: each text frame transformed
  -- and sent as a text frame, each binary frame, ping and pong as it is, and each close with its code and
  -- reason where the code is one of 1000 to 1003, 1007 to 1014 and 3000 to 4999, and else without.
  pub got-run :
      (es : List Event) → Forwards transform_text es (got (run transform_text new_forward es).log)
  unfolding new_forward
  got-run es = rw (got-run_from new_forward es) (all_acts-Forwards transform_text es)
