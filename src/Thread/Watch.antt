-- ===== src/Thread/Watch.antt =====
-- packages/t3code-lib/src/api/threadWatch.ts, watchRetry.ts and
-- packages/t3code-lib/src/schemas/orchestration/boundedSnapshot.ts: the loop of `watchThread`, one item
-- of the subscription at a time.
use t3code_client.Prelude.{
  ℕ, max, leb, String, Bool, true, false, not, ◌&&◌, ◌||◌, Option, none, some, is_some, or_else,
  List, [], ◌∷◌, ◌++◌, keep, map, same, if◌then◌else◌,
}
use t3code_client.Json.{Json}
use t3code_client.Errors.{
  FailureReason, T3Error, storage, http, auth_invalid, insufficient_scope, not_found, rpc,
  rpc_defect, connection, decode, precondition, interrupted, timeout, closed, open_failed,
  ping_timeout, protocol, message_too_large,
}
use t3code_client.Socket.State.{SocketState, idle, connecting, up}
use t3code_client.Socket.State as SocketModel
use t3code_client.Thread.Records.{Link, VisibleRow, Projection, DomainEvent}
use t3code_client.Thread.Derived.{Sign}
use t3code_client.Thread.Tracker.{Item, Tracker, new_tracker, seed, apply}

-- `isLocalTimelineRow`
abbrev pub is_local_timeline_row : Projection → VisibleRow → Bool
is_local_timeline_row p row = same row.visibility "local" || same row.source_thread_id p.thread.id

-- `restoreLocalVisibleTurnItems`; with no local row it returns the projection that it was given.
unfoldable pub restore_local_visible_turn_items : Projection → Projection
restore_local_visible_turn_items p = record p {
  turn_items =
      map (λ row. row.item) (keep (is_local_timeline_row p) p.visible_turn_items) ++ p.turn_items;
}

-- `boundedSnapshotProjection`
unfoldable pub bounded_snapshot_projection : Bool → Projection → Projection
unfolding restore_local_visible_turn_items
bounded_snapshot_projection omits p = if omits then restore_local_visible_turn_items p else p

abbrev pub is_too_large : FailureReason → Bool
is_too_large closed = false
is_too_large open_failed = false
is_too_large ping_timeout = false
is_too_large protocol = false
is_too_large message_too_large = true

abbrev pub is_connecting : SocketState → Bool
is_connecting idle = false
is_connecting connecting = true
is_connecting up = false
is_connecting SocketModel.closed = false

-- `shouldResubscribe`
unfoldable pub should_resubscribe : T3Error → SocketState → Bool → Bool
should_resubscribe (connection reason) state received =
    is_connecting state && (received || not (is_too_large reason))
should_resubscribe storage state received = false
should_resubscribe (http s r) state received = false
should_resubscribe auth_invalid state received = false
should_resubscribe (insufficient_scope r) state received = false
should_resubscribe (not_found r) state received = false
should_resubscribe (rpc m r) state received = false
should_resubscribe (rpc_defect m d) state received = false
should_resubscribe (decode s) state received = false
should_resubscribe precondition state received = false
should_resubscribe interrupted state received = false
should_resubscribe timeout state received = false

-- `ThreadWatchItem`
pub data WatchItem : Type 0 where
  snapshot : ℕ → Projection → WatchItem
  synchronized : WatchItem
  event : ℕ → DomainEvent → WatchItem
  derived : Item → WatchItem
  decode_error : WatchItem
  reconnected : ℕ → WatchItem

-- What the snapshot loader does, where the loop calls it: there is none, or it loads a snapshot, or it
-- throws, while the signal has fired or not and the transport is in a state.
pub data Loader : Type 0 where
  no_loader : Loader
  loads : ℕ → Projection → Loader
  throws : T3Error → Bool → SocketState → Loader

-- One item of the subscription: what did not decode, an unknown variant, a snapshot with
-- `turnItemsOmitLocalVisible`, the marker, and an event.
pub data StreamItem : Type 0 where
  undecodable : StreamItem
  unknown_variant : StreamItem
  snapshot_frame : ℕ → Bool → Projection → StreamItem
  synchronized_marker : Loader → StreamItem
  event_frame : ℕ → DomainEvent → Loader → StreamItem

-- What happens to the loop: an item arrives; the stream ends; or it throws, while the signal has fired or
-- not and the transport is in a state.
pub data Event : Type 0 where
  receives : StreamItem → Event
  ends : Event
  fails : T3Error → Bool → SocketState → Event

pub data Phase : Type 0 where
  watching : Phase
  returned : Phase
  threw : T3Error → Phase

-- The variables of `run`.
pub record Watch : Type 0 where
  pub tracker : Tracker
  pub after_sequence : Option ℕ
  pub resumed : Bool
  pub received : Bool
  pub phase : Phase

unfoldable pub new_watch : Option ℕ → Watch
new_watch after_sequence = record {
  tracker = new_tracker;
  after_sequence = after_sequence;
  resumed = false;
  received = false;
  phase = watching;
}

-- The handler of `catch`; the loop goes on with a new subscription, which has received nothing.
abbrev pub is_interrupted : T3Error → Bool
is_interrupted (connection reason) = false
is_interrupted storage = false
is_interrupted (http s r) = false
is_interrupted auth_invalid = false
is_interrupted (insufficient_scope r) = false
is_interrupted (not_found r) = false
is_interrupted (rpc m r) = false
is_interrupted (rpc_defect m d) = false
is_interrupted (decode s) = false
is_interrupted precondition = false
is_interrupted interrupted = true
is_interrupted timeout = false

unfoldable pub caught : T3Error → Bool → SocketState → Watch → Watch
unfolding should_resubscribe
caught e aborted state w =
    if aborted || is_interrupted e
    then record w { phase = returned }
    else if should_resubscribe e state w.received
    then record w { resumed = true; received = false }
    else record w { phase = threw e }

abbrev pub is_past : ℕ → Option ℕ → Bool
is_past n none = false
is_past n (some m) = leb n m

-- `!tracker.seeded && options.snapshotLoader`
abbrev pub unless_seeded : Watch → Loader → Loader
unless_seeded w l = if is_some w.tracker.projection then no_loader else l

-- The item for a subscription that was taken up again.
abbrev pub mark : Watch → List WatchItem
mark w = if w.resumed && not w.received then reconnected (or_else w.after_sequence 0) ∷ [] else []

module _ (legacy_link : Json → Link) (key_string : Link → String)
    (locale_compare : String → String → Sign) where
  abbrev pub seeded : ℕ → Projection → Watch → Watch × List WatchItem
  seeded n p w =
      let (t, items) = seed legacy_link key_string locale_compare n p w.tracker in
      (record w { tracker = t }, snapshot n p ∷ map derived items)

  -- An event frame from where the cursor is compared.
  unfoldable pub pass_event : ℕ → DomainEvent → Watch → Watch × List WatchItem
  pass_event n e w =
      if is_past n w.after_sequence
      then (w, [])
      else (let (t, items) = apply legacy_link key_string locale_compare n e w.tracker in
          (record w { tracker = t; after_sequence = some n }, event n e ∷ map derived items))

  -- What the loop does with an item after the loader, if that is called.
  unfoldable pub after_loader :
      Loader → (Watch → Watch × List WatchItem) → Watch → Watch × List WatchItem
  unfolding caught
  after_loader no_loader rest w = rest w
  after_loader (loads n p) rest w =
      let (w', items) = seeded n p w in let (w'', more) = rest w' in (w'', items ++ more)
  after_loader (throws e aborted state) rest w = (caught e aborted state w, [])

  -- The body of `for await`, after the mark of a reconnect.
  unfoldable pub receive_item : StreamItem → Watch → Watch × List WatchItem
  unfolding pass_event after_loader
  receive_item undecodable w = (w, decode_error ∷ [])
  receive_item unknown_variant w = (w, [])
  receive_item (snapshot_frame n omits p) w =
      seeded n (bounded_snapshot_projection omits p)
        (record w { after_sequence = some (max (or_else w.after_sequence 0) n) })
  receive_item (synchronized_marker l) w =
      after_loader (unless_seeded w l) (λ v. (v, synchronized ∷ [])) w
  receive_item (event_frame n e l) w = after_loader (unless_seeded w l) (pass_event n e) w

  unfoldable pub step_from : Phase → Watch → Event → Watch × List WatchItem
  unfolding receive_item caught
  step_from returned w e = (w, [])
  step_from (threw x) w e = (w, [])
  step_from watching w (receives i) =
      let (w', items) = receive_item i (record w { received = true }) in (w', mark w ++ items)
  step_from watching w ends = (record w { phase = returned }, [])
  step_from watching w (fails e aborted state) = (caught e aborted state w, [])

  unfoldable pub step : Watch → Event → Watch × List WatchItem
  unfolding step_from
  step w e = step_from w.phase w e

  -- The state after the events, and what the watch yields on the way.
  unfoldable pub run : Watch → List Event → Watch × List WatchItem
  run w [] = (w, [])
  run w (e ∷ es) = let (w', items) = step w e in let (w'', rest) = run w' es in (w'', items ++ rest)
