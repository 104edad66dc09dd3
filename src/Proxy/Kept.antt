-- ===== src/Proxy/Kept.antt =====
-- packages/t3code-proxy/src/frames.ts: what the rewriting of a frame leaves as it is.
use t3code_client.Prelude.{
  String, Bool, true, false, ◌&&◌, Option, none, some, is_some, or_else, List, [], ◌∷◌, map, ◌≡◌,
  refl, sym, ap, ◌∙◌,
}
use t3code_client.Json.{
  Json, null, bool, num, str, arr, obj, Items, nil, cons, Fields, get, as_str, as_obj, set_obj_same,
}
use t3code_client.Proxy.Units.{Text}
use t3code_client.Proxy.Masked.{
  OnlyMessage, masked, masked_all, replace_text-OnlyText, with_payload-OnlyMessage,
  kept-OnlyMessage, if-OnlyMessage, initial_blank, launch_only, and_left, or_false_left,
  or_false_right,
}
use t3code_client.Proxy.Messages.{messages}
use t3code_client.Proxy.Changed.{changed, request-changed, all-changed}
use t3code_client.Proxy.Frames.{
  dispatch, launch, has_text, replace_text, with_message, stamped, restamped, rewrite_dispatch,
  rewrite_launch, rewrite_payload, rewrite_object, rewrite_request, rewrite_all, when,
  rewrite_frame,
}

when_same : (b : Bool) (v w : Json) → (b ≡ false → v ≡ w) → or_else (when b v) w ≡ v
when_same true v w h = refl
when_same false v w h = sym (h refl)

module _ (to_units : String → Text) (of_units : Text → String) (name : String)
    (names : List String) where
  dispatch-OnlyMessage :
      (envelope payload : Fields)
      → as_obj (get "payload" envelope) ≡ some payload
      → has_text "tag" dispatch envelope ≡ true
      → OnlyMessage envelope (rewrite_dispatch to_units of_units name names envelope payload)
  unfolding rewrite_dispatch
  dispatch-OnlyMessage envelope payload h g =
      let edit = replace_text-OnlyText (restamped to_units of_units name names) payload in
      let sends = replace_text-OnlyText (stamped to_units of_units name names) payload in
      if-OnlyMessage envelope (has_text "type" "queued-run.edit" payload) _ _
        (λ _.
          with_payload-OnlyMessage envelope payload
            ("orchestration.dispatchCommand queued-run.edit" ∷ []) _ true h g edit.0 edit.1)
        (λ _.
          if-OnlyMessage envelope (has_text "type" "message.dispatch" payload) _ _
            (λ _.
              if-OnlyMessage envelope (is_some (get "guestMessageId" payload)) _ _
                (λ _. (refl, λ e. refl))
                (λ _.
                  with_payload-OnlyMessage envelope payload
                    ("orchestration.dispatchCommand message.dispatch" ∷ []) _ true h g sends.0
                    sends.1))
            (λ _. kept-OnlyMessage envelope))

  launch-OnlyMessage :
      (envelope payload : Fields) (o : Option Fields)
      → as_obj (get "payload" envelope) ≡ some payload
      → has_text "tag" dispatch envelope ≡ false
      → as_obj (get "initialMessage" payload) ≡ o
      → OnlyMessage envelope (rewrite_launch to_units of_units name names envelope payload o)
  unfolding rewrite_launch
  launch-OnlyMessage envelope payload none h g m = kept-OnlyMessage envelope
  launch-OnlyMessage envelope payload (some initial) h g m =
      let r = replace_text (stamped to_units of_units name names) initial in
      let only = replace_text-OnlyText (stamped to_units of_units name names) initial in
      if-OnlyMessage envelope (is_some (as_str (get "text" initial))) _ _
        (λ _.
          with_payload-OnlyMessage envelope payload (launch ∷ []) (with_message payload initial r)
            false h g (initial_blank payload initial r m only.0)
            (λ u. rw (only.1 u) (set_obj_same "initialMessage" initial payload m)))
        (λ _. kept-OnlyMessage envelope)

  payload-OnlyMessage :
      (envelope : Fields) (o : Option Fields)
      → as_obj (get "payload" envelope) ≡ o
      → OnlyMessage envelope (rewrite_payload to_units of_units name names envelope o)
  unfolding rewrite_payload
  payload-OnlyMessage envelope none h = kept-OnlyMessage envelope
  payload-OnlyMessage envelope (some payload) h =
      if-OnlyMessage envelope
        (has_text "tag" dispatch envelope && is_some (as_str (get "text" payload))) _ _
        (λ t. dispatch-OnlyMessage envelope payload h (and_left _ _ t))
        (λ _.
          if-OnlyMessage envelope (has_text "tag" launch envelope) _ _
            (λ t.
              launch-OnlyMessage envelope payload (as_obj (get "initialMessage" payload)) h
                (launch_only (as_str (get "tag" envelope)) t) refl)
            (λ _. kept-OnlyMessage envelope))

  object-OnlyMessage :
      (envelope : Fields)
      → OnlyMessage envelope (rewrite_object to_units of_units name names envelope)
  unfolding rewrite_object
  object-OnlyMessage envelope =
      if-OnlyMessage envelope (has_text "_tag" "Request" envelope) _ _
        (λ _. payload-OnlyMessage envelope (as_obj (get "payload" envelope)) refl)
        (λ _. kept-OnlyMessage envelope)

  pub request_keeps :
      (e : Json)
      → let r = rewrite_request to_units of_units name names e in
        (masked r.0 ≡ masked e) × (r.1 ≡ false → r.0 ≡ e)
  unfolding rewrite_request
  request_keeps (obj fs) = let (m, u) = object-OnlyMessage fs in (m, λ e. ap obj (u e))
  request_keeps null = (refl, λ e. refl)
  request_keeps (bool b) = (refl, λ e. refl)
  request_keeps (num n) = (refl, λ e. refl)
  request_keeps (str s) = (refl, λ e. refl)
  request_keeps (arr vs) = (refl, λ e. refl)

  all_keep :
      (es : Items)
      → let r = rewrite_all to_units of_units name names es in
        (masked_all r.0 ≡ masked_all es) × (r.1 ≡ false → r.0 ≡ es)
  unfolding rewrite_all masked_all
  all_keep nil = (refl, λ e. refl)
  all_keep (cons e es) =
      let (m, u) = request_keeps e in
      let (n, v) = all_keep es in
      (
        ap (λ x. cons x (masked_all (rewrite_all to_units of_units name names es).0)) m
            ∙ ap (cons (masked e)) n,
        λ c.
            ap (λ x. cons x (rewrite_all to_units of_units name names es).0)
              (u (or_false_left _ _ c))
            ∙ ap (cons e) (v (or_false_right _ _ c)),
      )

  -- A frame with the requests in it masked.
  abbrev pub masked_frame : Json → Json
  masked_frame (arr es) = arr (masked_all es)
  masked_frame (obj fs) = masked (obj fs)
  masked_frame null = null
  masked_frame (bool b) = bool b
  masked_frame (num n) = num n
  masked_frame (str s) = str s

  -- The frame that goes on to the server, the new one or else the one that came, has the text of each
  -- message changed, of every request in it, and nothing else: the byline of the user on the text of a
  -- dispatched message that is not a guest's and of the first message of a launched thread, and in place
  -- of the bylines of known names on the text of an edited queued run; no other text changes.
  pub rewrite_frame_keeps :
      (frame : Json)
      → let upstream = or_else (rewrite_frame to_units of_units name names (some frame)).0 frame in
        (messages upstream ≡ map (changed to_units of_units name names) (messages frame))
        × (masked_frame upstream ≡ masked_frame frame)
  unfolding rewrite_frame
  rewrite_frame_keeps (arr es) =
      let (m, u) = all_keep es in
      let all = rewrite_all to_units of_units name names es in
      let sent = when_same all.1 (arr all.0) (arr es) (λ c. ap arr (u c)) in
      (
        ap messages sent ∙ all-changed to_units of_units name names es,
        ap masked_frame sent ∙ ap arr m,
      )
  rewrite_frame_keeps (obj fs) =
      let (m, u) = request_keeps (obj fs) in
      let r = rewrite_request to_units of_units name names (obj fs) in
      let sent = when_same r.1 r.0 (obj fs) u in
      (
        ap messages sent ∙ ap (λ x. x ∷ []) (request-changed to_units of_units name names (obj fs)),
        ap masked_frame sent ∙ m,
      )
  rewrite_frame_keeps null = (refl, refl)
  rewrite_frame_keeps (bool b) = (refl, refl)
  rewrite_frame_keeps (num n) = (refl, refl)
  rewrite_frame_keeps (str s) = (refl, refl)
