-- ===== src/Proxy/Changed.antt =====
-- packages/t3code-proxy/src/frames.ts: the texts of messages before and after the rewriting.
use t3code_client.Prelude.{
  String, true, false, ◌&&◌, Bool-cases, Option-cases, Option, none, some, is_some, List, map, same,
  ◌≡◌, refl, sym, ap, ◌∙◌, inl, inr,
}
use t3code_client.Json.{
  Json, null, bool, num, str, arr, obj, Items, nil, cons, Fields, get, set, as_str, as_obj, get-set,
  get-set_self,
}
use t3code_client.Proxy.Units.{Text}
use t3code_client.Proxy.Byline.{with_byline, without_byline}
use t3code_client.Proxy.Masked.{launch_only}
use t3code_client.Proxy.Frames.{
  dispatch, launch, has_text, replace_text, replace_from, stamped, restamped, rewrite_dispatch,
  rewrite_launch, rewrite_payload, rewrite_object, rewrite_request, rewrite_all,
}
use t3code_client.Proxy.Messages.{
  Change, as_is, stamp, restamp, dispatch_change, told, told_initial, message_in, message_of,
  messages,
}

in_payload :
    (envelope p : Fields)
    → message_of (obj (set "payload" (obj p) envelope))
      ≡ message_in (has_text "_tag" "Request" envelope) envelope (some p)
in_payload envelope p =
    rw
      (
        get-set_self "payload" (obj p) envelope,
        get-set "payload" "_tag" (obj p) envelope,
        no_tag,
        get-set "payload" "tag" (obj p) envelope,
        no_method,
      )
      refl
  where
    no_tag : same "payload" "_tag" ≡ false
    no_tag = unfold same in refl

    no_method : same "payload" "tag" ≡ false
    no_method = unfold same in refl

dispatch_change_kept :
    (v : Json) (p : Fields) → dispatch_change true (set "text" v p) ≡ dispatch_change true p
dispatch_change_kept v p =
    rw (get-set "text" "type" v p, no_type, get-set "text" "guestMessageId" v p, no_guest) refl
  where
    no_type : same "text" "type" ≡ false
    no_type = unfold same in refl

    no_guest : same "text" "guestMessageId" ≡ false
    no_guest = unfold same in refl

module _ (to_units : String → Text) (of_units : Text → String) (name : String)
    (names : List String) where
  -- The text that goes on.
  abbrev change : Change → String → String
  change as_is text = text
  change stamp text = of_units (with_byline (to_units text) (to_units name))
  change restamp text =
      of_units (with_byline (without_byline (to_units text) (map to_units names)) (to_units name))

  abbrev pub changed : Option (Change × String) → Option (Change × String)
  changed none = none
  changed (some (c, text)) = some (c, change c text)

  told_same : (o : Option String) → told as_is o ≡ changed (told as_is o)
  told_same none = refl
  told_same (some text) = refl

  initial_same : (o : Option Fields) → told_initial as_is o ≡ changed (told_initial as_is o)
  initial_same none = refl
  initial_same (some initial) = told_same (as_str (get "text" initial))

  -- An envelope that is no request stays.
  other_same :
      (envelope : Fields) (o : Option Fields)
      → message_in false envelope o ≡ changed (message_in false envelope o)
  other_same envelope none = refl
  other_same envelope (some payload) = elim (Bool-cases (has_text "tag" dispatch envelope)) [
    | inl hit ↦ rw hit (told_same (as_str (get "text" payload)))
    | inr miss ↦ rw miss (initial_same (as_obj (get "initialMessage" payload)))
  ]

  replaced :
      (next : String → String) (text : String) (p : Fields)
      → as_str (get "text" p) ≡ some text
      → (replace_text next p).0 ≡ set "text" (str (next text)) p
  unfolding replace_text replace_from
  replaced next text p h = rw h refl

  -- A dispatched command with a text, when its text is replaced and when it stays.
  dispatch_replaced :
      (next : String → String) (envelope payload : Fields) (text : String)
      → has_text "_tag" "Request" envelope ≡ true
      → has_text "tag" dispatch envelope ≡ true
      → as_str (get "text" payload) ≡ some text
      → message_of (obj (set "payload" (obj (replace_text next payload).0) envelope))
        ≡ some (dispatch_change true payload, next text)
  dispatch_replaced next envelope payload text q d g =
      let p = set "text" (str (next text)) payload in
      let in_place : (replace_text next payload).0 ≡ p = replaced next text payload g in
      let inner : message_in true envelope (some p) ≡ some (dispatch_change true p, next text) =
        rw (d, get-set_self "text" (str (next text)) payload) refl in
      ap (λ x. message_of (obj (set "payload" (obj x) envelope))) in_place
      ∙ in_payload envelope p
      ∙ ap (λ b. message_in b envelope (some p)) q
      ∙ inner
      ∙ ap (λ c. some (c, next text)) (dispatch_change_kept (str (next text)) payload)

  dispatch_stays :
      (envelope payload : Fields) (text : String)
      → has_text "_tag" "Request" envelope ≡ true
      → as_obj (get "payload" envelope) ≡ some payload
      → has_text "tag" dispatch envelope ≡ true
      → as_str (get "text" payload) ≡ some text
      → message_of (obj envelope) ≡ some (dispatch_change true payload, text)
  dispatch_stays envelope payload text q h d g = rw (h, q, d, g) refl

  dispatch-changed :
      (envelope payload : Fields) (text : String)
      → has_text "_tag" "Request" envelope ≡ true
      → as_obj (get "payload" envelope) ≡ some payload
      → has_text "tag" dispatch envelope ≡ true
      → as_str (get "text" payload) ≡ some text
      → message_of (obj (rewrite_dispatch to_units of_units name names envelope payload).fields)
        ≡ changed (message_of (obj envelope))
  unfolding rewrite_dispatch
  dispatch-changed envelope payload text q h d g =
      let stays = dispatch_stays envelope payload text q h d g in
      let again =
        dispatch_replaced (restamped to_units of_units name names) envelope payload text q d g in
      let sends =
        dispatch_replaced (stamped to_units of_units name names) envelope payload text q d g in
      elim (Bool-cases (has_text "type" "queued-run.edit" payload)) [
        | inl edit ↦ rw edit ((rw edit at again) ∙ sym (ap changed (rw edit at stays)))
        | inr other ↦ elim (Bool-cases (has_text "type" "message.dispatch" payload)) [
          | inl message ↦ elim (Bool-cases (is_some (get "guestMessageId" payload))) [
            | inl guest ↦
                rw (other, message, guest)
                  ((rw (other, message, guest) at stays)
                    ∙ sym (ap changed (rw (other, message, guest) at stays)))
            | inr own ↦
                rw (other, message, own)
                  ((rw (other, message, own) at sends)
                    ∙ sym (ap changed (rw (other, message, own) at stays)))
          ]
          | inr none_ ↦
              rw (other, none_)
                ((rw (other, none_) at stays) ∙ sym (ap changed (rw (other, none_) at stays)))
        ]
      ]

  -- The first message of a thread that is launched.
  launch-changed :
      (envelope payload initial : Fields) (text : String)
      → has_text "_tag" "Request" envelope ≡ true
      → as_obj (get "payload" envelope) ≡ some payload
      → has_text "tag" dispatch envelope ≡ false
      → has_text "tag" launch envelope ≡ true
      → as_obj (get "initialMessage" payload) ≡ some initial
      → as_str (get "text" initial) ≡ some text
      → message_of
          (obj (rewrite_launch to_units of_units name names envelope payload (some initial)).fields)
        ≡ changed (message_of (obj envelope))
  unfolding rewrite_launch
  launch-changed envelope payload initial text q h d l m g =
      let next = stamped to_units of_units name names in
      let p = set "initialMessage" (obj (set "text" (str (next text)) initial)) payload in
      let inner : message_in true envelope (some p) ≡ some (stamp, next text) =
        rw
          (
            d,
            l,
            get-set_self "initialMessage" (obj (set "text" (str (next text)) initial)) payload,
            get-set_self "text" (str (next text)) initial,
          )
          refl in
      let stays : message_of (obj envelope) ≡ some (stamp, text) = rw (h, q, d, l, m, g) refl in
      rw g (
        in_payload envelope p
        ∙ ap (λ b. message_in b envelope (some p)) q
        ∙ inner
        ∙ sym (ap changed stays))

  -- Where there is no text, there is none after.
  silent :
      (envelope : Fields)
      → message_of (obj envelope) ≡ none
      → message_of (obj envelope) ≡ changed (message_of (obj envelope))
  silent envelope e = e ∙ sym (ap changed e)

  launch_or_not-changed :
      (envelope payload : Fields) (o : Option Fields)
      → has_text "_tag" "Request" envelope ≡ true
      → as_obj (get "payload" envelope) ≡ some payload
      → has_text "tag" dispatch envelope ≡ false
      → has_text "tag" launch envelope ≡ true
      → as_obj (get "initialMessage" payload) ≡ o
      → message_of (obj (rewrite_launch to_units of_units name names envelope payload o).fields)
        ≡ changed (message_of (obj envelope))
  unfolding rewrite_launch
  launch_or_not-changed envelope payload none q h d l m = silent envelope (rw (h, d, m) refl)
  launch_or_not-changed envelope payload (some initial) q h d l m =
      elim (Option-cases (as_str (get "text" initial))) [
        | inl empty ↦ rw empty (silent envelope (rw (h, d, m, empty) refl))
        | inr (text, g) ↦ launch-changed envelope payload initial text q h d l m g
      ]

  payload-changed :
      (envelope payload : Fields)
      → has_text "_tag" "Request" envelope ≡ true
      → as_obj (get "payload" envelope) ≡ some payload
      → message_of
          (obj (rewrite_payload to_units of_units name names envelope (some payload)).fields)
        ≡ changed (message_of (obj envelope))
  unfolding rewrite_payload
  payload-changed envelope payload q h = elim (Bool-cases (has_text "tag" dispatch envelope)) [
    | inl d ↦ elim (Option-cases (as_str (get "text" payload))) [
      | inl empty ↦ elim (Bool-cases (has_text "tag" launch envelope)) [
        | inl l ↦ cc (launch_only (as_str (get "tag" envelope)) l, d)
        | inr other ↦ rw (d, empty, other) (silent envelope (rw (h, d, empty) refl))
      ]
      | inr (text, g) ↦
          let both : has_text "tag" dispatch envelope && is_some (as_str (get "text" payload))
              ≡ true =
            rw (d, g) refl in
          rw both (dispatch-changed envelope payload text q h d g)
    ]
    | inr d ↦ elim (Bool-cases (has_text "tag" launch envelope)) [
      | inl l ↦
          rw (d, l)
            (launch_or_not-changed envelope payload (as_obj (get "initialMessage" payload)) q h d l
              refl)
      | inr other ↦
          let kept_message : message_of (obj envelope)
              ≡ told_initial as_is (as_obj (get "initialMessage" payload)) =
            rw (h, q, d, other) refl in
          rw (d, other) (kept_message ∙ initial_same _ ∙ sym (ap changed kept_message))
    ]
  ]

  object-changed :
      (envelope : Fields)
      → message_of (obj (rewrite_object to_units of_units name names envelope).fields)
        ≡ changed (message_of (obj envelope))
  unfolding rewrite_object rewrite_payload
  object-changed envelope = elim (Bool-cases (has_text "_tag" "Request" envelope)) [
    | inl q ↦ elim (Option-cases (as_obj (get "payload" envelope))) [
      | inl none_ ↦ rw (q, none_) (rw none_ refl)
      | inr (payload, h) ↦
          let all = payload-changed envelope payload q h in rw (q, h) (rw (q, h) at all)
    ]
    | inr other ↦
        let kept_message : message_of (obj envelope)
            ≡ message_in false envelope (as_obj (get "payload" envelope)) =
          rw other refl in
        rw other (kept_message ∙ other_same envelope _)
  ]

  -- Each envelope, and a frame of them.
  pub request-changed :
      (e : Json)
      → message_of (rewrite_request to_units of_units name names e).0 ≡ changed (message_of e)
  unfolding rewrite_request
  request-changed (obj fs) = object-changed fs
  request-changed null = refl
  request-changed (bool b) = refl
  request-changed (num n) = refl
  request-changed (str s) = refl
  request-changed (arr vs) = refl

  pub all-changed :
      (es : Items)
      → messages (arr (rewrite_all to_units of_units name names es).0)
        ≡ map changed (messages (arr es))
  unfolding rewrite_all
  all-changed nil = refl
  all-changed (cons e es) = rw (request-changed e, all-changed es) refl
