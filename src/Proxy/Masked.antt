-- ===== src/Proxy/Masked.antt =====
-- packages/t3code-proxy/src/frames.ts: what may change of a request, the text of its message.
use t3code_client.Prelude.{
  String, Bool, true, false, ◌&&◌, ◌||◌, Option, none, some, is_some, List, same, same_iff,
  if◌then◌else◌, ◌≡◌, refl, sym, ap, ◌∙◌, arith,
}
use t3code_client.Json.{
  Json, null, bool, num, str, arr, obj, Items, nil, cons, Fields, get, set, as_str, get-set, as_obj,
  set-set, set_str_same, set_obj_same, get-set_self,
}
use t3code_client.Proxy.Frames.{
  dispatch, launch, is_text, has_text, replace_from, replace_text, Rewritten, kept, with_payload,
  with_message,
}

-- A request without the text of its message: the text of a dispatched command, or that of the first
-- message of a launch.
abbrev pub blank : Fields → Fields
blank fs = if is_some (as_str (get "text" fs)) then set "text" null fs else fs

abbrev pub blank_initial : Fields → Option Fields → Fields
blank_initial payload none = payload
blank_initial payload (some initial) = set "initialMessage" (obj (blank initial)) payload

abbrev pub blank_payload : Bool → Fields → Fields
blank_payload true payload = blank payload
blank_payload false payload = blank_initial payload (as_obj (get "initialMessage" payload))

abbrev pub blank_request : Fields → Option Fields → Fields
blank_request envelope none = envelope
blank_request envelope (some payload) =
    set "payload" (obj (blank_payload (has_text "tag" dispatch envelope) payload)) envelope

unfoldable pub masked : Json → Json
masked (obj fs) = obj (blank_request fs (as_obj (get "payload" fs)))
masked null = null
masked (bool b) = bool b
masked (num n) = num n
masked (str s) = str s
masked (arr vs) = arr vs

unfoldable pub masked_all : Items → Items
unfolding masked
masked_all nil = nil
masked_all (cons e es) = cons (masked e) (masked_all es)

-- Only the text may change, and where the code says that it did not, nothing did.
abbrev pub OnlyText : Fields → Fields × Bool → Type 0
OnlyText fs r = (blank r.0 ≡ blank fs) × (r.1 ≡ false → r.0 ≡ fs)

pub blank-set_text : (t : String) (fs : Fields) → blank (set "text" (str t) fs) ≡ set "text" null fs
blank-set_text t fs = rw (get-set_self "text" (str t) fs) (set-set "text" null (str t) fs)

pub blank_text :
    (t : String) (fs : Fields) → as_str (get "text" fs) ≡ some t → blank fs ≡ set "text" null fs
blank_text t fs h = rw h refl

pub replace_from-OnlyText :
    (next : String → String) (o : Option String) (fs : Fields)
    → as_str (get "text" fs) ≡ o
    → OnlyText fs (replace_from next o fs)
unfolding replace_from
replace_from-OnlyText next none fs h = (refl, λ e. refl)
replace_from-OnlyText next (some t) fs h =
    (blank-set_text (next t) fs ∙ sym (blank_text t fs h), λ e. unchanged (ground (arith, e)))
  where
    unchanged : same (next t) t ≡ true → set "text" (str (next t)) fs ≡ fs
    unchanged e = rw ((same_iff (next t) t).0 e) (set_str_same "text" t fs h)

pub replace_text-OnlyText :
    (next : String → String) (fs : Fields) → OnlyText fs (replace_text next fs)
unfolding replace_text
replace_text-OnlyText next fs = replace_from-OnlyText next (as_str (get "text" fs)) fs refl

-- The same of an envelope.
abbrev pub OnlyMessage : Fields → Rewritten → Type 0
OnlyMessage envelope r =
    (masked (obj r.fields) ≡ masked (obj envelope)) × (r.changed ≡ false → r.fields ≡ envelope)

pub has_text-set_payload :
    (k t : String) (v : Json) (fs : Fields)
    → same "payload" k ≡ false
    → has_text k t (set "payload" v fs) ≡ has_text k t fs
has_text-set_payload k t v fs h = rw (get-set "payload" k v fs, h) refl

pub masked-set_payload :
    (envelope payload p : Fields) (tagged : Bool)
    → as_obj (get "payload" envelope) ≡ some payload
    → has_text "tag" dispatch envelope ≡ tagged
    → blank_payload tagged p ≡ blank_payload tagged payload
    → masked (obj (set "payload" (obj p) envelope)) ≡ masked (obj envelope)
unfolding masked
masked-set_payload envelope payload p tagged h g e =
    rw
      (
        get-set_self "payload" (obj p) envelope,
        h,
        has_text-set_payload "tag" dispatch (obj p) envelope tag_apart,
        g,
      )
      (ap obj (
        set-set "payload" (obj (blank_payload tagged p)) (obj p) envelope
        ∙ ap (λ q. set "payload" (obj q) envelope) e))
  where
    tag_apart : same "payload" "tag" ≡ false
    tag_apart = unfold same in refl

pub with_payload-OnlyMessage :
    (envelope payload : Fields) (commands : List String) (r : Fields × Bool) (tagged : Bool)
    → as_obj (get "payload" envelope) ≡ some payload
    → has_text "tag" dispatch envelope ≡ tagged
    → blank_payload tagged r.0 ≡ blank_payload tagged payload
    → (r.1 ≡ false → r.0 ≡ payload)
    → OnlyMessage envelope (with_payload envelope commands r)
with_payload-OnlyMessage envelope payload commands r tagged h g e u = (
  masked-set_payload envelope payload r.0 tagged h g e,
  λ f. rw (u f) (set_obj_same "payload" payload envelope h),
)

pub kept-OnlyMessage : (envelope : Fields) → OnlyMessage envelope (kept envelope)
kept-OnlyMessage envelope = (refl, λ e. refl)

pub if-OnlyMessage :
    (envelope : Fields) (b : Bool) (r q : Rewritten)
    → (b ≡ true → OnlyMessage envelope r)
    → (b ≡ false → OnlyMessage envelope q)
    → OnlyMessage envelope (if b then r else q)
if-OnlyMessage envelope true r q h k = h refl
if-OnlyMessage envelope false r q h k = k refl

pub initial_blank :
    (payload initial : Fields) (r : Fields × Bool)
    → as_obj (get "initialMessage" payload) ≡ some initial
    → blank r.0 ≡ blank initial
    → blank_payload false (with_message payload initial r).0 ≡ blank_payload false payload
initial_blank payload initial r m e =
    rw (get-set_self "initialMessage" (obj r.0) payload, m)
      (set-set "initialMessage" (obj (blank r.0)) (obj r.0) payload
        ∙ ap (λ q. set "initialMessage" (obj q) payload) e)

pub launch_only : (o : Option String) → is_text launch o ≡ true → is_text dispatch o ≡ false
launch_only none h = cc
launch_only (some s) h = rw ((same_iff s launch).0 h) apart
  where
    apart : same launch dispatch ≡ false
    apart = unfold same in refl

pub and_left : (a b : Bool) → a && b ≡ true → a ≡ true
and_left true b h = refl
and_left false b h = h

pub or_false_left : (a b : Bool) → a || b ≡ false → a ≡ false
or_false_left true b h = h
or_false_left false b h = refl

pub or_false_right : (a b : Bool) → a || b ≡ false → b ≡ false
or_false_right true b h = cc
or_false_right false b h = h
