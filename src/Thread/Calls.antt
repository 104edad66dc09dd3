-- ===== src/Thread/Calls.antt =====
-- The sequences of calls of one tracker.
use t3code_client.Prelude.{ℕ, String, List, [], ◌∷◌, ◌++◌}
use t3code_client.Json.{Json}
use t3code_client.Thread.Records.{Link, Projection, DomainEvent}
use t3code_client.Thread.Derived.{Sign}
use t3code_client.Thread.Tracker.{Item, Tracker, seed, apply}

pub data Call : Type 0 where
  seeds : ℕ → Projection → Call
  applies : ℕ → DomainEvent → Call

module _ (legacy_link : Json → Link) (key_string : Link → String)
    (locale_compare : String → String → Sign) where
  unfoldable pub step : Tracker → Call → Tracker × List Item
  unfolding seed apply
  step t (seeds n p) = seed legacy_link key_string locale_compare n p t
  step t (applies n e) = apply legacy_link key_string locale_compare n e t

  -- The state after the calls, and the items of all of them in order.
  unfoldable pub run : Tracker → List Call → Tracker × List Item
  run t [] = (t, [])
  run t (k ∷ ks) = let (t', items) = step t k in let (t'', rest) = run t' ks in (t'', items ++ rest)
