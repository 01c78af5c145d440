-- ===== src/PubSub/Broker/Calls.antt =====
-- src/pubsub/broker.js: runs of its calls, and what they are to come to.
pub mod Runs
use resplite.Base.{
  ℕ, ◌≡◌, Bool, true, false, ◌&&◌, Option, none, some, List, [], ◌∷◌, Bytes, nat_eq, if◌then◌else◌,
  ◌==◌,
}
use resplite.PubSub.Broker.{Broker, subscribe, psubscribe, unsubscribe, punsubscribe, disconnect}
use resplite.PubSub.Broker.Agreement.{listens}
use resplite.PubSub.Broker.Loops.{among, covers}
use resplite.PubSub.Broker.Consistent.{IsConsistent}

-- The calls that change the broker, each by a connection.
pub data Call : Type 0 where
  subscribe_call psubscribe_call unsubscribe_call punsubscribe_call : ℕ → List Bytes → Call
  disconnect_call : ℕ → Call

abbrev pub second : {A : Type 0} → Option (A × Broker) → Option Broker
second none = none
second (some r) = some r.1

unfoldable pub step : Call → Broker → Option Broker
step (subscribe_call id keys) b = some (subscribe id keys b).1
step (psubscribe_call id keys) b = some (psubscribe id keys b).1
step (unsubscribe_call id keys) b = second (unsubscribe id keys b)
step (punsubscribe_call id keys) b = second (punsubscribe id keys b)
step (disconnect_call id) b = disconnect id b

unfoldable pub run : List Call → Broker → Option Broker
run [] b = some b
run (call ∷ calls) b = elim (step call b) [ none ↦ none | some b' ↦ run calls b' ]

-- Who listens to what: all that a broker is about.
pub record Audience : Type 0 where
  pub channels : ℕ → Bytes → Bool
  pub patterns : ℕ → Bytes → Bool

abbrev pub audience : Broker → Audience
audience b = record {
  channels = λ i j. listens i j b.channels;
  patterns = λ i j. listens i j b.patterns;
}

abbrev pub told : ℕ → (Bytes → Bool) → Bool → (ℕ → Bytes → Bool) → ℕ → Bytes → Bool
told id about b f i j = if id == i && about j then b else f i j

unfoldable pub spec : Call → Audience → Audience
spec (subscribe_call id keys) a = record a {
  channels = told id (λ j. among j keys) true a.channels;
}
spec (psubscribe_call id keys) a = record a {
  patterns = told id (λ j. among j keys) true a.patterns;
}
spec (unsubscribe_call id keys) a = record a {
  channels = told id (λ j. covers j keys) false a.channels;
}
spec (punsubscribe_call id keys) a = record a {
  patterns = told id (λ j. covers j keys) false a.patterns;
}
spec (disconnect_call id) a = record {
  channels = told id (λ j. true) false a.channels;
  patterns = told id (λ j. true) false a.patterns;
}

unfoldable pub run_spec : List Call → Audience → Audience
run_spec [] a = a
run_spec (call ∷ calls) a = run_spec calls (spec call a)

-- What a call comes to: it does not throw, and the broker stays consistent.
pub record Done (a : Audience) (out : Option Broker) : Type 0 where
  pub broker : Broker
  pub done : out ≡ some broker
  pub good : IsConsistent broker
  pub heard : audience broker ≡ a
