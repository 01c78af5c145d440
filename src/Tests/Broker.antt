-- ===== src/Tests/Broker.antt =====
-- Runs of src/pubsub/broker.js on small inputs, and inputs for its theorems.
use resplite.Base.{◌≡◌, List, [], ◌∷◌, ◌++◌, Bytes, length}
use resplite.PubSub.Broker.{Broker, create_broker}
use resplite.PubSub.Broker.Messages.{message, publish}
use resplite.PubSub.Broker.Agreement.{listens}
use resplite.PubSub.Broker.Consistent.{IsConsistent, create_broker-IsConsistent}
use resplite.PubSub.Broker.Calls.{
  Call, subscribe_call, psubscribe_call, unsubscribe_call, disconnect_call, run, run_spec, audience,
  Done,
}
use resplite.PubSub.Broker.Calls.Runs.{run-Done}
use resplite.PubSub.Broker.Publishes.{received, once, expected, patterns_in, publish-expected}

abbrev news : Bytes
news = b'n' ∷ b'e' ∷ b'w' ∷ b's' ∷ []

abbrev n_star : Bytes
n_star = b'n' ∷ b'*' ∷ []

abbrev calls : List Call
calls =
    subscribe_call 1 (news ∷ n_star ∷ news ∷ [])
    ∷ psubscribe_call 1 (n_star ∷ [])
    ∷ subscribe_call 2 (news ∷ [])
    ∷ unsubscribe_call 1 (n_star ∷ [])
    ∷ disconnect_call 2
    ∷ unsubscribe_call 3 []
    ∷ []

run-Done_example : Done (run_spec calls (audience create_broker)) (run calls create_broker)
run-Done_example = run-Done calls create_broker create_broker-IsConsistent

-- The broker that the calls leave.
abbrev left : Broker
left = (run-Done calls create_broker create_broker-IsConsistent).broker

left-IsConsistent : IsConsistent left
left-IsConsistent = (run-Done calls create_broker create_broker-IsConsistent).good

publish-expected_example :
    (received 1 (publish news (b'!' ∷ []) left).1
      ≡ once (message news (b'!' ∷ [])) (listens 1 news left.channels)
        ++ expected 1 news (b'!' ∷ []) left.patterns (patterns_in left.patterns))
    × ((publish news (b'!' ∷ []) left).0 ≡ length (publish news (b'!' ∷ []) left).1)
publish-expected_example = publish-expected 1 news (b'!' ∷ []) left left-IsConsistent
