-- ===== src/PubSub/Broker/Publishes.antt =====
-- src/pubsub/broker.js, `publish`: what each connection is sent.
use resplite.Base.{
  ℕ, ◌≡◌, refl, ◌∙◌, sym, ap, Bool, true, false, ◌&&◌, Option, none, some, List, [], ◌∷◌, ◌++◌, map,
  Bytes, nat_eq, bytes_eq, length, if◌then◌else◌, ◌==◌, inl, inr, Bool-cases, nat_beq_iff, ==_refl,
}
use resplite.Base.Maps
use resplite.Base.Maps.{Distinct}
use resplite.PubSub.Broker.{Members, Registry, Subscribed, Broker, has, is_there}
use resplite.PubSub.Broker.Messages.{
  Message, message, pmessage, deliver, matches, publish_patterns, publish_direct, direct_writes,
  publish,
}
use resplite.PubSub.Broker.Receivers.{publish_count}
use resplite.PubSub.Broker.Agreement.{in_entry, listens, IsEntry}
use resplite.PubSub.Broker.Consistent.{IsConsistent}

-- The messages that go to `id`, in order.
unfoldable pub received : ℕ → List (ℕ × Message) → List Message
received id [] = []
received id ((j, m) ∷ writes) = let rest = received id writes in if j == id then m ∷ rest else rest

received-append :
    (id : ℕ) (a b : List (ℕ × Message)) → received id (a ++ b) ≡ received id a ++ received id b
unfolding received
received-append id [] b = refl
received-append id ((j, m) ∷ a) b = elim (Bool-cases (j == id)) [
  | inl s ↦ rw s (ap (◌∷◌ m) (received-append id a b))
  | inr o ↦ rw o (received-append id a b)
]

abbrev pub once : Message → Bool → List Message
once m true = m ∷ []
once m false = []

received-deliver :
    (id : ℕ) (m : Message) (members : Members)
    → Distinct members
    → received id (deliver m members) ≡ once m (has id members)
unfolding received deliver has Maps.get
received-deliver id m [] d = refl
received-deliver id m ((j, _) ∷ members) d = elim (Bool-cases (j == id)) [
  | inl s ↦
      let absent : has id members ≡ false =
        ap is_there (ap (λ k. Maps.get k members) (sym ((nat_beq_iff j id).0 s)) ∙ d.0) in
      rw s (ap (◌∷◌ m) (received-deliver id m members d.1 ∙ ap (once m) absent))
  | inr o ↦ rw o (received-deliver id m members d.1)
]

-- What `id` is to get: once for each pattern that it listens to and that matches.
unfoldable pub expected : ℕ → Bytes → Bytes → Registry → List Bytes → List Message
expected id channel body registry [] = []
expected id channel body registry (key ∷ keys) =
    once (pmessage key channel body) (matches key channel && listens id key registry)
    ++ expected id channel body registry keys

abbrev pub patterns_in : Registry → List Bytes
patterns_in registry = map (λ e. e.0) registry

-- The rows still to come are rows of the registry.
abbrev Within : Registry → Registry → Type 0
Within rows registry =
    (key : Bytes) (entry : Subscribed)
    → Maps.get key rows ≡ some entry
    → Maps.get key registry ≡ some entry

tail-Within :
    (key : Bytes) (entry : Subscribed) (rows registry : Registry)
    → Distinct ((key, entry) ∷ rows)
    → Within ((key, entry) ∷ rows) registry
    → Within rows registry
unfolding Maps.get
tail-Within key entry rows registry d w j e there = elim (Bool-cases (key == j)) [
  | inl s ↦
      let gone : Maps.get j rows ≡ none =
        ap (λ k. Maps.get k rows) (sym ((bytes_eq.beq_iff key j).0 s)) ∙ d.0 in
      absurd (cc (gone, there))
  | inr o ↦ w j e (rw o there)
]

module _ (id : ℕ) (channel body : Bytes) (registry : Registry) where
  publish_row :
      (key : Bytes) (entry : Subscribed)
      → ((k : Bytes) → IsEntry k (Maps.get k registry))
      → Maps.get key registry ≡ some entry
      → received id (
          if matches entry.name channel
          then deliver (pmessage entry.name channel body) entry.subscribers
          else [])
        ≡ once (pmessage key channel body) (matches key channel && listens id key registry)
  unfolding listens received
  publish_row key entry entries there =
      let (name, d, l) = rw there at (entries key) in
      let heard : has id entry.subscribers ≡ listens id key registry =
        sym (ap (in_entry id) there) in
      elim (Bool-cases (matches key channel)) [
        | inl hit ↦ rw name (
            rw hit (
              received-deliver id (pmessage key channel body) entry.subscribers d
              ∙ ap (once (pmessage key channel body)) heard))
        | inr missed ↦ rw name (rw missed refl)
      ]

  split_row :
      (b : Bool) (a rest : List (ℕ × Message))
      → (if b then a ++ rest else rest) ≡ (if b then a else []) ++ rest
  split_row true a rest = refl
  split_row false a rest = refl

  publish_patterns-expected :
      (rows : Registry)
      → ((k : Bytes) → IsEntry k (Maps.get k registry))
      → Distinct rows
      → Within rows registry
      → received id (publish_patterns channel body rows)
        ≡ expected id channel body registry (patterns_in rows)
  unfolding publish_patterns expected received
  publish_patterns-expected [] entries d w = refl
  publish_patterns-expected ((key, entry) ∷ rows) entries d w =
      let first : Maps.get key ((key, entry) ∷ rows) ≡ some entry =
        unfold Maps.get in rw (==_refl key) refl in
      let row =
        if matches entry.name channel
        then deliver (pmessage entry.name channel body) entry.subscribers
        else [] in
      ap (received id) (
        split_row (matches entry.name channel)
          (deliver (pmessage entry.name channel body) entry.subscribers)
          (publish_patterns channel body rows))
      ∙ received-append id row (publish_patterns channel body rows)
      ∙ ap (λ a. a ++ received id (publish_patterns channel body rows))
          (publish_row key entry entries (w key entry first))
      ∙ ap
          (◌++◌ (once (pmessage key channel body) (matches key channel && listens id key registry)))
          (publish_patterns-expected rows entries d.1 (tail-Within key entry rows registry d w))

  publish_direct-once :
      (entries : (k : Bytes) → IsEntry k (Maps.get k registry))
      → received id (publish_direct channel body registry)
        ≡ once (message channel body) (listens id channel registry)
  unfolding publish_direct listens received
  publish_direct-once entries = direct (Maps.get channel registry) (entries channel)
    where
      direct :
          (o : Option Subscribed)
          → IsEntry channel o
          → received id (direct_writes channel body o) ≡ once (message channel body) (in_entry id o)
      direct none e = refl
      direct (some entry) e = received-deliver id (message channel body) entry.subscribers e.1

-- On a consistent broker, a message goes once to each connection that listens to the channel, and
-- behind that once for each pattern of the connection that matches it, in the order of the patterns; the answer
-- is the number of messages.
pub publish-expected :
    (id : ℕ) (channel body : Bytes) (b : Broker)
    → IsConsistent b
    → (received id (publish channel body b).1
        ≡ once (message channel body) (listens id channel b.channels)
          ++ expected id channel body b.patterns (patterns_in b.patterns))
      × ((publish channel body b).0 ≡ length (publish channel body b).1)
unfolding publish
publish-expected id channel body b c = (
  received-append id (publish_direct channel body b.channels)
        (publish_patterns channel body b.patterns)
      ∙ ap (λ a. a ++ received id (publish_patterns channel body b.patterns))
          (publish_direct-once id channel body b.channels c.channels.entries)
      ∙ ap (◌++◌ (once (message channel body) (listens id channel b.channels))) (
          publish_patterns-expected id channel body b.patterns b.patterns c.patterns.entries
            c.patterns.distinct (λ k e there. there)),
  publish_count channel body b,
)
