-- ===== src/PubSub/Broker/Receivers.antt =====
-- src/pubsub/broker.js, `publish`: its counter of receivers against what it writes.
use resplite.Base.{
  ℕ, suc, ◌+◌, ◌≡◌, refl, Option, none, some, [], ◌∷◌, Bytes, length, arith, length-append, inl,
  inr, Bool-cases,
}
use resplite.Base.Maps
use resplite.PubSub.Broker.{Members, Registry, Subscribed, Broker}
use resplite.PubSub.Broker.Messages.{
  Message, message, pmessage, deliver, matches, publish_patterns, publish_direct, direct_writes,
  publish, count_members, count_direct, count_patterns,
}

-- The counters count the writes.
count_members-length :
    (n : ℕ) (m : Message) (members : Members)
    → count_members n members ≡ n + length (deliver m members)
unfolding count_members deliver
count_members-length n m [] = omega arith
count_members-length n m (_ ∷ members) = omega (arith, count_members-length (suc n) m members)

count_patterns-length :
    (channel body : Bytes) (n : ℕ) (rows : Registry)
    → count_patterns channel n rows ≡ n + length (publish_patterns channel body rows)
unfolding count_patterns publish_patterns
count_patterns-length channel body n [] = omega arith
count_patterns-length channel body n ((key, entry) ∷ rows) =
    let m = pmessage entry.name channel body in
    let later = publish_patterns channel body rows in
    elim (Bool-cases (matches entry.name channel)) [
      | inl hit ↦ rw hit (
          omega (
            arith,
            count_patterns-length channel body (count_members n entry.subscribers) rows,
            count_members-length n m entry.subscribers,
            length-append (deliver m entry.subscribers) later,
          ))
      | inr missed ↦ rw missed (count_patterns-length channel body n rows)
    ]

count_direct-length :
    (channel body : Bytes) (o : Option Subscribed)
    → count_direct o ≡ length (direct_writes channel body o)
count_direct-length channel body none = refl
count_direct-length channel body (some entry) =
    omega (arith, count_members-length 0 (message channel body) entry.subscribers)

pub publish_count :
    (channel body : Bytes) (b : Broker)
    → (publish channel body b).0 ≡ length (publish channel body b).1
unfolding publish publish_direct
publish_count channel body b =
    let direct = publish_direct channel body b.channels in
    let patterns = publish_patterns channel body b.patterns in
    omega (
      arith,
      count_patterns-length channel body (count_direct (Maps.get channel b.channels)) b.patterns,
      count_direct-length channel body (Maps.get channel b.channels),
      length-append direct patterns,
    )
