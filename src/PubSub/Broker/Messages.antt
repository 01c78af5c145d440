-- ===== src/PubSub/Broker/Messages.antt =====
-- src/pubsub/broker.js: `publish`, and what PUBSUB asks of the broker.
use resplite.Base.{
  ℕ, suc, Bool, true, false, Option, none, some, List, [], ◌∷◌, ◌++◌, map, Bytes, bytes_eq, length,
  if◌then◌else◌,
}
use resplite.Base.Maps
use resplite.PubSub.Glob.{match_pub_sub_pattern}
use resplite.PubSub.Broker.{Members, Subscribed, Registry, Broker}

-- What `publish` hands to the connections.
pub data Message : Type 0 where
  message : Bytes → Bytes → Message
  pmessage : Bytes → Bytes → Bytes → Message

unfoldable pub deliver : Message → Members → List (ℕ × Message)
deliver m members = map (λ e. (e.0, m)) members

unfoldable pub matches : Bytes → Bytes → Bool
matches pattern channel = elim (match_pub_sub_pattern pattern channel) [ none ↦ false | some b ↦ b ]

unfoldable pub publish_patterns : Bytes → Bytes → Registry → List (ℕ × Message)
publish_patterns channel body [] = []
publish_patterns channel body ((key, entry) ∷ rest) =
    let later = publish_patterns channel body rest in
    if matches entry.name channel
    then deliver (pmessage entry.name channel body) entry.subscribers ++ later
    else later

abbrev pub direct_writes : Bytes → Bytes → Option Subscribed → List (ℕ × Message)
direct_writes channel body none = []
direct_writes channel body (some entry) = deliver (message channel body) entry.subscribers

unfoldable pub publish_direct : Bytes → Bytes → Registry → List (ℕ × Message)
publish_direct channel body channels = direct_writes channel body (Maps.get channel channels)

-- `receivers++`, once for each subscriber.
unfoldable pub count_members : ℕ → Members → ℕ
count_members receivers [] = receivers
count_members receivers (_ ∷ members) = count_members (suc receivers) members

abbrev pub count_direct : Option Subscribed → ℕ
count_direct none = 0
count_direct (some entry) = count_members 0 entry.subscribers

unfoldable pub count_patterns : Bytes → ℕ → Registry → ℕ
count_patterns channel receivers [] = receivers
count_patterns channel receivers ((key, entry) ∷ rest) =
    let with_these = count_patterns channel (count_members receivers entry.subscribers) rest in
    let without = count_patterns channel receivers rest in
    if matches entry.name channel then with_these else without

-- The answer counts along the two loops that write.
unfoldable pub publish : Bytes → Bytes → Broker → ℕ × List (ℕ × Message)
unfolding count_members count_patterns
publish channel body b = (
  count_patterns channel (count_direct (Maps.get channel b.channels)) b.patterns,
  publish_direct channel body b.channels ++ publish_patterns channel body b.patterns,
)

-- `none`: no pattern is given.
unfoldable pub active_channels : Option Bytes → Registry → List Bytes
active_channels pattern [] = []
active_channels pattern ((key, entry) ∷ rest) =
    let more = active_channels pattern rest in
    if elim pattern [ none ↦ true | some p ↦ matches p entry.name ] then entry.name ∷ more else more

unfoldable pub numsub : List Bytes → Broker → List (Bytes × ℕ)
numsub [] b = []
numsub (channel ∷ channels) b =
    (
      channel,
      elim (Maps.get channel b.channels) [ none ↦ 0 | some entry ↦ length entry.subscribers ],
    )
    ∷ numsub channels b
