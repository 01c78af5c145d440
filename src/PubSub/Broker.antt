-- ===== src/PubSub/Broker.antt =====
-- src/pubsub/broker.js: who listens to which channels and patterns.
-- `bufferKey`, base64 and so one to one, is the buffer itself, and a context is its `connectionId`.
-- Channels and patterns go through the same steps on a registry and the names of one connection.
-- `none` is an exception of `requireChannel` or `requirePattern`; a `Set` is a Map to nothing.
pub mod Membership
pub mod Agreement
pub mod Steps
pub mod Loops
pub mod Consistent
pub mod Calls
pub mod Messages
pub mod Receivers
pub mod Publishes
use resplite.Base.{
  ℕ, ◌+◌, Bool, true, false, Option, none, some, List, [], ◌∷◌, map, Bytes, nat_eq, bytes_eq,
  length, if◌then◌else◌, ◌==◌, Eq,
}
use resplite.Base.Maps

abbrev pub Members : Type 0
Members = List (ℕ × Unit {0})

abbrev pub Names : Type 0
Names = List (Bytes × Unit {0})

-- An entry of the maps `channels` and `patterns`.
pub record Subscribed : Type 0 where
  pub name : Bytes
  pub subscribers : Members

abbrev pub Registry : Type 0
Registry = List (Bytes × Subscribed)

-- The state that the broker keeps for a connection.
pub record Listener : Type 0 where
  pub channels : Names
  pub patterns : Names

pub record Broker : Type 0 where
  pub channels : Registry
  pub patterns : Registry
  pub by_connection : List (ℕ × Listener)

abbrev pub create_broker : Broker
create_broker = record { channels = []; patterns = []; by_connection = [] }

abbrev pub no_names : Listener
no_names = record { channels = []; patterns = [] }

abbrev pub state_or_new : Option Listener → Listener
state_or_new none = no_names
state_or_new (some state) = state

unfoldable pub state_for : ℕ → Broker → Listener
state_for id b = state_or_new (Maps.get id b.by_connection)

-- A registry, and one connection's names in it.
pub record Half : Type 0 where
  pub registry : Registry
  pub names : Names

-- The message that answers a subscription: its kind stands with the calls below.
pub record Push : Type 0 where
  pub name : Option Bytes
  pub count : ℕ

abbrev pub is_there {ℓ} : {V : Type ℓ} → Option V → Bool
is_there none = false
is_there (some _) = true

unfoldable pub has : {K : Type 0} ⦃e : Eq K⦄ → K → List (K × Unit {0}) → Bool
has k m = is_there (Maps.get k m)

-- The entry of a name that is new to the registry has no subscribers.
abbrev pub entry_or_new : Bytes → Option Subscribed → Subscribed
entry_or_new key none = record { name = key; subscribers = [] }
entry_or_new key (some entry) = entry

unfoldable pub entry_of : Bytes → Registry → Subscribed
entry_of key registry = entry_or_new key (Maps.get key registry)

unfoldable pub add_member : ℕ → Bytes → Registry → Registry
unfolding entry_of
add_member id key registry =
    let entry = entry_of key registry in
    Maps.set key (record entry { subscribers = Maps.set id tt entry.subscribers }) registry

-- One round of `subscribe` and `psubscribe`.
unfoldable pub subscribe_one : ℕ → Bytes → Half → Half
subscribe_one id key h =
    if has key h.names
    then h
    else record { registry = add_member id key h.registry; names = Maps.set key tt h.names }

-- `other`: how many names of the other sort the connection has.
unfoldable pub subscribe_loop : ℕ → ℕ → List Bytes → Half → List Push × Half
subscribe_loop id other [] h = ([], h)
subscribe_loop id other (key ∷ keys) h =
    let h' = subscribe_one id key h in
    let (pushes, last) = subscribe_loop id other keys h' in
    (record { name = some key; count = length h'.names + other } ∷ pushes, last)

unfoldable pub drop_member : ℕ → Bytes → Subscribed → Registry → Registry
drop_member id key entry registry =
    let left = Maps.delete id entry.subscribers in
    if length left == 0
    then Maps.delete key registry
    else Maps.set key (record entry { subscribers = left }) registry

-- `unsubscribeOne` and `punsubscribeOne`
unfoldable pub unsubscribe_one : ℕ → Bytes → Half → Option Half
unsubscribe_one id key h =
    if has key h.names
    then elim (Maps.get key h.registry) [
      | none ↦ none
      | some entry ↦ some (record {
        registry = drop_member id key entry h.registry;
        names = Maps.delete key h.names;
      })
    ]
    else some h

unfoldable pub unsubscribe_loop : ℕ → ℕ → List Bytes → Half → Option (List Push × Half)
unsubscribe_loop id other [] h = some ([], h)
unsubscribe_loop id other (key ∷ keys) h = elim (unsubscribe_one id key h) [
  | none ↦ none
  | some h' ↦ elim (unsubscribe_loop id other keys h') [
    | none ↦ none
    | some r ↦ some (record { name = some key; count = length h'.names + other } ∷ r.0, r.1)
  ]
]

-- With no names given, all that the connection has, by the names that the registry holds.
unfoldable pub unsubscribe_all : ℕ → ℕ → List Bytes → Half → Option (List Push × Half)
unsubscribe_all id other [] h = some ([], h)
unsubscribe_all id other (key ∷ keys) h = elim (Maps.get key h.registry) [
  | none ↦ none
  | some entry ↦ elim (unsubscribe_one id entry.name h) [
    | none ↦ none
    | some h' ↦ elim (unsubscribe_all id other keys h') [
      | none ↦ none
      | some r ↦
          some (record { name = some entry.name; count = length h'.names + other } ∷ r.0, r.1)
    ]
  ]
]

abbrev pub keys_of : Names → List Bytes
keys_of names = map (λ e. e.0) names

abbrev pub unsubscribe_unnamed : ℕ → ℕ → Names → Half → Option (List Push × Half)
unsubscribe_unnamed id other [] h = some (record { name = none; count = other } ∷ [], h)
unsubscribe_unnamed id other (n ∷ ns) h = unsubscribe_all id other (keys_of (n ∷ ns)) h

unfoldable pub unsubscribe_half : ℕ → ℕ → List Bytes → Half → Option (List Push × Half)
unsubscribe_half id other (key ∷ keys) h = unsubscribe_loop id other (key ∷ keys) h
unsubscribe_half id other [] h = unsubscribe_unnamed id other h.names h

-- The first words of the messages.
pub data Kind : Type 0 where
  subscribed unsubscribed psubscribed punsubscribed : Kind

abbrev labelled : Kind → List Push → List (Kind × Push)
labelled kind pushes = map (λ p. (kind, p)) pushes

unfoldable pub channels_of : ℕ → Broker → Half
channels_of id b = record { registry = b.channels; names = (state_for id b).channels }

unfoldable pub patterns_of : ℕ → Broker → Half
patterns_of id b = record { registry = b.patterns; names = (state_for id b).patterns }

unfoldable pub with_channels : ℕ → Half → Broker → Broker
with_channels id h b = record b {
  channels = h.registry;
  by_connection =
      Maps.set id (record { channels = h.names; patterns = (state_for id b).patterns })
        b.by_connection;
}

unfoldable pub with_patterns : ℕ → Half → Broker → Broker
with_patterns id h b = record b {
  patterns = h.registry;
  by_connection =
      Maps.set id (record { channels = (state_for id b).channels; patterns = h.names })
        b.by_connection;
}

unfoldable pub subscription_count : Listener → ℕ
subscription_count state = length state.channels + length state.patterns

unfoldable pub remove_empty_state : ℕ → Broker → Broker
remove_empty_state id b =
    if subscription_count (state_for id b) == 0
    then record b { by_connection = Maps.delete id b.by_connection }
    else b

unfoldable pub subscribe : ℕ → List Bytes → Broker → List (Kind × Push) × Broker
subscribe id channels b =
    let (pushes, h) =
      subscribe_loop id (length (patterns_of id b).names) channels (channels_of id b) in
    (labelled subscribed pushes, with_channels id h b)

unfoldable pub psubscribe : ℕ → List Bytes → Broker → List (Kind × Push) × Broker
psubscribe id patterns b =
    let (pushes, h) =
      subscribe_loop id (length (channels_of id b).names) patterns (patterns_of id b) in
    (labelled psubscribed pushes, with_patterns id h b)

-- The end of both, with the names that are left put in by `with_half`.
abbrev pub settle :
    ℕ → Kind → (Half → Broker) → Option (List Push × Half) → Option (List (Kind × Push) × Broker)
settle id kind with_half none = none
settle id kind with_half (some r) = some (labelled kind r.0, remove_empty_state id (with_half r.1))

unfoldable pub unsubscribe : ℕ → List Bytes → Broker → Option (List (Kind × Push) × Broker)
unsubscribe id channels b =
    settle id unsubscribed (λ h. with_channels id h b)
      (unsubscribe_half id (length (patterns_of id b).names) channels (channels_of id b))

unfoldable pub punsubscribe : ℕ → List Bytes → Broker → Option (List (Kind × Push) × Broker)
punsubscribe id patterns b =
    settle id punsubscribed (λ h. with_patterns id h b)
      (unsubscribe_half id (length (channels_of id b).names) patterns (patterns_of id b))

abbrev pub unlist : ℕ → Broker → Option (List Push × Half) → Option Broker
unlist id b none = none
unlist id b (some r) =
    let b' = with_patterns id r.1 b in
    some (record b' { by_connection = Maps.delete id b'.by_connection })

abbrev pub leave_patterns : ℕ → Broker → Option (List Push × Half) → Option Broker
leave_patterns id b none = none
leave_patterns id b (some r) =
    let b' = with_channels id r.1 b in
    unlist id b' (unsubscribe_all id 0 (keys_of (patterns_of id b').names) (patterns_of id b'))

-- The rest of `disconnect`, when the connection has a state.
unfoldable pub disconnect_state : ℕ → Broker → Option Broker
disconnect_state id b =
    leave_patterns id b (unsubscribe_all id 0 (keys_of (channels_of id b).names) (channels_of id b))

unfoldable pub disconnect : ℕ → Broker → Option Broker
disconnect id b = elim (Maps.get id b.by_connection) [
  | none ↦ some b
  | some _ ↦ disconnect_state id b
]

unfoldable pub numpat : Broker → ℕ
numpat b = length b.patterns

unfoldable pub count_for : ℕ → Broker → ℕ
count_for id b = subscription_count (state_for id b)
