-- ===== src/PubSub/Broker/Agreement.antt =====
-- src/pubsub/broker.js: a registry and the names of the connections say the same.
use resplite.Base.{
  ℕ, ◌<◌, ◌≡◌, refl, ◌∙◌, sym, ap, Bool, false, ◌&&◌, Option, none, some, Bytes, nat_eq, bytes_eq,
  length, if◌then◌else◌, ◌==◌, inl, inr, Bool-cases,
}
use mathlib.Core.Path.{subst}
use resplite.Base.Maps
use resplite.Base.Maps.{Distinct, get-set, get-delete, set-Distinct, delete-Distinct}
use resplite.PubSub.Broker.{Names, Subscribed, Registry, Half, has}

abbrev pub in_entry : ℕ → Option Subscribed → Bool
in_entry id none = false
in_entry id (some entry) = has id entry.subscribers

-- Whether the registry has `id` under `key`.
unfoldable pub listens : ℕ → Bytes → Registry → Bool
listens id key registry = in_entry id (Maps.get key registry)

abbrev pub IsEntry : Bytes → Option Subscribed → Type 0
IsEntry key none = Unit
IsEntry key (some entry) =
    (entry.name ≡ key) × Distinct entry.subscribers × (0 < length entry.subscribers)

pub record Agrees (registry : Registry) (names : ℕ → Names) : Type 0 where
  pub distinct : Distinct registry
  pub entries : (key : Bytes) → IsEntry key (Maps.get key registry)
  pub names_distinct : (id : ℕ) → Distinct (names id)
  pub same : (id : ℕ) (key : Bytes) → has key (names id) ≡ listens id key registry

abbrev pub put {ℓ} : {A : Type ℓ} → ℕ → A → (ℕ → A) → ℕ → A
put id a f j = if id == j then a else f j

-- What `half` knows is right, when the other connections have the names that `names` gives.
abbrev pub Fits : ℕ → (ℕ → Names) → Half → Type 0
Fits id names h = Agrees h.registry (put id h.names names)

-- A change of one entry and of the names of one connection.
pub record Replaced (id : ℕ) (key : Bytes) (h h' : Half) (now : Option Subscribed) (b : Bool)
    : Type 0 where
  pub distinct : Distinct h'.registry
  pub gets :
      (j : Bytes) → Maps.get j h'.registry ≡ (if key == j then now else Maps.get j h.registry)
  pub entry : IsEntry key now
  pub members : (i : ℕ) → in_entry i now ≡ (if id == i then b else listens i key h.registry)
  pub names_distinct : Distinct h'.names
  pub has_names : (j : Bytes) → has j h'.names ≡ (if key == j then b else has j h.names)

-- Only `id` under `key` listens otherwise than before.
abbrev pub Tells : ℕ → Bytes → Bool → Registry → Registry → Type 0
Tells id key b r r' =
    (i : ℕ) (j : Bytes) → listens i j r' ≡ (if id == i && key == j then b else listens i j r)

pub Tells-Replaced :
    (id : ℕ) (key : Bytes) (h h' : Half) (now : Option Subscribed) (b : Bool)
    → Replaced id key h h' now b
    → Tells id key b h.registry h'.registry
unfolding listens
Tells-Replaced id key h h' now b r i j = elim (Bool-cases (key == j)) [
  | inl s ↦
      let e : key ≡ j = (bytes_eq.beq_iff key j).0 s in
      elim (Bool-cases (id == i)) [
        | inl t ↦ ap (in_entry i) (r.gets j) ∙ rw s (r.members i ∙ rw t refl)
        | inr u ↦
            ap (in_entry i) (r.gets j)
            ∙ rw s (r.members i ∙ rw u (ap (λ k. listens i k h.registry) e))
      ]
  | inr o ↦ elim (Bool-cases (id == i)) [
    | inl t ↦ ap (in_entry i) (r.gets j) ∙ rw o (rw t refl)
    | inr u ↦ ap (in_entry i) (r.gets j) ∙ rw o (rw u refl)
  ]
]

pub Fits-Replaced :
    (id : ℕ) (key : Bytes) (names : ℕ → Names) (h h' : Half) (now : Option Subscribed) (b : Bool)
    → Fits id names h
    → Replaced id key h h' now b
    → Fits id names h'
Fits-Replaced id key names h h' now b f r = record {
  distinct = r.distinct;
  entries = λ j. elim (Bool-cases (key == j)) [
    | inl s ↦
        rw (r.gets j) (rw s (subst (λ k. IsEntry k now) ((bytes_eq.beq_iff key j).0 s) r.entry))
    | inr o ↦ rw (r.gets j) (rw o (f.entries j))
  ];
  names_distinct = λ i. elim (Bool-cases (id == i)) [
    | inl t ↦ rw t r.names_distinct
    | inr u ↦ rw u (rw u at (f.names_distinct i))
  ];
  same = λ i j. elim (Bool-cases (id == i)) [
    | inl t ↦ elim (Bool-cases (key == j)) [
      | inl s ↦ rw t (r.has_names j ∙ rw s (sym (tells i j ∙ rw t (rw s refl))))
      | inr o ↦
          rw t (r.has_names j ∙ rw o (rw t at (f.same i j) ∙ sym (tells i j ∙ rw t (rw o refl))))
    ]
    | inr u ↦ rw u (rw u at (f.same i j) ∙ sym (tells i j ∙ rw u refl))
  ];
}
  where
    tells : Tells id key b h.registry h'.registry
    tells = Tells-Replaced id key h h' now b r

-- A connection that listens already is one that `subscribe_one` leaves alone.
pub already-Tells :
    (id : ℕ) (key : Bytes) (b : Bool) (r : Registry) → listens id key r ≡ b → Tells id key b r r
already-Tells id key b r e i j = elim (Bool-cases (id == i)) [
  | inl t ↦ elim (Bool-cases (key == j)) [
    | inl s ↦ rw t (
        rw s
          (sym (λ k. listens ((nat_eq.beq_iff id i).0 t k) ((bytes_eq.beq_iff key j).0 s k) r) ∙ e))
    | inr o ↦ rw t (rw o refl)
  ]
  | inr u ↦ rw u refl
]
