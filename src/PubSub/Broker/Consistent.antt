-- ===== src/PubSub/Broker/Consistent.antt =====
-- src/pubsub/broker.js: the registries and the states of the connections say the same.
use resplite.Base.{
  ℕ, ◌≡◌, refl, ◌∙◌, sym, ap, false, [], Bytes, nat_eq, bytes_eq, ◌==◌, arith, inl, inr, Bool-cases,
  nat_beq_iff,
}
use mathlib.Core.Path.{subst, fun_ext}
use resplite.Base.Maps
use resplite.Base.Maps.{Distinct, get-set, get-delete, set-Distinct, delete-Distinct}
use resplite.PubSub.Broker.{
  Names, Registry, Listener, Broker, Half, has, create_broker, state_for, state_or_new, no_names,
  channels_of, patterns_of, with_channels, with_patterns, remove_empty_state, subscription_count,
}
use resplite.PubSub.Broker.Membership.{has_empty}
use resplite.PubSub.Broker.Agreement.{listens, Agrees, put, Fits}

abbrev pub channel_names : Broker → ℕ → Names
channel_names b i = (state_for i b).channels

abbrev pub pattern_names : Broker → ℕ → Names
pattern_names b i = (state_for i b).patterns

pub record IsConsistent (b : Broker) : Type 0 where
  pub channels : Agrees b.channels (channel_names b)
  pub patterns : Agrees b.patterns (pattern_names b)
  pub distinct : Distinct b.by_connection

pub create_broker-IsConsistent : IsConsistent create_broker
unfolding state_for listens has Maps.get
create_broker-IsConsistent = record {
  channels = record {
    distinct = tt;
    entries = λ k. tt;
    names_distinct = λ i. tt;
    same = λ i k. refl;
  };
  patterns = record {
    distinct = tt;
    entries = λ k. tt;
    names_distinct = λ i. tt;
    same = λ i k. refl;
  };
  distinct = tt;
}

put_self : {A : Type 0} (id : ℕ) (f : ℕ → A) (j : ℕ) → put id (f id) f j ≡ f j
put_self id f j = elim (Bool-cases (id == j)) [
  | inl t ↦ rw t (ap f ((nat_beq_iff id j).0 t))
  | inr u ↦ rw u refl
]

ap_put :
    {A B : Type 0} (g : A → B) (id : ℕ) (a : A) (f : ℕ → A) (j : ℕ)
    → g (put id a f j) ≡ put id (g a) (λ i. g (f i)) j
ap_put g id a f j = elim (Bool-cases (id == j)) [ inl t ↦ rw t refl | inr u ↦ rw u refl ]

pub channels_of-Fits :
    (id : ℕ) (b : Broker) → IsConsistent b → Fits id (channel_names b) (channels_of id b)
unfolding channels_of
channels_of-Fits id b c =
    subst (Agrees b.channels) (sym (fun_ext (put_self id (channel_names b)))) c.channels

pub patterns_of-Fits :
    (id : ℕ) (b : Broker) → IsConsistent b → Fits id (pattern_names b) (patterns_of id b)
unfolding patterns_of
patterns_of-Fits id b c =
    subst (Agrees b.patterns) (sym (fun_ext (put_self id (pattern_names b)))) c.patterns

set_state :
    (id j : ℕ) (state : Listener) (b : Broker)
    → state_for j (record b { by_connection = Maps.set id state b.by_connection })
      ≡ put id state (λ i. state_for i b) j
unfolding state_for
set_state id j state b = elim (Bool-cases (id == j)) [
  | inl t ↦ ap state_or_new (get-set id j state b.by_connection) ∙ rw t refl
  | inr u ↦ ap state_or_new (get-set id j state b.by_connection) ∙ rw u refl
]

pub with_channels-IsConsistent :
    (id : ℕ) (h : Half) (b : Broker)
    → IsConsistent b
    → Fits id (channel_names b) h
    → IsConsistent (with_channels id h b)
unfolding with_channels state_for
with_channels-IsConsistent id h b c f =
    let state : Listener = record { channels = h.names; patterns = (state_for id b).patterns } in
    let names : (j : ℕ)
        → channel_names (with_channels id h b) j ≡ put id h.names (channel_names b) j =
      λ j.
        ap (λ s. s.channels) (set_state id j state b)
        ∙ ap_put (λ s. s.channels) id state (λ i. state_for i b) j in
    let others : (j : ℕ) → pattern_names (with_channels id h b) j ≡ pattern_names b j = λ j.
      ap (λ s. s.patterns) (set_state id j state b)
      ∙ ap_put (λ s. s.patterns) id state (λ i. state_for i b) j
      ∙ put_self id (pattern_names b) j in
    record {
      channels = subst (Agrees h.registry) (sym (fun_ext names)) f;
      patterns = subst (Agrees b.patterns) (sym (fun_ext others)) c.patterns;
      distinct = set-Distinct id state b.by_connection c.distinct;
    }

pub with_patterns-IsConsistent :
    (id : ℕ) (h : Half) (b : Broker)
    → IsConsistent b
    → Fits id (pattern_names b) h
    → IsConsistent (with_patterns id h b)
unfolding with_patterns state_for
with_patterns-IsConsistent id h b c f =
    let state : Listener = record { channels = (state_for id b).channels; patterns = h.names } in
    let names : (j : ℕ)
        → pattern_names (with_patterns id h b) j ≡ put id h.names (pattern_names b) j =
      λ j.
        ap (λ s. s.patterns) (set_state id j state b)
        ∙ ap_put (λ s. s.patterns) id state (λ i. state_for i b) j in
    let others : (j : ℕ) → channel_names (with_patterns id h b) j ≡ channel_names b j = λ j.
      ap (λ s. s.channels) (set_state id j state b)
      ∙ ap_put (λ s. s.channels) id state (λ i. state_for i b) j
      ∙ put_self id (channel_names b) j in
    record {
      channels = subst (Agrees b.channels) (sym (fun_ext others)) c.channels;
      patterns = subst (Agrees h.registry) (sym (fun_ext names)) f;
      distinct = set-Distinct id state b.by_connection c.distinct;
    }

-- A connection that listens to nothing may as well have no names.
forget_names :
    (id : ℕ) (registry : Registry) (names : ℕ → Names)
    → Agrees registry names
    → ((j : Bytes) → listens id j registry ≡ false)
    → Agrees registry (put id [] names)
unfolding has Maps.get
forget_names id registry names a silent = record {
  distinct = a.distinct;
  entries = a.entries;
  names_distinct =
      λ i. elim (Bool-cases (id == i)) [ inl t ↦ rw t tt | inr u ↦ rw u (a.names_distinct i) ];
  same = λ i j. elim (Bool-cases (id == i)) [
    | inl t ↦ rw t (sym (silent j) ∙ ap (λ k. listens k j registry) ((nat_beq_iff id i).0 t))
    | inr u ↦ rw u (a.same i j)
  ];
}

delete_state :
    (id j : ℕ) (b : Broker)
    → Distinct b.by_connection
    → state_for j (record b { by_connection = Maps.delete id b.by_connection })
      ≡ put id no_names (λ i. state_for i b) j
unfolding state_for
delete_state id j b d = elim (Bool-cases (id == j)) [
  | inl t ↦ ap state_or_new (get-delete id j b.by_connection d) ∙ rw t refl
  | inr u ↦ ap state_or_new (get-delete id j b.by_connection d) ∙ rw u refl
]

-- The state of a connection that listens to nothing can go.
pub forget_state-IsConsistent :
    (id : ℕ) (b : Broker)
    → IsConsistent b
    → ((j : Bytes) → listens id j b.channels ≡ false)
    → ((j : Bytes) → listens id j b.patterns ≡ false)
    → IsConsistent (record b { by_connection = Maps.delete id b.by_connection })
forget_state-IsConsistent id b c no_channels no_patterns =
    let b' : Broker = record b { by_connection = Maps.delete id b.by_connection } in
    let channels : (j : ℕ) → channel_names b' j ≡ put id [] (channel_names b) j = λ j.
      ap (λ s. s.channels) (delete_state id j b c.distinct)
      ∙ ap_put (λ s. s.channels) id no_names (λ i. state_for i b) j in
    let patterns : (j : ℕ) → pattern_names b' j ≡ put id [] (pattern_names b) j = λ j.
      ap (λ s. s.patterns) (delete_state id j b c.distinct)
      ∙ ap_put (λ s. s.patterns) id no_names (λ i. state_for i b) j in
    record {
      channels =
          subst (Agrees b.channels) (sym (fun_ext channels))
            (forget_names id b.channels (channel_names b) c.channels no_channels);
      patterns =
          subst (Agrees b.patterns) (sym (fun_ext patterns))
            (forget_names id b.patterns (pattern_names b) c.patterns no_patterns);
      distinct = delete-Distinct id b.by_connection c.distinct;
    }

-- A connection without names listens to nothing.
pub remove_empty_state-IsConsistent :
    (id : ℕ) (b : Broker) → IsConsistent b → IsConsistent (remove_empty_state id b)
unfolding remove_empty_state subscription_count
remove_empty_state-IsConsistent id b c =
    elim (Bool-cases (subscription_count (state_for id b) == 0)) [
      | inl empty ↦
          let none_left = (nat_beq_iff (subscription_count (state_for id b)) 0).0 empty in
          rw empty (
            forget_state-IsConsistent id b c
              (λ j.
                sym (c.channels.same id j)
                ∙ has_empty j (channel_names b id) (omega (arith, none_left)))
              (λ j.
                sym (c.patterns.same id j)
                ∙ has_empty j (pattern_names b id) (omega (arith, none_left))))
      | inr some_left ↦ rw some_left c
    ]
