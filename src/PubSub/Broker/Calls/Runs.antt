-- ===== src/PubSub/Broker/Calls/Runs.antt =====
-- src/pubsub/broker.js: no run of calls throws, and what it comes to.
use resplite.Base.{
  ℕ, ◌≡◌, refl, ◌∙◌, sym, ap, Bool, true, false, some, List, [], ◌∷◌, Bytes, nat_eq, bytes_eq,
  length, ◌==◌, inl, inr, Bool-cases, Option-cases, nat_beq_iff, ==_refl,
}
use mathlib.Core.Path.{fun_ext}
use resplite.Base.Maps
use resplite.PubSub.Broker.{
  Broker, has, state_for, state_or_new, channels_of, patterns_of, with_channels, with_patterns,
  remove_empty_state, subscription_count, settle, unlist, leave_patterns, unsubscribed,
  punsubscribed, subscribe_loop, subscribe, psubscribe, unsubscribe, punsubscribe, disconnect,
  disconnect_state,
}
use resplite.PubSub.Broker.Agreement.{listens}
use resplite.PubSub.Broker.Loops.{
  subscribe_loop-Fits, unsubscribe_half-Left, unsubscribe_every-Left,
}
use resplite.PubSub.Broker.Consistent.{
  IsConsistent, channel_names, pattern_names, channels_of-Fits, patterns_of-Fits,
  with_channels-IsConsistent, with_patterns-IsConsistent, forget_state-IsConsistent,
  remove_empty_state-IsConsistent,
}
use resplite.PubSub.Broker.Calls.{
  Call, subscribe_call, psubscribe_call, unsubscribe_call, punsubscribe_call, disconnect_call,
  second, step, run, Audience, audience, told, spec, run_spec, Done,
}

ext2 : {f g : ℕ → Bytes → Bool} → ((i : ℕ) (j : Bytes) → f i j ≡ g i j) → f ≡ g
ext2 e = fun_ext (λ i. fun_ext (e i))

audience_of :
    {f g f' g' : ℕ → Bytes → Bool}
    → f ≡ f'
    → g ≡ g'
    → ◌≡◌ {A = Audience}
        (record { channels = f; patterns = g })
        (record { channels = f'; patterns = g' })
audience_of e d = λ k. record { channels = e k; patterns = d k }

remove_empty_state-audience :
    (id : ℕ) (b : Broker) → audience (remove_empty_state id b) ≡ audience b
unfolding remove_empty_state
remove_empty_state-audience id b = elim (Bool-cases (subscription_count (state_for id b) == 0)) [
  | inl empty ↦ rw empty refl
  | inr some_left ↦ rw some_left refl
]

unsubscribe-Done :
    (id : ℕ) (keys : List Bytes) (b : Broker)
    → IsConsistent b
    → Done (spec (unsubscribe_call id keys) (audience b)) (second (unsubscribe id keys b))
unfolding spec unsubscribe with_channels channels_of
unsubscribe-Done id keys b c =
    let r =
      unsubscribe_half-Left id (channel_names b) (length (patterns_of id b).names) keys
        (channels_of id b) (channels_of-Fits id b c) in
    let b₁ = with_channels id r.half b in
    let good = with_channels-IsConsistent id r.half b c r.fits in
    record {
      broker = remove_empty_state id b₁;
      done = ap (λ o. second (settle id unsubscribed (λ h. with_channels id h b) o)) r.done;
      good = remove_empty_state-IsConsistent id b₁ good;
      heard = remove_empty_state-audience id b₁ ∙ audience_of (ext2 r.tells) refl;
    }

punsubscribe-Done :
    (id : ℕ) (keys : List Bytes) (b : Broker)
    → IsConsistent b
    → Done (spec (punsubscribe_call id keys) (audience b)) (second (punsubscribe id keys b))
unfolding spec punsubscribe with_patterns patterns_of
punsubscribe-Done id keys b c =
    let r =
      unsubscribe_half-Left id (pattern_names b) (length (channels_of id b).names) keys
        (patterns_of id b) (patterns_of-Fits id b c) in
    let b₁ = with_patterns id r.half b in
    let good = with_patterns-IsConsistent id r.half b c r.fits in
    record {
      broker = remove_empty_state id b₁;
      done = ap (λ o. second (settle id punsubscribed (λ h. with_patterns id h b) o)) r.done;
      good = remove_empty_state-IsConsistent id b₁ good;
      heard = remove_empty_state-audience id b₁ ∙ audience_of refl (ext2 r.tells);
    }

subscribe-Done :
    (id : ℕ) (keys : List Bytes) (b : Broker)
    → IsConsistent b
    → Done (spec (subscribe_call id keys) (audience b)) (some (subscribe id keys b).1)
unfolding spec subscribe with_channels channels_of
subscribe-Done id keys b c =
    let r =
      subscribe_loop-Fits id (channel_names b) (length (patterns_of id b).names) keys
        (channels_of id b) (channels_of-Fits id b c) in
    record {
      broker = (subscribe id keys b).1;
      done = refl;
      good =
          with_channels-IsConsistent id
            (subscribe_loop id (length (patterns_of id b).names) keys (channels_of id b)).1 b c r.0;
      heard = audience_of (ext2 r.1) refl;
    }

psubscribe-Done :
    (id : ℕ) (keys : List Bytes) (b : Broker)
    → IsConsistent b
    → Done (spec (psubscribe_call id keys) (audience b)) (some (psubscribe id keys b).1)
unfolding spec psubscribe with_patterns patterns_of
psubscribe-Done id keys b c =
    let r =
      subscribe_loop-Fits id (pattern_names b) (length (channels_of id b).names) keys
        (patterns_of id b) (patterns_of-Fits id b c) in
    record {
      broker = (psubscribe id keys b).1;
      done = refl;
      good =
          with_patterns-IsConsistent id
            (subscribe_loop id (length (channels_of id b).names) keys (patterns_of id b)).1 b c r.0;
      heard = audience_of refl (ext2 r.1);
    }

disconnect_state-Done :
    (id : ℕ) (b : Broker)
    → IsConsistent b
    → Done (spec (disconnect_call id) (audience b)) (disconnect_state id b)
unfolding spec disconnect_state with_channels with_patterns channels_of patterns_of
disconnect_state-Done id b c =
    let r =
      unsubscribe_every-Left id (channel_names b) 0 (channels_of id b) (channels_of-Fits id b c) in
    let b₁ = with_channels id r.half b in
    let c₁ = with_channels-IsConsistent id r.half b c r.fits in
    let q =
      unsubscribe_every-Left id (pattern_names b₁) 0 (patterns_of id b₁)
        (patterns_of-Fits id b₁ c₁) in
    let b₂ = with_patterns id q.half b₁ in
    let c₂ = with_patterns-IsConsistent id q.half b₁ c₁ q.fits in
    record {
      broker = record b₂ { by_connection = Maps.delete id b₂.by_connection };
      done = ap (leave_patterns id b) r.done ∙ ap (unlist id b₁) q.done;
      good =
          forget_state-IsConsistent id b₂ c₂ (λ j. r.tells id j ∙ rw (==_refl id) refl)
            (λ j. q.tells id j ∙ rw (==_refl id) refl);
      heard = audience_of (ext2 r.tells) (ext2 q.tells);
    }

-- A connection that the broker does not know listens to nothing.
unknown_silent :
    (id : ℕ) (f : ℕ → Bytes → Bool)
    → ((j : Bytes) → f id j ≡ false)
    → f ≡ told id (λ j. true) false f
unknown_silent id f silent = ext2 (λ i j. elim (Bool-cases (id == i)) [
  | inl t ↦ rw t (ap (λ k. f k j) (sym ((nat_beq_iff id i).0 t)) ∙ silent j)
  | inr u ↦ rw u refl
])

disconnect-Done :
    (id : ℕ) (b : Broker)
    → IsConsistent b
    → Done (spec (disconnect_call id) (audience b)) (disconnect id b)
unfolding disconnect
disconnect-Done id b c = elim (Option-cases (Maps.get id b.by_connection)) [
  | inr (state, there) ↦ rw (there, disconnect) (disconnect_state-Done id b c)
  | inl absent ↦
      let no_channels : (j : Bytes) → listens id j b.channels ≡ false =
        unfold state_for has Maps.get in
        λ j. sym (c.channels.same id j) ∙ ap (λ o. has j (state_or_new o).channels) absent in
      let no_patterns : (j : Bytes) → listens id j b.patterns ≡ false =
        unfold state_for has Maps.get in
        λ j. sym (c.patterns.same id j) ∙ ap (λ o. has j (state_or_new o).patterns) absent in
      rw (absent, disconnect)
        (record {
          broker = b;
          done = refl;
          good = c;
          heard =
              unfold spec in
              audience_of (unknown_silent id (λ i j. listens i j b.channels) no_channels)
                (unknown_silent id (λ i j. listens i j b.patterns) no_patterns);
        })
]

step-Done :
    (call : Call) (b : Broker) → IsConsistent b → Done (spec call (audience b)) (step call b)
unfolding step
step-Done (subscribe_call id keys) b c = subscribe-Done id keys b c
step-Done (psubscribe_call id keys) b c = psubscribe-Done id keys b c
step-Done (unsubscribe_call id keys) b c = unsubscribe-Done id keys b c
step-Done (punsubscribe_call id keys) b c = punsubscribe-Done id keys b c
step-Done (disconnect_call id) b c = disconnect-Done id b c

-- From a consistent broker, no run of calls throws the exceptions of a registry that has gone wrong: it
-- ends in a consistent broker, and who listens to what is what the calls say, each taken alone.
pub run-Done :
    (calls : List Call) (b : Broker)
    → IsConsistent b
    → Done (run_spec calls (audience b)) (run calls b)
unfolding run run_spec
run-Done [] b c = record { broker = b; done = refl; good = c; heard = refl }
run-Done (call ∷ calls) b c =
    let s = step-Done call b c in
    let r = run-Done calls s.broker s.good in
    record {
      broker = r.broker;
      done = rw (s.done, run) r.done;
      good = r.good;
      heard = r.heard ∙ ap (run_spec calls) s.heard;
    }
