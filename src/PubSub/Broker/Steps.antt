-- ===== src/PubSub/Broker/Steps.antt =====
-- src/pubsub/broker.js: one name subscribed or unsubscribed.
use resplite.Base.{
  ℕ, ◌≡◌, refl, ◌∙◌, sym, ap, Bool, true, false, not, ◌&&◌, ◌||◌, Option, none, some, Bytes, nat_eq,
  bytes_eq, length, if◌then◌else◌, ◌==◌, arith, inl, inr, Bool-cases, Option-cases, ==_refl,
  nat_beq_iff,
}
use mathlib.Core.Path.{subst}
use resplite.Base.Maps
use resplite.Base.Maps.{Distinct, get-set, get-delete, set-Distinct, delete-Distinct}
use resplite.PubSub.Broker.{
  Names, Subscribed, Half, has, entry_of, entry_or_new, add_member, subscribe_one, drop_member,
  unsubscribe_one,
}
use resplite.PubSub.Broker.Membership.{has-set, has-delete, length-set, has_empty}
use resplite.PubSub.Broker.Agreement.{
  in_entry, listens, Fits, Tells, Replaced, Fits-Replaced, Tells-Replaced, already-Tells,
}

module _ (id : ℕ) (names : ℕ → Names) where
  pub has_own :
      (h : Half) → Fits id names h → (key : Bytes) → has key h.names ≡ listens id key h.registry
  has_own h f key = rw (==_refl id) at (f.same id key)

  pub own_names-Distinct : (h : Half) → Fits id names h → Distinct h.names
  own_names-Distinct h f = rw (==_refl id) at (f.names_distinct id)

  -- What an entry of the registry is, a new one included.
  record Entered (key : Bytes) (h : Half) (entry : Subscribed) : Type 0 where
    name : entry.name ≡ key
    distinct : Distinct entry.subscribers
    members : (i : ℕ) → has i entry.subscribers ≡ listens i key h.registry

  entry_there :
      (h : Half) (key : Bytes) (entry : Subscribed)
      → Fits id names h
      → Maps.get key h.registry ≡ some entry
      → Entered key h entry
  unfolding listens
  entry_there h key entry f there =
      let (name, d, l) = rw there at (f.entries key) in
      record { name = name; distinct = d; members = λ i. sym (ap (in_entry i) there) }

  entry_of-Entered :
      (h : Half) (key : Bytes) → Fits id names h → Entered key h (entry_of key h.registry)
  unfolding entry_of listens has Maps.get
  entry_of-Entered h key f = elim (Option-cases (Maps.get key h.registry)) [
    | inl absent ↦
        subst (λ o. Entered key h (entry_or_new key o)) (sym absent)
          (record { name = refl; distinct = tt; members = λ i. sym (ap (in_entry i) absent) })
    | inr (entry, there) ↦
        subst (λ o. Entered key h (entry_or_new key o)) (sym there)
          (entry_there h key entry f there)
  ]

  added :
      (h : Half) (key : Bytes)
      → Fits id names h
      → let e = entry_of key h.registry in
        Replaced id key h
          (record { registry = add_member id key h.registry; names = Maps.set key tt h.names })
          (some (record e { subscribers = Maps.set id tt e.subscribers }))
          true
  unfolding add_member
  added h key f =
      let e = entry_of key h.registry in
      let t = entry_of-Entered h key f in
      record {
        distinct =
            set-Distinct key (record e { subscribers = Maps.set id tt e.subscribers }) h.registry
              f.distinct;
        gets =
            λ j. get-set key j (record e { subscribers = Maps.set id tt e.subscribers }) h.registry;
        entry =
            (t.name, set-Distinct id tt e.subscribers t.distinct, length-set id tt e.subscribers);
        members = λ i. has-set id i e.subscribers ∙ or_if (id == i) (t.members i);
        names_distinct = set-Distinct key tt h.names (own_names-Distinct h f);
        has_names = λ j. has-set key j h.names ∙ or_if (key == j) refl;
      }
    where
      or_if : {x y : Bool} (b : Bool) → x ≡ y → (b || x) ≡ (if b then true else y)
      or_if true e = refl
      or_if false e = e

  -- `id` listens to `key` afterwards, and to nothing else that it did not listen to before.
  pub subscribe_one-Fits :
      (h : Half) (key : Bytes)
      → Fits id names h
      → Fits id names (subscribe_one id key h)
        × Tells id key true h.registry (subscribe_one id key h).registry
  unfolding subscribe_one
  subscribe_one-Fits h key f = elim (Bool-cases (has key h.names)) [
    | inl there ↦ rw there (f, already-Tells id key true h.registry (sym (has_own h f key) ∙ there))
    | inr absent ↦
        let h' : Half = record {
          registry = add_member id key h.registry;
          names = Maps.set key tt h.names;
        } in
        let e = entry_of key h.registry in
        let now : Option Subscribed =
          some (record e { subscribers = Maps.set id tt e.subscribers }) in
        let r = added h key f in
        rw absent
          (Fits-Replaced id key names h h' now true f r, Tells-Replaced id key h h' now true r)
  ]

  and_if : {x y : Bool} (b : Bool) → x ≡ y → (not b && x) ≡ (if b then false else y)
  and_if true e = refl
  and_if false e = e

  dropped :
      (h : Half) (key : Bytes) (entry : Subscribed)
      → Fits id names h
      → Maps.get key h.registry ≡ some entry
      → (now : Option Subscribed) × Replaced id key h
          (record {
            registry = drop_member id key entry h.registry;
            names = Maps.delete key h.names;
          })
          now
          false
  unfolding drop_member
  dropped h key entry f there =
      let t = entry_there h key entry f there in
      let left = Maps.delete id entry.subscribers in
      let nd = delete-Distinct key h.names (own_names-Distinct h f) in
      let hn : (j : Bytes)
          → has j (Maps.delete key h.names) ≡ (if key == j then false else has j h.names) =
        λ j. has-delete key j h.names (own_names-Distinct h f) ∙ and_if (key == j) refl in
      let members : (i : ℕ) → has i left ≡ (if id == i then false else listens i key h.registry) =
        λ i. has-delete id i entry.subscribers t.distinct ∙ and_if (id == i) (t.members i) in
      elim (Bool-cases (length left == 0)) [
        | inl none_left ↦ (
          none,
          rw none_left (record {
            distinct = delete-Distinct key h.registry f.distinct;
            gets = λ j. get-delete key j h.registry f.distinct;
            entry = tt;
            members =
                λ i. sym (has_empty i left ((nat_beq_iff (length left) 0).0 none_left)) ∙ members i;
            names_distinct = nd;
            has_names = hn;
          }),
        )
        | inr some_left ↦ (
          some (record entry { subscribers = left }),
          rw some_left (record {
            distinct = set-Distinct key (record entry { subscribers = left }) h.registry f.distinct;
            gets = λ j. get-set key j (record entry { subscribers = left }) h.registry;
            entry = (
              t.name,
              delete-Distinct id entry.subscribers t.distinct,
              ground (arith, some_left),
            );
            members = members;
            names_distinct = nd;
            has_names = hn;
          }),
        )
      ]

  -- What `unsubscribe_one` comes to: it does not throw.
  pub record Unsubscribed (h : Half) (key : Bytes) (out : Option Half) : Type 0 where
    pub half : Half
    pub done : out ≡ some half
    pub fits : Fits id names half
    pub tells : Tells id key false h.registry half.registry

  pub unsubscribe_one-Unsubscribed :
      (h : Half) (key : Bytes) → Fits id names h → Unsubscribed h key (unsubscribe_one id key h)
  unfolding unsubscribe_one listens
  unsubscribe_one-Unsubscribed h key f = elim (Bool-cases (has key h.names)) [
    | inl mine ↦ elim (Option-cases (Maps.get key h.registry)) [
      | inl absent ↦
          let no : listens id key h.registry ≡ false = ap (in_entry id) absent in
          absurd (cc (mine, no, has_own h f key))
      | inr (entry, there) ↦
          let h' : Half = record {
            registry = drop_member id key entry h.registry;
            names = Maps.delete key h.names;
          } in
          let (now, r) = dropped h key entry f there in
          record {
            half = h';
            done = rw mine (rw there refl);
            fits = Fits-Replaced id key names h h' now false f r;
            tells = Tells-Replaced id key h h' now false r;
          }
    ]
    | inr not_mine ↦ record {
      half = h;
      done = rw not_mine refl;
      fits = f;
      tells = already-Tells id key false h.registry (sym (has_own h f key) ∙ not_mine);
    }
  ]
