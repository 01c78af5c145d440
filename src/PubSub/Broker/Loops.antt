-- ===== src/PubSub/Broker/Loops.antt =====
-- src/pubsub/broker.js: the loops over the names of a call.
use resplite.Base.{
  ℕ, ◌+◌, ◌≡◌, refl, ◌∙◌, sym, ap, Bool, true, false, ◌&&◌, Option, none, some, List, [], ◌∷◌,
  Bytes, nat_eq, bytes_eq, length, if◌then◌else◌, ◌==◌, inl, inr, Bool-cases, Option-cases, ==_refl,
}
use mathlib.Core.Path.{subst}
use resplite.Base.Maps
use resplite.Base.Maps.{Distinct}
use resplite.PubSub.Broker.{
  Names, Subscribed, Registry, Half, Push, has, is_there, subscribe_one, subscribe_loop,
  unsubscribe_one, unsubscribe_loop, unsubscribe_all, unsubscribe_half, unsubscribe_unnamed,
  keys_of,
}
use resplite.PubSub.Broker.Agreement.{in_entry, listens, Fits, Tells}
use resplite.PubSub.Broker.Steps.{
  has_own, own_names-Distinct, subscribe_one-Fits, unsubscribe_one-Unsubscribed,
}

unfoldable pub among : Bytes → List Bytes → Bool
among j [] = false
among j (key ∷ keys) = if key == j then true else among j keys

-- A call that names nothing is about all names.
abbrev pub covers : Bytes → List Bytes → Bool
covers j [] = true
covers j (key ∷ keys) = among j (key ∷ keys)

-- `id` listens to the names that `about` picks out if `b`, and all else is as it was.
abbrev pub TellsOf : ℕ → (Bytes → Bool) → Bool → Registry → Registry → Type 0
TellsOf id about b r r' =
    (i : ℕ) (j : Bytes) → listens i j r' ≡ (if id == i && about j then b else listens i j r)

nothing-TellsOf : (id : ℕ) (b : Bool) (r : Registry) → TellsOf id (λ j. false) b r r
nothing-TellsOf id b r i j = elim (Bool-cases (id == i)) [ inl t ↦ rw t refl | inr u ↦ rw u refl ]

cons-TellsOf :
    (id : ℕ) (key : Bytes) (keys : List Bytes) (b : Bool) (r r₁ r₂ : Registry)
    → Tells id key b r r₁
    → TellsOf id (λ j. among j keys) b r₁ r₂
    → TellsOf id (λ j. among j (key ∷ keys)) b r r₂
unfolding among
cons-TellsOf id key keys b r r₁ r₂ one all i j =
    all i j
    ∙ ap (λ x. if id == i && among j keys then b else x) (one i j)
    ∙ merged b (listens i j r) (id == i) (key == j) (among j keys)
  where
    merged :
        (b x : Bool) (t s m : Bool)
        → (if t && m then b else (if t && s then b else x))
          ≡ (if t && (if s then true else m) then b else x)
    merged b x false s m = refl
    merged b x true false m = refl
    merged b x true true false = refl
    merged b x true true true = refl

module _ (id : ℕ) (names : ℕ → Names) where
  pub subscribe_loop-Fits :
      (other : ℕ) (keys : List Bytes) (h : Half)
      → Fits id names h
      → let h' = (subscribe_loop id other keys h).1 in
        Fits id names h' × TellsOf id (λ j. among j keys) true h.registry h'.registry
  unfolding subscribe_loop among
  subscribe_loop-Fits other [] h f = (f, nothing-TellsOf id true h.registry)
  subscribe_loop-Fits other (key ∷ keys) h f =
      let h₁ = subscribe_one id key h in
      let (f₁, one) = subscribe_one-Fits id names h key f in
      let (f₂, all) = subscribe_loop-Fits other keys h₁ f₁ in
      (
        f₂,
        cons-TellsOf id key keys true h.registry h₁.registry
            (subscribe_loop id other keys h₁).1.registry one all,
      )

  -- What the loops of `unsubscribe` come to: none throws.
  pub record Left (h : Half) (about : Bytes → Bool) (out : Option (List Push × Half)) : Type 0 where
    pub pushes : List Push
    pub half : Half
    pub done : out ≡ some (pushes, half)
    pub fits : Fits id names half
    pub tells : TellsOf id about false h.registry half.registry

  unsubscribe_loop-Left :
      (other : ℕ) (keys : List Bytes) (h : Half)
      → Fits id names h
      → Left h (λ j. among j keys) (unsubscribe_loop id other keys h)
  unfolding unsubscribe_loop among
  unsubscribe_loop-Left other [] h f = record {
    pushes = [];
    half = h;
    done = refl;
    fits = f;
    tells = nothing-TellsOf id false h.registry;
  }
  unsubscribe_loop-Left other (key ∷ keys) h f =
      let u = unsubscribe_one-Unsubscribed id names h key f in
      let r = unsubscribe_loop-Left other keys u.half u.fits in
      record {
        pushes = record { name = some key; count = length u.half.names + other } ∷ r.pushes;
        half = r.half;
        done = rw (u.done, unsubscribe_loop) (rw r.done refl);
        fits = r.fits;
        tells =
            cons-TellsOf id key keys false h.registry u.half.registry r.half.registry u.tells
              r.tells;
      }

  -- The names that are left are ones that `id` listens to.
  abbrev AreHeard : Names → Half → Type 0
  AreHeard ns h = (j : Bytes) → has j ns ≡ true → listens id j h.registry ≡ true

  after_first :
      (key : Bytes) (ns : Names) (h h' : Half)
      → Distinct ((key, tt) ∷ ns)
      → AreHeard ((key, tt) ∷ ns) h
      → Tells id key false h.registry h'.registry
      → AreHeard ns h'
  unfolding has Maps.get
  after_first key ns h h' d heard t j there = elim (Bool-cases (key == j)) [
    | inl s ↦
        let e : key ≡ j = (bytes_eq.beq_iff key j).0 s in
        absurd (cc (there, ap is_there d.0, ap (λ k. is_there (Maps.get k ns)) e))
    | inr o ↦ t id j ∙ rw (==_refl id) (rw o (heard j (rw o there)))
  ]

  heard_first : (key : Bytes) (u : Unit {0}) (ns : Names) → has key ((key, u) ∷ ns) ≡ true
  unfolding has Maps.get
  heard_first key u ns = rw (==_refl key) refl

  unsubscribe_all-cons :
      (other : ℕ) (key : Bytes) (keys : List Bytes) (entry : Subscribed) (h h₁ h₂ : Half)
      (pushes : List Push)
      → Maps.get key h.registry ≡ some entry
      → unsubscribe_one id entry.name h ≡ some h₁
      → unsubscribe_all id other keys h₁ ≡ some (pushes, h₂)
      → unsubscribe_all id other (key ∷ keys) h
        ≡ some (record { name = some entry.name; count = length h₁.names + other } ∷ pushes, h₂)
  unfolding unsubscribe_all
  unsubscribe_all-cons other key keys entry h h₁ h₂ pushes there one all =
      rw (there, unsubscribe_all) (rw one (rw all refl))

  unsubscribe_all-Left :
      (other : ℕ) (ns : Names) (h : Half)
      → Fits id names h
      → Distinct ns
      → AreHeard ns h
      → Left h (λ j. among j (keys_of ns)) (unsubscribe_all id other (keys_of ns) h)
  unfolding unsubscribe_all among
  unsubscribe_all-Left other [] h f d heard = record {
    pushes = [];
    half = h;
    done = refl;
    fits = f;
    tells = nothing-TellsOf id false h.registry;
  }
  unsubscribe_all-Left other ((key, v) ∷ ns) h f d heard =
      elim (Option-cases (Maps.get key h.registry)) [
        | inl absent ↦
            let no : listens id key h.registry ≡ false =
              unfold listens in ap (in_entry id) absent in
            absurd (cc (no, heard key (heard_first key v ns)))
        | inr (entry, there) ↦
            let named : entry.name ≡ key = (rw there at (f.entries key)).0 in
            let u = unsubscribe_one-Unsubscribed id names h key f in
            let r =
              unsubscribe_all-Left other ns u.half u.fits d.1
                (after_first key ns h u.half d heard u.tells) in
            record {
              pushes =
                  record { name = some entry.name; count = length u.half.names + other } ∷ r.pushes;
              half = r.half;
              done =
                  unsubscribe_all-cons other key (keys_of ns) entry h u.half r.half r.pushes there
                    (ap (λ k. unsubscribe_one id k h) named ∙ u.done) r.done;
              fits = r.fits;
              tells =
                  cons-TellsOf id key (keys_of ns) false h.registry u.half.registry r.half.registry
                    u.tells r.tells;
            }
      ]

  among-keys_of : (j : Bytes) (ns : Names) → among j (keys_of ns) ≡ has j ns
  unfolding among has Maps.get
  among-keys_of j [] = refl
  among-keys_of j ((key, _) ∷ ns) = elim (Bool-cases (key == j)) [
    | inl s ↦ rw s refl
    | inr o ↦ rw o (among-keys_of j ns)
  ]

  -- To take all that `id` listens to is to take everything of `id`.
  pub take_every :
      (i : ℕ) (j : Bytes) (b : Bool) (r : Registry)
      → b ≡ listens id j r
      → (if id == i && b then false else listens i j r)
        ≡ (if id == i && true then false else listens i j r)
  take_every i j b r e = elim (Bool-cases (id == i)) [
    | inl t ↦
        let same : id ≡ i = (nat_eq.beq_iff id i).0 t in
        rw t (rw (e ∙ ap (λ k. listens k j r) same) (none_left (listens i j r)))
    | inr u ↦ rw u refl
  ]
    where
      none_left : (b : Bool) → (if b then false else b) ≡ false
      none_left true = refl
      none_left false = refl

  -- All names of a connection.
  pub unsubscribe_every-Left :
      (other : ℕ) (h : Half)
      → Fits id names h
      → Left h (λ j. true) (unsubscribe_all id other (keys_of h.names) h)
  unsubscribe_every-Left other h f =
      let own : (j : Bytes) → has j h.names ≡ listens id j h.registry = has_own id names h f in
      let r =
        unsubscribe_all-Left other h.names h f (own_names-Distinct id names h f)
          (λ j there. sym (own j) ∙ there) in
      record {
        pushes = r.pushes;
        half = r.half;
        done = r.done;
        fits = r.fits;
        tells = λ i j.
            r.tells i j
            ∙ take_every i j (among j (keys_of h.names)) h.registry
                (among-keys_of j h.names ∙ own j);
      }

  pub unsubscribe_half-Left :
      (other : ℕ) (keys : List Bytes) (h : Half)
      → Fits id names h
      → Left h (λ j. covers j keys) (unsubscribe_half id other keys h)
  unfolding unsubscribe_half has Maps.get
  unsubscribe_half-Left other (key ∷ keys) h f = unsubscribe_loop-Left other (key ∷ keys) h f
  unsubscribe_half-Left other [] h f = unnamed h.names refl
    where
      unnamed : (ns : Names) → h.names ≡ ns → Left h (λ j. true) (unsubscribe_unnamed id other ns h)
      unnamed [] e = record {
        pushes = record { name = none; count = other } ∷ [];
        half = h;
        done = refl;
        fits = f;
        tells = λ i j.
            nothing-TellsOf id false h.registry i j
            ∙ take_every i j false h.registry (ap (has j) (sym e) ∙ has_own id names h f j);
      }
      unnamed (n ∷ ns) e =
          subst (λ x. Left h (λ j. true) (unsubscribe_all id other (keys_of x) h)) e
            (unsubscribe_every-Left other h f)
