-- ===== src/Storage/Lists/Unique.antt =====
-- src/storage/sqlite/lists.js: what the pushes keep of redis_keys.
use resplite.Base.{
  ◌≡◌, refl, ◌∙◌, sym, Option, none, some, List, [], ◌∷◌, Bytes, length, bytes_eq, inl, inr,
  Option-cases, branches, ==_refl, false, ◌+◌,
}
use mathlib.Core.Path.{subst}
use mathlib.Core.List.{reverse}
use resplite.Base.Int.{ℤ, pos, ◌+ℤ◌, ◌-ℤ◌}
use resplite.Base.Maps
use resplite.Base.Maps.{Distinct}
use resplite.Storage.Keys
use resplite.Storage.Keys.{no_options, Options}
use resplite.Storage.{Db, KeyMeta, ListMeta, Result, ok, err, list, ◌>>=◌, run_in_transaction}
use resplite.Storage.Lists.{
  get_meta, is_list, ensure_list_key, insert_item, insert_items, insert_meta, update_meta,
  finish_push, place_front, place_back, push_body, lpush, rpush,
}
use resplite.Storage.Lists.Statements.{insert_row}

update-Distinct :
    (key : Bytes) (f : KeyMeta → KeyMeta) (db : Db)
    → Distinct db.keys
    → Distinct (Keys.update key f db).keys
unfolding Keys.update
update-Distinct key f db d = elim (Option-cases (Keys.get key db)) [
  | inl out ↦ rw (out, Keys.update) d
  | inr (row, there) ↦ rw (there, Keys.update) (Maps.set-Distinct key (f row) db.keys d)
]

pub bump-Distinct :
    (key : Bytes) (now : ℤ) (db : Db)
    → Distinct db.keys
    → Distinct (Keys.bump_version key now db).keys
unfolding Keys.bump_version
bump-Distinct key now db d = update-Distinct key _ db d

abbrev Table : Type 0
Table = List (Bytes × KeyMeta)

-- A result whose redis_keys, if it has any, is as `P` says.
abbrev Within : (Table → Type 0) → Result Db → Type 0
Within P (ok db) = P db.keys
Within P (err e) = Unit

-- A result whose tables, if it has any, have the keys that there were.
abbrev SameKeys : Db → Result Db → Type 0
SameKeys db (ok db') = db'.keys ≡ db.keys
SameKeys db (err e) = Unit

>>=-SameKeys :
    (db : Db) (r : Result Db) (next : Db → Result Db)
    → SameKeys db r
    → ((d : Db) → SameKeys d (next d))
    → SameKeys db (r >>= next)
>>=-SameKeys db (err e) next h k = tt
>>=-SameKeys db (ok d) next h k = go (next d) (k d)
  where
    go : (r : Result Db) → SameKeys d r → SameKeys db r
    go (ok d') e = e ∙ h
    go (err e) _ = tt

insert_item-SameKeys :
    (key : Bytes) (seq : ℤ) (v : Bytes) (db : Db) → SameKeys db (insert_item key seq v db)
unfolding insert_item
insert_item-SameKeys key seq v db = elim (Option-cases (Keys.get key db)) [
  | inl out ↦ rw (out, insert_item) tt
  | inr (row, there) ↦ rw (there, insert_item) (go (insert_row seq v (db.list_items key)))
]
  where
    go :
        (r : Result (List (ℤ × Bytes)))
        → SameKeys db
            (r >>= λ rows. ok (record db { list_items = Keys.at_key key rows db.list_items }))
    go (ok rows) = refl
    go (err e) = tt

insert_items-SameKeys :
    (key : Bytes) (start : ℤ) (vs : List Bytes) (db : Db)
    → SameKeys db (insert_items key start vs db)
unfolding insert_items
insert_items-SameKeys key start [] db = refl
insert_items-SameKeys key start (v ∷ vs) db =
    >>=-SameKeys db (insert_item key start v db) (insert_items key (start +ℤ pos 1) vs)
      (insert_item-SameKeys key start v db) (insert_items-SameKeys key (start +ℤ pos 1) vs)

insert_meta-SameKeys : (key : Bytes) (m : ListMeta) (db : Db) → SameKeys db (insert_meta key m db)
unfolding insert_meta
insert_meta-SameKeys key m db = elim (Option-cases (db.list_meta key)) [
  | inr (old, there) ↦ rw (there, insert_meta) tt
  | inl out ↦
      rw (out, insert_meta)
        (elim (Option-cases (Keys.get key db)) [
          | inl no_row ↦ simp (no_row, insert_meta) tt
          | inr (row, there) ↦ simp (there, insert_meta) refl
        ])
]

pub update_meta-keys :
    (key : Bytes) (m : ListMeta) (db : Db) → (update_meta key m db).keys ≡ db.keys
unfolding update_meta
update_meta-keys key m db = elim (Option-cases (db.list_meta key)) [
  | inl out ↦ rw (out, update_meta) refl
  | inr (old, there) ↦ rw (there, update_meta) refl
]

place_front-SameKeys :
    (key : Bytes) (vs : List Bytes) (o : Option ListMeta) (db : Db)
    → SameKeys db (place_front key vs o db)
unfolding place_front
place_front-SameKeys key vs none db =
    >>=-SameKeys db _ _ (insert_items-SameKeys key (pos 0) (reverse vs) db)
      (insert_meta-SameKeys key _)
place_front-SameKeys key vs (some m) db =
    >>=-SameKeys db _ _ (insert_items-SameKeys key (m.head_seq -ℤ pos (length vs)) (reverse vs) db)
      (update_meta-keys key _)

place_back-SameKeys :
    (key : Bytes) (vs : List Bytes) (o : Option ListMeta) (db : Db)
    → SameKeys db (place_back key vs o db)
unfolding place_back
place_back-SameKeys key vs none db =
    >>=-SameKeys db _ _ (insert_items-SameKeys key (pos 0) vs db) (insert_meta-SameKeys key _)
place_back-SameKeys key vs (some m) db =
    >>=-SameKeys db _ _ (insert_items-SameKeys key (m.tail_seq +ℤ pos 1) vs db)
      (update_meta-keys key _)

module _ (key : Bytes) (now : ℤ) where
  list_row : KeyMeta
  list_row = record {
    kind = list;
    expires_at = none;
    set_count = none;
    hash_count = none;
    zset_count = none;
    version = 1;
    updated_at = now;
  }

  -- What each push keeps of redis_keys, if it is kept by the row of a new list and by a new version.
  module _ (P : Table → Type 0)
      (of_new : (db : Db) → Keys.get key db ≡ none → P db.keys → P (Maps.set key list_row db.keys))
      (of_bump : (db : Db) → P db.keys → P (Keys.bump_version key now db).keys) where
    ensure_list_key-Within : (db : Db) → P db.keys → Within P (ensure_list_key key now db)
    unfolding ensure_list_key Keys.set_key Keys.existing_of Keys.insert Keys.new_row list_row
    ensure_list_key-Within db p = elim (Option-cases (Keys.get key db)) [
      | inr (row, there) ↦
          rw (there, ensure_list_key)
            (branches (Within P) (is_list row.kind) (λ is. p) (λ other. tt))
      | inl out ↦
          rw (out, ensure_list_key) (simp (out, Keys.set_key, Keys.insert) (of_new db out p))
    ]

    push_body-keeps :
        (place : Option ListMeta → Db → Result Db) (db : Db)
        → ((o : Option ListMeta) (d : Db) → SameKeys d (place o d))
        → P db.keys
        → P (run_in_transaction db (push_body place key now)).1.keys
    unfolding run_in_transaction push_body finish_push
    push_body-keeps place db same d =
        ensured (ensure_list_key key now db) (ensure_list_key-Within db d)
      where
        placed :
            (db₁ : Db) (r : Result Db)
            → P db₁.keys
            → SameKeys db₁ r
            → P (run_in_transaction db (λ _. r >>= finish_push key now)).1.keys
        placed db₁ (ok db₂) d₁ e = of_bump db₂ (subst P (sym e) d₁)
        placed db₁ (err e) d₁ _ = d

        ensured :
            (r : Result Db)
            → Within P r
            → P
                (run_in_transaction db
                  (λ _. r >>= λ db₁. place (get_meta key db₁) db₁ >>= finish_push key now)).1.keys
        ensured (ok db₁) d₁ =
            placed db₁ (place (get_meta key db₁) db₁) d₁ (same (get_meta key db₁) db₁)
        ensured (err e) _ = d

    lpush-keeps : (vs : List Bytes) (db : Db) → P db.keys → P (lpush key vs now db).1.keys
    unfolding lpush
    lpush-keeps [] db d = d
    lpush-keeps (v ∷ vs) db d =
        push_body-keeps (place_front key (v ∷ vs)) db (place_front-SameKeys key (v ∷ vs)) d

    rpush-keeps : (vs : List Bytes) (db : Db) → P db.keys → P (rpush key vs now db).1.keys
    unfolding rpush
    rpush-keeps [] db d = d
    rpush-keeps (v ∷ vs) db d =
        push_body-keeps (place_back key (v ∷ vs)) db (place_back-SameKeys key (v ∷ vs)) d

  Once : Table → Type 0
  Once keys = Distinct keys

  pub lpush-Distinct :
      (vs : List Bytes) (db : Db) → Distinct db.keys → Distinct (lpush key vs now db).1.keys
  unfolding Once
  lpush-Distinct vs db d =
      lpush-keeps Once (λ e out p. Maps.set-Distinct key list_row e.keys p) (bump-Distinct key now)
        vs db d

  pub rpush-Distinct :
      (vs : List Bytes) (db : Db) → Distinct db.keys → Distinct (rpush key vs now db).1.keys
  unfolding Once
  rpush-Distinct vs db d =
      rpush-keeps Once (λ e out p. Maps.set-Distinct key list_row e.keys p) (bump-Distinct key now)
        vs db d

  -- If the key is there, its time is not over.
  abbrev pub Live : Table → Type 0
  Live keys = (row : KeyMeta) → Maps.get key keys ≡ some row → Keys.is_expired now row ≡ false

  new-Live :
      (db : Db) → Keys.get key db ≡ none → Live db.keys → Live (Maps.set key list_row db.keys)
  unfolding Keys.is_expired list_row
  new-Live db out p row there =
      let h : some list_row ≡ some row =
        rw (==_refl key) at (sym (Maps.get-set key key list_row db.keys) ∙ there) in
      let same : list_row ≡ row = cc in subst (λ r. Keys.is_expired now r ≡ false) same refl

  bump-Live : (db : Db) → Live db.keys → Live (Keys.bump_version key now db).keys
  unfolding Keys.bump_version Keys.update Keys.get Keys.is_expired
  bump-Live db p = elim (Option-cases (Keys.get key db)) [
    | inl out ↦ rw (out, Keys.update) p
    | inr (old, was) ↦
        rw (was, Keys.update)
          (λ row there.
            let new : KeyMeta = record old { version = old.version + 1; updated_at = now } in
            let h : some new ≡ some row =
              rw (==_refl key) at (sym (Maps.get-set key key new db.keys) ∙ there) in
            let same : new ≡ row = cc in
            subst (λ r. Keys.is_expired now r ≡ false) same (p old was))
  ]

  pub lpush-Live : (vs : List Bytes) (db : Db) → Live db.keys → Live (lpush key vs now db).1.keys
  lpush-Live = lpush-keeps Live new-Live bump-Live

  pub rpush-Live : (vs : List Bytes) (db : Db) → Live db.keys → Live (rpush key vs now db).1.keys
  rpush-Live = rpush-keeps Live new-Live bump-Live
