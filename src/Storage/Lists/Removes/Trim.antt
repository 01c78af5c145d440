-- ===== src/Storage/Lists/Removes/Trim.antt =====
-- src/storage/sqlite/lists.js: `ltrim` keeps what `lrange` reads.
use resplite.Base.{
  ℕ, suc, ◌-◌, ◌≤◌, ◌<◌, ◌≡◌, refl, ◌∙◌, sym, not, ◌&&◌, some, List, [], ◌∷◌, Bytes, length, arith,
  take, drop, ltb, leb, bytes_eq, Bool-cases, inl, inr, length-drop, length-take,
}
use resplite.Base.Int.{ℤ, pos, ◌+ℤ◌, ltb_ℤ, int_laws, +ℤ_parts}
use resplite.Base.Maps.{Distinct}
use resplite.Storage.Frame.{SameElsewhere, SameElsewhere-refl, SameElsewhere-trans}
use resplite.Storage.{Db, ListMeta}
use resplite.Storage.Lists.{get_meta, lrange}
use resplite.Storage.Lists.Statements.{delete_before, delete_after}
use resplite.Storage.Lists.Numbered.{number, where_slice, where_seq-and}
use resplite.Storage.Lists.View.{
  Stored, Holds, length-ends, update_meta-with_list, with_list-Stored, with_list-SameElsewhere,
  bump-Stored, bump-SameElsewhere,
}
use resplite.Storage.Lists.Reads.{
  clamp_position, clamp_index-position, cached_clamped, slice_positions, lrange-cached,
}
use resplite.Storage.Lists.Removes.{trim_list, ltrim}
use resplite.Storage.Lists.Removes.Pops.{is_zero-suc, delete-Absent}
use resplite.Engine.Cached.{cached_list_range}

Holds-Stored :
    (key : Bytes) (us : List Bytes) (db : Db) → 0 < length us → Stored key us db → Holds key us db
Holds-Stored key [] db h s = absurd (omega arith)
Holds-Stored key (u ∷ us) db h s = s

reads_kept :
    (h : ℤ) (a b i : ℕ)
    → not (ltb_ℤ (h +ℤ pos b) (h +ℤ pos i)) && not (ltb_ℤ (h +ℤ pos i) (h +ℤ pos a))
      ≡ leb a i && ltb i (suc b)
reads_kept h a b i = ground (arith, +ℤ_parts h (pos a), +ℤ_parts h (pos b), +ℤ_parts h (pos i))

kept_rows :
    (h : ℤ) (a b : ℕ) (vs : List Bytes)
    → delete_after (h +ℤ pos b) (delete_before (h +ℤ pos a) (number h vs))
      ≡ number (h +ℤ pos a) (drop a (take (suc b) vs))
unfolding delete_after delete_before
kept_rows h a b vs =
    sym (where_seq-and _ _ (number h vs))
    ∙ where_slice _ h a (suc b) vs (λ i less. reads_kept h a b i)

new_ends : (h : ℤ) (a b : ℕ) → a ≤ b → h +ℤ pos b +ℤ pos 1 ≡ h +ℤ pos a +ℤ pos (suc b - a)
new_ends h a b le = omega int_laws

module _ (key v : Bytes) (vs : List Bytes) (start stop now : ℤ) (db : Db)
    (s : Stored key (v ∷ vs) db) (d : Distinct db.keys) where
  open s use {m}

  trim_list-Holds :
      Holds key (cached_list_range (v ∷ vs) start stop) (trim_list key m start stop now db)
      × SameElsewhere key db (trim_list key m start stop now db)
  unfolding trim_list
  trim_list-Holds =
      let n = length vs in
      let (s_is, s_le) = clamp_index-position n start in
      let (e_is, e_le) = clamp_index-position n stop in
      let a = clamp_position n start in
      let b = clamp_position n stop in
      let us = drop a (take (suc b) (v ∷ vs)) in
      let m' : ListMeta = record {
        head_seq = m.head_seq +ℤ pos a;
        tail_seq = m.head_seq +ℤ pos b;
      } in
      rw (cached_clamped, length-ends m (suc n) s.ends, is_zero-suc, s_is, e_is)
        (elim (Bool-cases (ltb_ℤ (pos b) (pos a))) [
          | inl empty ↦ rw empty (delete-Absent key [] db d)
          | inr some_left ↦
              let le : a ≤ b = ground arith in
              let size : length us ≡ suc b - a =
                omega
                  (arith, length-drop a (take (suc b) (v ∷ vs)), length-take (suc b) (v ∷ vs)) in
              rw
                (
                  some_left,
                  slice_positions a b (v ∷ vs) (omega arith) (omega arith),
                  s.items,
                  kept_rows m.head_seq a b (v ∷ vs),
                  update_meta-with_list key m' (number (m.head_seq +ℤ pos a) us) db m s.meta_there,
                )
                (
                  Holds-Stored key us _ (omega arith) (
                      bump-Stored now (
                        with_list-Stored key m' (number (m.head_seq +ℤ pos a) us) db s.row us
                          s.row_there s.kind (rw size (new_ends m.head_seq a b le)) refl)),
                  SameElsewhere-trans key (with_list-SameElsewhere key m' _ db)
                      (bump-SameElsewhere key now _),
                )
        ])

ltrim-there :
    (key : Bytes) (start stop now : ℤ) (db : Db) (m : ListMeta)
    → db.list_meta key ≡ some m
    → ltrim key start stop now db ≡ trim_list key m start stop now db
unfolding ltrim get_meta
ltrim-there key start stop now db m h = rw (h, ltrim)

-- LTRIM on a key that holds the list `vs`, in tables with each key once, leaves under it exactly the
-- values that LRANGE with the same bounds reads; the key goes if these are none, and every other key
-- is as it was.
pub ltrim-Holds :
    (key : Bytes) (vs : List Bytes) (start stop now : ℤ) (db : Db)
    → Holds key vs db
    → Distinct db.keys
    → Holds key (lrange key start stop db) (ltrim key start stop now db)
      × SameElsewhere key db (ltrim key start stop now db)
unfolding ltrim get_meta
ltrim-Holds key [] start stop now db a d =
    rw (lrange-cached key [] start stop db a)
      (unfold cached_list_range in rw (a.no_meta, ltrim) (a, SameElsewhere-refl key db))
ltrim-Holds key (v ∷ vs) start stop now db s d = rw (lrange-cached key (v ∷ vs) start stop db s) (
    rw (ltrim-there key start stop now db s.m s.meta_there)
      (trim_list-Holds key v vs start stop now db s d))
