-- ===== src/Tests/Lists.antt =====
-- Runs of src/storage/sqlite/lists.js on small inputs, and inputs for its theorems.
use resplite.Base.{
  ◌≡◌, ◌≢◌, refl, none, some, List, [], ◌∷◌, ◌++◌, Bytes, bytes_eq, drop, arith, bytes_beq,
}
use mathlib.Core.List.{reverse}
use resplite.Base.Int.{pos, negsuc, ◌+ℤ◌, ◌-ℤ◌}
use resplite.Base.Maps
use resplite.Base.Maps.{Distinct}
use resplite.Storage.{Db, KeyMeta, ListMeta, err, wrong_type, empty_db, string, list}
use resplite.Storage.Keys
use resplite.Storage.Keys.{at_key}
use resplite.Storage.Frame.{SameElsewhere}
use resplite.Storage.Lists.{lpush, rpush, lrange, get_meta, meta_length, clamp_index}
use resplite.Storage.Lists.Statements.{select_range, where_seq}
use resplite.Storage.Lists.View.{Stored, Absent, Holds}
use resplite.Storage.Lists.Numbered.{number}
use resplite.Storage.Lists.Pushes.{Pushed}
use resplite.Storage.Lists.Pushes.Ends.{lpush-Holds, rpush-Holds, push_wrong_type}
use resplite.Storage.Lists.Reads.{lrange-cached, lrange_past_end}
use resplite.Storage.Lists.Removes.{lpop, rpop, ltrim}
use resplite.Storage.Lists.Removes.Pops.{Popping}
use resplite.Storage.Lists.Removes.Ends.{pop_left, pop_right, lpop-Holds, rpop-Holds}
use resplite.Storage.Lists.Removes.Trim.{ltrim-Holds}
use resplite.Engine.Cached.{cached_list_range}
use resplite.Storage.Lists.Removes.{lrem}
use resplite.Storage.Lists.Removes.Occurrences.{removed}
use resplite.Storage.Lists.Removes.Removal.{Removed, lrem-Holds}
use resplite.Storage.Lists.Removes.{lset}
use resplite.Storage.Lists.Removes.Assign.{Assigned, set_at, lset-Holds}

-- The list "x", "y", "z" under the key "l", with numbers from -1 to 1, and a string under "s".
abbrev list_key : Bytes
list_key = 108 ∷ []

abbrev letters : List Bytes
letters = (120 ∷ []) ∷ (121 ∷ []) ∷ (122 ∷ []) ∷ []

abbrev list_row : KeyMeta
list_row = record {
  kind = list;
  expires_at = none;
  set_count = none;
  hash_count = none;
  zset_count = none;
  version = 1;
  updated_at = pos 0;
}

abbrev string_row : KeyMeta
string_row = record list_row { kind = string }

abbrev list_ends : ListMeta
list_ends = record { head_seq = negsuc 0; tail_seq = pos 1 }

abbrev tables : Db
tables = record {
  keys = (list_key, list_row) ∷ (115 ∷ [], string_row) ∷ [];
  strings = at_key (115 ∷ []) (some (1 ∷ [])) (λ k. none);
  list_meta = at_key list_key (some list_ends) (λ k. none);
  list_items =
      at_key list_key ((negsuc 0, 120 ∷ []) ∷ (pos 0, 121 ∷ []) ∷ (pos 1, 122 ∷ []) ∷ []) (λ k. []);
}

tables-Stored : Stored list_key letters tables
unfolding Keys.get Maps.get bytes_beq number ◌+ℤ◌
tables-Stored = record {
  row = list_row;
  m = list_ends;
  row_there = refl;
  kind = refl;
  meta_there = refl;
  ends = refl;
  items = refl;
}

tables-Distinct : Distinct tables.keys
unfolding Maps.get bytes_beq
tables-Distinct = (refl, (refl, tt))

no_key : Absent list_key empty_db
unfolding Keys.get Maps.get
no_key = record { no_row = refl; no_meta = refl; no_items = refl }

string_there : Keys.get (115 ∷ []) tables ≡ some string_row
unfolding Keys.get Maps.get bytes_beq
string_there = refl

string-ne-list : string ≢ list
string-ne-list h = cc

range_test : lrange list_key (negsuc 1) (negsuc 0) tables ≡ (121 ∷ []) ∷ (122 ∷ []) ∷ []
unfolding lrange get_meta bytes_beq meta_length ◌+ℤ◌ ◌-ℤ◌ clamp_index select_range where_seq
range_test = refl

range_past_end : lrange list_key (pos 5) (pos 10) tables ≡ (122 ∷ []) ∷ []
unfolding lrange get_meta bytes_beq meta_length ◌+ℤ◌ ◌-ℤ◌ clamp_index select_range where_seq
range_past_end = refl

lpush-Holds_example :
    Pushed list_key
      (reverse ((1 ∷ []) ∷ (2 ∷ []) ∷ []) ++ letters)
      tables
      (lpush list_key ((1 ∷ []) ∷ (2 ∷ []) ∷ []) (pos 7) tables)
lpush-Holds_example =
    lpush-Holds list_key (1 ∷ []) ((2 ∷ []) ∷ []) letters (pos 7) tables tables-Stored

rpush-Holds_example :
    Pushed list_key
      ((1 ∷ []) ∷ (2 ∷ []) ∷ [])
      empty_db
      (rpush list_key ((1 ∷ []) ∷ (2 ∷ []) ∷ []) (pos 7) empty_db)
rpush-Holds_example = rpush-Holds list_key (1 ∷ []) ((2 ∷ []) ∷ []) [] (pos 7) empty_db no_key

push_wrong_type_example :
    (lpush (115 ∷ []) ((1 ∷ []) ∷ []) (pos 7) tables ≡ (err wrong_type, tables))
    × (rpush (115 ∷ []) ((1 ∷ []) ∷ []) (pos 7) tables ≡ (err wrong_type, tables))
push_wrong_type_example =
    push_wrong_type (115 ∷ []) (1 ∷ []) [] (pos 7) tables string_row string_there string-ne-list

lrange-cached_example :
    lrange list_key (negsuc 1) (pos 10) tables ≡ cached_list_range letters (negsuc 1) (pos 10)
lrange-cached_example = lrange-cached list_key letters (negsuc 1) (pos 10) tables tables-Stored

lrange_past_end_example : lrange list_key (pos 10) (pos 5) tables ≡ drop 2 letters
lrange_past_end_example =
    lrange_past_end list_key (120 ∷ []) ((121 ∷ []) ∷ (122 ∷ []) ∷ []) 10 5 tables tables-Stored
      (omega arith) (omega arith)

lpop-Holds_example :
    Popping list_key
      (pop_left (some (pos 2)) letters).0
      (pop_left (some (pos 2)) letters).1
      tables
      (lpop list_key (some (pos 2)) (pos 7) tables)
lpop-Holds_example =
    lpop-Holds list_key (some (pos 2)) letters (pos 7) tables tables-Stored tables-Distinct

rpop-Holds_example :
    Popping list_key
      (pop_right (some (pos 9)) letters).0
      (pop_right (some (pos 9)) letters).1
      tables
      (rpop list_key (some (pos 9)) (pos 7) tables)
rpop-Holds_example =
    rpop-Holds list_key (some (pos 9)) letters (pos 7) tables tables-Stored tables-Distinct

ltrim-Holds_example :
    Holds list_key
      (lrange list_key (pos 1) (negsuc 0) tables)
      (ltrim list_key (pos 1) (negsuc 0) (pos 7) tables)
    × SameElsewhere list_key tables (ltrim list_key (pos 1) (negsuc 0) (pos 7) tables)
ltrim-Holds_example =
    ltrim-Holds list_key letters (pos 1) (negsuc 0) (pos 7) tables tables-Stored tables-Distinct

lset-Holds_example :
    Assigned list_key
      (set_at (some (negsuc 0)) (9 ∷ []) letters).0
      (set_at (some (negsuc 0)) (9 ∷ []) letters).1
      tables
      (lset list_key (some (negsuc 0)) (9 ∷ []) (pos 7) tables)
lset-Holds_example =
    lset-Holds list_key (9 ∷ []) (some (negsuc 0)) letters (pos 7) tables tables-Stored

lrem-Holds_example :
    Removed list_key 1
      ((120 ∷ []) ∷ (122 ∷ []) ∷ [])
      tables
      (lrem list_key (negsuc 1) (121 ∷ []) (pos 7) tables)
unfolding removed bytes_beq
lrem-Holds_example =
    lrem-Holds list_key (121 ∷ []) (negsuc 1) (pos 7) tables tables-Distinct letters tables-Stored
