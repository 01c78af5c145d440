-- ===== src/Storage/Lists/Statements.antt =====
-- src/storage/sqlite/lists.js: the statements over the rows of redis_list_items of one key.
use resplite.Base.{Bool, true, false, not, ◌&&◌, Option, none, some, [], ◌∷◌, Bytes, if◌then◌else◌}
use resplite.Base.Int.{ℤ, ltb_ℤ, leb_ℤ, beq_ℤ}
use resplite.Storage.{Rows, Result, ok, err, constraint, ◌>>=◌}

-- `INSERT … (key, seq, value)`: (key, seq) is the primary key.
unfoldable pub insert_row : ℤ → Bytes → Rows → Result Rows
insert_row seq value [] = ok ((seq, value) ∷ [])
insert_row seq value ((s, v) ∷ rows) =
    let further = insert_row seq value rows in
    if ltb_ℤ seq s
    then ok ((seq, value) ∷ (s, v) ∷ rows)
    else if ltb_ℤ s seq
    then (do rest ← further; ok ((s, v) ∷ rest))
    else err constraint

-- The rows whose number passes a test.
unfoldable pub where_seq : (ℤ → Bool) → Rows → Rows
where_seq p [] = []
where_seq p ((s, v) ∷ rows) = let rest = where_seq p rows in if p s then (s, v) ∷ rest else rest

-- `seq BETWEEN ? AND ?`
abbrev pub between : ℤ → ℤ → ℤ → Bool
between a b s = leb_ℤ a s && leb_ℤ s b

unfoldable pub select_range : ℤ → ℤ → Rows → Rows
select_range a b rows = where_seq (between a b) rows

unfoldable pub delete_range : ℤ → ℤ → Rows → Rows
delete_range a b rows = where_seq (λ s. not (between a b s)) rows

-- `SELECT value … WHERE key = ? AND seq = ?`
unfoldable pub select_seq : ℤ → Rows → Option Bytes
select_seq a [] = none
select_seq a ((s, v) ∷ rows) = if beq_ℤ s a then some v else select_seq a rows

unfoldable pub delete_seq : ℤ → Rows → Rows
delete_seq a rows = where_seq (λ s. not (beq_ℤ s a)) rows

-- `UPDATE … SET value = ?`: the rows, and `changes > 0`.
unfoldable pub update_seq : ℤ → Bytes → Rows → Rows × Bool
update_seq a value [] = ([], false)
update_seq a value ((s, v) ∷ rows) =
    let (rest, changed) = update_seq a value rows in
    if beq_ℤ s a then ((s, value) ∷ rest, true) else ((s, v) ∷ rest, changed)

-- `seq < ?` and `seq > ?`
unfoldable pub delete_before : ℤ → Rows → Rows
delete_before a rows = where_seq (λ s. not (ltb_ℤ s a)) rows

unfoldable pub delete_after : ℤ → Rows → Rows
delete_after a rows = where_seq (λ s. not (ltb_ℤ a s)) rows
