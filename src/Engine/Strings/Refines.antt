-- ===== src/Engine/Strings/Refines.antt =====
-- src/engine/engine.js: over any run of calls, tables and cache answer as one map with expiry.
use resplite.Base.{
  ℕ, ◌≡◌, refl, ◌∙◌, sym, ap, Bool, true, false, Option, none, some, List, [], ◌∷◌, Bytes,
  if◌then◌else◌, bytes_eq, ◌==◌, arith, inl, inr, Option-cases, map,
}
use resplite.Base.Int.{ℤ}
use resplite.Storage.{Db, KeyMeta, Result, ok}
use resplite.Storage.Keys
use resplite.Engine.Strings.{State, invalidate, forget, is_past, read_string, mget}
use resplite.Engine.Strings.Coherent.{IsGood, weaken, invalidate-IsGood}
use resplite.Storage.Keys.{new_row, existing_of}
use resplite.Engine.Strings.{Expiry, expiry_at, set_string}
use resplite.Engine.Strings.Reads.{Item, Seen, item_of, view, forget-view, forget-IsGood}
use resplite.Engine.Strings.Gets.{Reads}
use resplite.Base.{ℕ}
use resplite.Base.Int.{◌+ℤ◌}
use mathlib.Core.Path.{fun_ext}
use resplite.Engine.Strings.{exists, del, pttl, pexpire, persist}
use resplite.Engine.Strings.Sets.{same-Writes}
use resplite.Base.Int.{◌≤ℤ◌}
use resplite.Engine.Strings.{get, strlen, size_of}
use resplite.Storage.{◌>>=◌}
use resplite.Engine.Strings.Gets.{answer, read_string-Reads}
use resplite.Engine.Strings.Sets.{set_leaves, set_answer, stored_item, set_string-Writes}
use resplite.Engine.Strings.Expiries.{
  count_seen, exists-Reads, time_left, pttl-Reads, with_expiry, is_seen, set_expiry-Writes,
}

-- MGET on a well-formed state gives, for each key, the value seen under it, or null.
pub mget-Reads :
    (now : ℤ) (keys : List Bytes) (st : State)
    → IsGood st
    → Reads now st (map (λ k. answer true (view now st.db k)) keys) (mget now keys st)
unfolding mget
mget-Reads now [] st g = record { good = g; same = λ j. refl; answers = refl }
mget-Reads now (key ∷ keys) st g =
    let st₁ = (read_string now key true st).1 in
    let r = read_string-Reads now key true st g in
    let rs = mget-Reads now keys st₁ r.good in
    record {
      good = rs.good;
      same = λ j. rs.same j ∙ r.same j;
      answers = λ i.
          r.answers i
          ∷ (rs.answers ∙ ap (λ v. map (λ k. answer true (v k)) keys) (fun_ext r.same)) i;
    }

unfoldable pub without : List Bytes → Seen → Seen
without [] seen = seen
without (key ∷ keys) seen = without keys (λ j. if key == j then none else seen j)

-- DEL on a well-formed state: the named keys are seen no more, and every other key is as it was.
pub del-without :
    (now : ℤ) (keys : List Bytes) (st : State)
    → IsGood st
    → IsGood (del keys st).1 × (view now (del keys st).1.db ≡ without keys (view now st.db))
unfolding del without
del-without now [] st g = (g, refl)
del-without now (key ∷ keys) st g = elim (Option-cases (Keys.get key st.db)) [
  | inl absent ↦
      let gone : view now st.db key ≡ none = unfold view item_of in rw absent in
      let good = invalidate-IsGood key st (weaken _ st g) in
      let same =
        same-Writes now key none st false (false, invalidate key st) good
          (λ j. unfold invalidate in refl) (sym gone) refl in
      let (g', e) = del-without now keys (invalidate key st) good in
      rw absent (g', e ∙ ap (without keys) (fun_ext same.seen))
  | inr (row, there) ↦
      let (g', e) = del-without now keys (forget key st) (forget-IsGood key st g) in
      rw there (g', e ∙ ap (without keys) (fun_ext (forget-view key now st g)))
]

-- The calls of a client, and what they answer. DEL's count is left out: it counts a key whose time
-- is over and which no call has looked at since.
pub data Command : Type 0 where
  get_cmd strlen_cmd persist_cmd pttl_cmd : Bytes → Command
  mget_cmd del_cmd exists_cmd : List Bytes → Command
  set_cmd : Bytes → Bytes → Expiry → Command
  pexpire_cmd : Bytes → ℤ → Command

pub data Reply : Type 0 where
  text : Result (Option Bytes) → Reply
  texts : List (Result (Option Bytes)) → Reply
  size : Result ℕ → Reply
  stored : Result (Unit {0}) → Reply
  flag : Bool → Reply
  number : ℕ → Reply
  time : ℤ → Reply
  silent : Reply

unfoldable pub exec : ℤ → Command → State → Reply × State
exec now (get_cmd key) st = let (r, st') = get now key st in (text r, st')
exec now (strlen_cmd key) st = let (r, st') = strlen now key st in (size r, st')
exec now (persist_cmd key) st = let (r, st') = persist now key st in (flag r, st')
exec now (pttl_cmd key) st = let (r, st') = pttl now key st in (time r, st')
exec now (mget_cmd keys) st = let (r, st') = mget now keys st in (texts r, st')
exec now (del_cmd keys) st = (silent, (del keys st).1)
exec now (exists_cmd keys) st = let (r, st') = exists now keys st in (number r, st')
exec now (set_cmd key value o) st = let (r, st') = set_string now key value o st in (stored r, st')
exec now (pexpire_cmd key ms) st = let (r, st') = pexpire now key ms st in (flag r, st')

-- The same calls on one map of keys, with neither tables nor cache.
abbrev put_seen : Bytes → Option Item → Seen → Seen
put_seen key new seen j = if key == j then new else seen j

unfoldable pub spec : ℤ → Command → Seen → Reply × Seen
spec now (get_cmd key) seen = (text (answer false (seen key)), seen)
spec now (strlen_cmd key) seen = (size (answer false (seen key) >>= λ v. ok (size_of v)), seen)
spec now (persist_cmd key) seen =
    (flag (is_seen (seen key)), put_seen key (with_expiry now none (seen key)) seen)
spec now (pttl_cmd key) seen = (time (time_left now (seen key)), seen)
spec now (mget_cmd keys) seen = (texts (map (λ k. answer true (seen k)) keys), seen)
spec now (del_cmd keys) seen = (silent, without keys seen)
spec now (exists_cmd keys) seen = (number (count_seen keys seen), seen)
spec now (set_cmd key value o) seen = (
  stored (set_answer (seen key)),
  put_seen key (set_leaves (seen key) (stored_item now value (expiry_at now o))) seen,
)
spec now (pexpire_cmd key ms) seen =
    (flag (is_seen (seen key)), put_seen key (with_expiry now (some (now +ℤ ms)) (seen key)) seen)

record Refined (now : ℤ) (c : Command) (st : State) : Type 0 where
  good : IsGood (exec now c st).1
  replies : (exec now c st).0 ≡ (spec now c (view now st.db)).0
  leaves : view now (exec now c st).1.db ≡ (spec now c (view now st.db)).1

exec-Refined : (now : ℤ) (c : Command) (st : State) → IsGood st → Refined now c st
unfolding exec spec get strlen persist pexpire
exec-Refined now (get_cmd key) st g =
    let r = read_string-Reads now key false st g in
    record { good = r.good; replies = ap text r.answers; leaves = fun_ext r.same }
exec-Refined now (strlen_cmd key) st g =
    let r = read_string-Reads now key false st g in
    record {
      good = r.good;
      replies = ap (λ x. size (x >>= λ v. ok (size_of v))) r.answers;
      leaves = fun_ext r.same;
    }
exec-Refined now (persist_cmd key) st g =
    let w = set_expiry-Writes now key none st g in
    record { good = w.good; replies = ap flag w.answers; leaves = fun_ext w.seen }
exec-Refined now (pttl_cmd key) st g =
    let r = pttl-Reads now key st g in
    record { good = r.good; replies = ap time r.answers; leaves = fun_ext r.same }
exec-Refined now (mget_cmd keys) st g =
    let r = mget-Reads now keys st g in
    record { good = r.good; replies = ap texts r.answers; leaves = fun_ext r.same }
exec-Refined now (del_cmd keys) st g =
    let (good, e) = del-without now keys st g in record { good = good; replies = refl; leaves = e }
exec-Refined now (exists_cmd keys) st g =
    let r = exists-Reads now keys st g in
    record { good = r.good; replies = ap number r.answers; leaves = fun_ext r.same }
exec-Refined now (set_cmd key value o) st g =
    let w = set_string-Writes now key value o st g in
    record { good = w.good; replies = ap stored w.answers; leaves = fun_ext w.seen }
exec-Refined now (pexpire_cmd key ms) st g =
    let w = set_expiry-Writes now key (some (now +ℤ ms)) st g in
    record { good = w.good; replies = ap flag w.answers; leaves = fun_ext w.seen }

-- Time passes: a key whose expiry has come is seen no more.
unfoldable pub age_item : ℤ → Option Item → Option Item
age_item now none = none
age_item now (some item) = if is_past now item.expires_at then none else some item

age-item_of :
    (t u : ℤ) (m : Option KeyMeta) (b : Option Bytes)
    → t ≤ℤ u
    → item_of u m b ≡ age_item u (item_of t m b)
unfolding item_of age_item is_past
age-item_of t u none b le = refl
age-item_of t u (some row) b le = later row.expires_at
  where
    later :
        (e : Option ℤ)
        → (if is_past u e
            then none
            else some (record { kind = row.kind; expires_at = e; text = b }))
          ≡ age_item u (
              if is_past t e
              then none
              else some (record { kind = row.kind; expires_at = e; text = b }))
    later none = refl
    later (some x) = ground arith

aged : (t u : ℤ) (db : Db) → t ≤ℤ u → (j : Bytes) → age_item u (view t db j) ≡ view u db j
unfolding view
aged t u db le j = sym (age-item_of t u (Keys.get j db) (db.strings j) le)

pub run : List (ℤ × Command) → State → List Reply
run [] st = []
run ((now, c) ∷ calls) st = let (r, st') = exec now c st in r ∷ run calls st'

pub run_spec : List (ℤ × Command) → Seen → List Reply
run_spec [] seen = []
run_spec ((now, c) ∷ calls) seen =
    let (r, seen') = spec now c (λ j. age_item now (seen j)) in r ∷ run_spec calls seen'

-- The clock does not go back.
abbrev pub Ascends : ℤ → List (ℤ × Command) → Type 0
Ascends t [] = Unit
Ascends t ((now, c) ∷ calls) = (t ≤ℤ now) × Ascends now calls

-- From a well-formed state, and with a clock that does not go back, every run of calls answers through
-- tables and cache as it answers on one map with expiry, DEL's count left out: the cache is never
-- seen.
pub run-run_spec :
    (t : ℤ) (calls : List (ℤ × Command)) (st : State)
    → IsGood st
    → Ascends t calls
    → run calls st ≡ run_spec calls (view t st.db)
unfolding run run_spec
run-run_spec t [] st g a = refl
run-run_spec t ((now, c) ∷ calls) st g (le, a) =
    let e = exec-Refined now c st g in
    rw (fun_ext (aged t now st.db le)) (λ i.
      e.replies i
      ∷ (run-run_spec now calls (exec now c st).1 e.good a ∙ ap (run_spec calls) e.leaves) i)
