-- ===== src/Engine/Lists/Served.antt =====
-- src/engine/engine.js: LPUSH and RPUSH, which wake one who waits; and src/blocking/manager.js with the
-- engine's pops.
use resplite.Base.{Option, none, some, List, Bytes, bytes_eq}
use resplite.Base.Int.{ℤ}
use resplite.Storage.{Db, Result, ok, err, ◌>>=◌}
use resplite.Storage.Lists
use resplite.Storage.Lists.{is_list}
use resplite.Storage.Lists.Removes.{Popped, one}
use resplite.Blocking.{Kind, blpop, brpop, Manager}
use resplite.Blocking.Wakeups.{wakeup}
use resplite.Engine.Strings.{State, invalidate, get_key_meta}
use resplite.Engine.Lists.{lpop, rpop}

-- What a pop with no count gives the manager.
unfoldable pub first_popped : Popped → Option Bytes
first_popped (one v) = some v
first_popped _ = none

unfoldable pub pop_for : ℤ → Kind → Bytes → State → Result (Option Bytes) × State
unfolding first_popped
pop_for now blpop key st =
    let (r, st') = lpop now key none st in (r >>= λ p. ok (first_popped p), st')
pop_for now brpop key st =
    let (r, st') = rpop now key none st in (r >>= λ p. ok (first_popped p), st')

-- The engine with its blocking manager, if it has one.
pub record Served : Type 0 where
  pub engine : State
  pub manager : Option Manager

unfoldable pub wake : ℤ → Bytes → Served → Served
wake now key sv = elim sv.manager [
  | none ↦ sv
  | some m ↦
      let (st, m') = wakeup (pop_for now) key sv.engine m in
      record { engine = st; manager = some m' }
]

-- What follows on the tables' push: the cache is rid of the key, and one who waits is woken.
unfoldable pub pushed : ℤ → Bytes → Served → Result ℤ × Db → Result ℤ × Served
pushed now key sv (ok n, db) =
    (ok n, wake now key (record sv { engine = invalidate key (record sv.engine { db = db }) }))
pushed now key sv (err e, db) = (err e, record sv { engine = record sv.engine { db = db } })

unfoldable pub lpush : ℤ → Bytes → List Bytes → Served → Result ℤ × Served
lpush now key values sv =
    let (_, st) = get_key_meta now key sv.engine in
    pushed now key (record sv { engine = st }) (Lists.lpush key values now st.db)

unfoldable pub rpush : ℤ → Bytes → List Bytes → Served → Result ℤ × Served
rpush now key values sv =
    let (_, st) = get_key_meta now key sv.engine in
    pushed now key (record sv { engine = st }) (Lists.rpush key values now st.db)
