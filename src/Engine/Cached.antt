-- ===== src/Engine/Cached.antt =====
-- src/engine/engine.js: reads of a list from the cache, and Array.prototype.slice.
use resplite.Base.{
  ℕ, ◌||◌, Option, none, List, [], ◌∷◌, Bytes, if◌then◌else◌, length, take, drop, get_elem?,
}
use resplite.Base.Int.{ℤ, pos, pos_part, ◌+ℤ◌, ◌-ℤ◌, ltb_ℤ, leb_ℤ, min_ℤ, max_ℤ}

-- `slice` takes a negative bound from the end, and stays within the array.
unfoldable pub slice_bound : ℕ → ℤ → ℕ
slice_bound len i =
    if ltb_ℤ i (pos 0)
    then pos_part (max_ℤ (pos 0) (pos len +ℤ i))
    else pos_part (min_ℤ i (pos len))

unfoldable pub slice {ℓ} : {A : Type ℓ} → ℤ → ℤ → List A → List A
unfolding slice_bound
slice start stop xs = drop (slice_bound (length xs) start) (take (slice_bound (length xs) stop) xs)

unfoldable pub cached_list_range : List Bytes → ℤ → ℤ → List Bytes
unfolding slice
cached_list_range [] start stop = []
cached_list_range (v ∷ vs) start stop =
    let len = pos (length (v ∷ vs)) in
    let s =
      if ltb_ℤ start (pos 0) then max_ℤ (pos 0) (len +ℤ start) else min_ℤ start (len -ℤ pos 1) in
    let e = if ltb_ℤ stop (pos 0) then max_ℤ (pos 0) (len +ℤ stop) else min_ℤ stop (len -ℤ pos 1) in
    if ltb_ℤ e s then [] else slice s (e +ℤ pos 1) (v ∷ vs)

unfoldable pub cached_list_index : List Bytes → ℤ → Option Bytes
cached_list_index values index =
    let len = pos (length values) in
    let i = if ltb_ℤ index (pos 0) then len +ℤ index else index in
    if ltb_ℤ i (pos 0) || leb_ℤ len i then none else get_elem? values (pos_part i)
