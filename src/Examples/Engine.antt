-- ===== src/Examples/Engine.antt =====
-- The theorems on the storage engine at concrete inputs.
use velox_db.Prelude.{
  codes, ◌++◌, none, some, false, ◌≡◌, refl, pos, ◌+ℤ◌, IsI64, ◌↔◌, arith, max_i64,
}
use velox_db.Storage.Types.{always, nx}
use velox_db.Storage.Time.{after_ms}
use velox_db.Storage.Table.{expired_by}
use velox_db.Storage.Held.{overflows}
use velox_db.Storage.Held.Accounting.{Accounted}
use velox_db.Storage.Held.Counter.{overflows_lem, seen_integer, text_seen}
use velox_db.Storage.Held.Effect.{counts}
use velox_db.Storage.Engine.{set, get, del, incr_by, append}
use velox_db.Storage.Engine.Shards.{IsSound, view, Updated, total_memory}
use velox_db.Storage.Engine.Contract.{Written, set-Written, del-Updated}
use velox_db.Storage.Engine.Updates.{next_item, incr_by-Written, append-Written}
use velox_db.Storage.Engine.Reach.{start, next, by_set, Reach-used_memory}
use velox_db.Storage.Engine.Session.{get-set_self, get-set_other, get-del}
use velox_db.Config.Types.{default_protocol}
use velox_db.Examples.Data.{
  hash_length, two_shards, fresh, key, other, at_five, seven, with_number, fresh-IsSound,
  with_number-IsSound, number_written,
}

Reach-used_memory_example : Accounted 4096 with_number.used_memory (total_memory with_number.shards)
Reach-used_memory_example =
    Reach-used_memory hash_length two_shards default_protocol with_number (omega arith) (
      next fresh fresh with_number (start fresh)
        (by_set fresh at_five key (codes "41") none always))

set-Written_example :
    Written hash_length
      (set hash_length with_number at_five key (codes "v") (some (pos 10)) nx).0.code
      (pos 5)
      key
      (some (codes "v", some (after_ms (pos 5) (pos 10))))
      with_number
      (set hash_length with_number at_five key (codes "v") (some (pos 10)) nx).1
set-Written_example =
    set-Written hash_length with_number with_number-IsSound key at_five (codes "v") (some (pos 10))
      nx

get-set_self_example : (get hash_length with_number seven key).0 ≡ some (codes "41")
get-set_self_example =
    get-set_self hash_length fresh fresh-IsSound key at_five (codes "41") none always seven
      number_written (omega arith) (unfold expired_by in refl)

get-set_other_example :
    (get hash_length with_number seven other).0 ≡ (get hash_length fresh seven other).0
get-set_other_example =
    get-set_other hash_length fresh fresh-IsSound key at_five (codes "41") none always seven other
      (cc) (omega arith)

get-del_example : (get hash_length (del hash_length with_number (pos 6) key).1 seven key).0 ≡ none
get-del_example =
    get-del hash_length with_number with_number-IsSound key (pos 6) seven (omega arith)

del-Updated_example :
    ((del hash_length with_number seven key).0 ≡ counts (view hash_length with_number seven key))
    × (IsSound (del hash_length with_number seven key).1
        × Updated hash_length seven key none with_number (del hash_length with_number seven key).1)
del-Updated_example = del-Updated hash_length with_number with_number-IsSound key seven

incr_by-Written_example :
    Written hash_length
      (incr_by hash_length with_number at_five key (pos 1)).0.code
      (pos 5)
      key
      (next_item (pos 1) (seen_integer (view hash_length with_number (pos 5) key)))
      with_number
      (incr_by hash_length with_number at_five key (pos 1)).1
incr_by-Written_example =
    incr_by-Written hash_length with_number with_number-IsSound key at_five (pos 1)

overflows_lem_example : (overflows (pos max_i64) (pos 1) ≡ false) ↔ IsI64 (pos max_i64 +ℤ pos 1)
overflows_lem_example =
    overflows_lem (pos max_i64) (pos 1) (omega arith, omega arith) (omega arith, omega arith)

append-Written_example :
    Written hash_length
      (append hash_length with_number at_five key (codes "0")).0.code
      (pos 5)
      key
      (some (text_seen (view hash_length with_number (pos 5) key) ++ codes "0", none))
      with_number
      (append hash_length with_number at_five key (codes "0")).1
append-Written_example =
    append-Written hash_length with_number with_number-IsSound key at_five (codes "0")
