-- ===== src/Examples/Caches.antt =====
-- The theorems on internal/cache at concrete inputs.
use opx.Prelude.{sym, ap, ◌∙◌, ◌≡◌, ◌≢◌, refl, some, none, List, [], ◌∷◌, get_elem?}
use opx.Prelude.Int.{pos}
use opx.Prelude.Bytes.{Bytes, codes}
use opx.Dict.{lookup, insert, keys, delete}
use opx.SafeString.{SafeString, new_string, zero_data}
use opx.SafeString.Zeroing.{IsWiped}
use opx.Cache.{Entry, new_cache, set_value, clear}
use opx.Cache.Ownership.{Call, sets, clears, run, run-IsWiped}

abbrev key : Bytes
key = codes "op://V/I/f"

abbrev secret : Bytes
secret = codes "s3"

abbrev calls : List Call
calls = sets key secret (pos 10) (pos 10) ∷ clears ∷ []

abbrev zeroed : SafeString
zeroed = record { buffer = 0 ∷ 0 ∷ []; len = none; stale = [] }

zeroed_there : get_elem? (run (new_cache (pos 100)) calls).heap 0 ≡ some zeroed
unfolding clear keys set_value insert lookup zero_data new_string
zeroed_there = refl

emptied : (run (new_cache (pos 100)) calls).entries ≡ []
unfolding clear keys set_value insert lookup zero_data new_string delete
emptied = refl

none_at : (k : Bytes) (e : Entry) → lookup k [] ≢ some e
unfolding lookup
none_at k e h = cc

nothing_left :
    (k : Bytes) (e : Entry) → lookup k (run (new_cache (pos 100)) calls).entries ≡ some e → e.v ≢ 0
nothing_left k e h q = none_at k e (sym (ap (λ d. lookup k d) emptied) ∙ h)

run-IsWiped_example : IsWiped zeroed
run-IsWiped_example = run-IsWiped (pos 100) calls 0 zeroed zeroed_there nothing_left
