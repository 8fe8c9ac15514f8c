-- ===== src/Server/Overlap/Right.antt =====
-- What the reads that overlap answer.
use opx.Prelude.{ℕ, ◌<◌, ◌≡◌, ◌⊎◌, [], length, sym, ◌∙◌, List, inl, inr}
use opx.Prelude.Bytes.{Bytes}
use opx.SafeString.{SafeString}
use opx.Cache.Wearing.{text}
use opx.Cache.{Cache}
use opx.Cache.Ownership.{clears as clears_all}
use opx.Backend.{Result, ok}
use opx.Server.Keys.{IsPlain, cache_key_inj}
use opx.Server.Transparent.{value_of, IsCoherent}
use opx.Server.Overlap.{
  Pc, reading, reading_again, hitting, hitting_again, storing, leaving, answered, Asked, key,
  System, clears,
}

module _ (f : Bytes → List Bytes → Result Bytes) where
  -- What `f` reads, or the empty text.
  abbrev pub IsAnswer : Asked → Result Bytes → Type 0
  IsAnswer q v = (v ≡ f q.ref q.flags) ⊎ (v ≡ ok [])

  -- A read has got what `f` reads, or the empty text; the text of its entry is in the store.
  abbrev IsRight : Asked → List SafeString → Pc → Type 0
  IsRight q heap (reading e) = (e.v < length heap) × IsAnswer q (ok (text heap e.v))
  IsRight q heap (reading_again e) = (e.v < length heap) × IsAnswer q (ok (text heap e.v))
  IsRight q heap (hitting r) = IsAnswer q (ok r.0)
  IsRight q heap (hitting_again r) = IsAnswer q (ok r.0)
  IsRight q heap (storing v) = f q.ref q.flags ≡ ok v
  IsRight q heap (leaving r) = IsAnswer q (value_of r)
  IsRight q heap (answered r) = IsAnswer q (value_of r)
  IsRight q heap _ = Unit {0}

  module _ (asked : ℕ → Asked) (plain : (i : ℕ) → IsPlain (asked i).ref (asked i).flags) where
    abbrev AllRight : System → Type 0
    AllRight s = IsCoherent f s.cache × ((i : ℕ) → IsRight (asked i) s.cache.heap (s.pc i))

    shared :
        (i j : ℕ) (v : Result Bytes)
        → key (asked i) ≡ key (asked j)
        → IsAnswer (asked j) v
        → IsAnswer (asked i) v
    shared i j v e (inr empty) = inr empty
    shared i j v e (inl g) =
        let (refs, flags) = cache_key_inj _ _ _ _ (plain i) (plain j) e in
        inl (g ∙ (λ t. f (sym refs t) (sym flags t)))
