-- ===== src/Server/Keys.antt =====
-- The key under which a read with flags is cached (`cacheKey` of internal/server/server.go).
use opx.Prelude.{◌≡◌, refl, sym, ap, ◌∙◌, Option, none, some, List, [], ◌∷◌, ◌++◌, All}
use opx.Prelude.Bytes.{Bytes, codes}
use opx.Strings.{join, split, split_two}
use opx.Strings.Laws.{Lacks, split_two-append, split_two_absent, split-append, split_absent}
use opx.Server.{cache_key}

-- A reference without `|`, and flags without `,`.
abbrev pub IsPlain : Bytes → List Bytes → Type 0
IsPlain ref flags = Lacks 124 ref × All (Lacks 44) flags

split-join :
    (f : Bytes) (fs : List Bytes)
    → All (Lacks 44) (f ∷ fs)
    → split 44 (join (codes ",") (f ∷ fs)) ≡ f ∷ fs
unfolding join
split-join f [] h = split_absent 44 f h.0
split-join f (g ∷ fs) h =
    split-append 44 f (join (codes ",") (g ∷ fs)) h.0 ∙ ap (λ t. f ∷ t) (split-join g fs h.1)

-- The flags, read back from what follows the `|` of a key.
flags_of : Option Bytes → List Bytes
flags_of none = []
flags_of (some (c1 ∷ c2 ∷ c3 ∷ c4 ∷ c5 ∷ c6 ∷ rest)) = split 44 rest
flags_of (some _) = []

parts_of : Bytes → Bytes × List Bytes
unfolding flags_of
parts_of key = let r = split_two 124 key in (r.0, flags_of r.1)

parts_of-cache_key :
    (ref : Bytes) (flags : List Bytes)
    → IsPlain ref flags
    → parts_of (cache_key ref flags) ≡ (ref, flags)
unfolding parts_of cache_key
parts_of-cache_key ref [] h = rw (split_two_absent 124 ref h.0) refl
parts_of-cache_key ref (f ∷ flags) h =
    rw (split_two-append 124 ref (codes "flags:" ++ join (codes ",") (f ∷ flags)) h.0)
      (ap (λ t. (ref, t)) (split-join f flags h.1))

-- Two reads whose references have no `|` and whose flags have no `,` share a key only where they
-- are the same read.
pub cache_key_inj :
    (ref ref' : Bytes) (flags flags' : List Bytes)
    → IsPlain ref flags
    → IsPlain ref' flags'
    → cache_key ref flags ≡ cache_key ref' flags'
    → (ref ≡ ref') × (flags ≡ flags')
cache_key_inj ref ref' flags flags' h h' e =
    let q : (ref, flags) ≡ (ref', flags') =
      sym (parts_of-cache_key ref flags h) ∙ ap parts_of e ∙ parts_of-cache_key ref' flags' h' in
    (ap (λ p. p.0) q, ap (λ p. p.1) q)

-- A reference that itself ends like a key shares its key with another read: with the flag that it
-- ends in. The two flags `x` and `y` share theirs with the one flag `x,y`.
pub cache_key_shared :
    (ref x y : Bytes)
    → (cache_key (ref ++ (codes "|flags:" ++ x)) [] ≡ cache_key ref (x ∷ []))
      × (cache_key ref (x ∷ y ∷ []) ≡ cache_key ref ((x ++ (codes "," ++ y)) ∷ []))
unfolding cache_key join
cache_key_shared ref x y = (refl, refl)
