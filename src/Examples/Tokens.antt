-- ===== src/Examples/Tokens.antt =====
-- The theorems on internal/util/fs.go at concrete inputs.
use opx.Prelude.{refl, [], ◌∷◌}
use opx.Prelude.Bytes.{Bytes, codes}
use opx.Dict.{lookup}
use opx.Files.Token.{reading}
use opx.Files.Token.Atomic.{run, IsToken, Carried, run-Whole}
use opx.Files.Token.Race.{two, both}

abbrev path : Bytes
path = codes "token"

abbrev a : Bytes
a = 1 ∷ 2 ∷ []

abbrev b : Bytes
b = 3 ∷ 4 ∷ []

run-Whole_example :
    let s = run path (two a b) (record { files = []; pc = λ i. reading }) both in
    IsToken path (two a b) (lookup path s.files) × Carried path (two a b) (s.pc 1)
unfolding lookup
run-Whole_example = run-Whole path (two a b) [] both 1 refl refl
