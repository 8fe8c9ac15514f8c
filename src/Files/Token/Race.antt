-- ===== src/Files/Token/Race.antt =====
-- Two processes that start at the same time end up with different tokens.
use opx.Prelude.{
  ℕ, zero, suc, ◌≡◌, refl, sym, if◌then◌else◌, true, false, Option, none, some, List, [], ◌∷◌,
  arith,
}
use opx.Prelude.Bytes.{Bytes, ◌=ᵇ◌, =ᵇ_refl, =ᵇ_ne}
use opx.Dict.{lookup, insert, delete}
use opx.Policy.{hex_encode}
use opx.Files.Token.{Luck, gave, reading, returned, temp_path, act}
use opx.Files.Token.Paths.{temp_path-ne}
use opx.Files.Token.Atomic.{run}

-- Every call works, and each process draws bytes of its own.
abbrev pub draws : Bytes → Luck
draws b = record {
  random = some b;
  unreadable = false;
  no_open = false;
  short_write = none;
  no_close = false;
  no_rename = false;
}

abbrev pub two : Bytes → Bytes → ℕ → Luck
two a b zero = draws a
two a b (suc i) = draws b

-- Both find no token; then one goes through to its end, and then the other.
abbrev pub both : List ℕ
both = 0 ∷ 1 ∷ 0 ∷ 0 ∷ 0 ∷ 0 ∷ 0 ∷ 1 ∷ 1 ∷ 1 ∷ 1 ∷ 1 ∷ []

=ᵇ_self : (path : Bytes) (x y : Option Bytes) → (if path =ᵇ path then x else y) ≡ x
=ᵇ_self path x y = rw (=ᵇ_refl path) refl

-- Of two processes that both look for the token before either has made it, each returns the token
-- that it has drawn itself, and the file has that of the second.
pub tokens_differ :
    (path a b : Bytes)
    → let s = run path (two a b) (record { files = []; pc = λ i. reading }) both in
      (s.pc 0 ≡ returned (gave (hex_encode a)))
      × (s.pc 1 ≡ returned (gave (hex_encode b)))
      × (lookup path s.files ≡ some (hex_encode b))
unfolding run act lookup insert delete
tokens_differ path a b =
    let same : (temp_path path =ᵇ temp_path path) ≡ true = =ᵇ_refl (temp_path path) in
    let differ : (path =ᵇ temp_path path) ≡ false =
      =ᵇ_ne path (temp_path path) (λ e. temp_path-ne path (sym e)) in
    ground (arith, same, differ, =ᵇ_refl path)
