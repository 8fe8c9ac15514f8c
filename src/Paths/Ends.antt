-- ===== src/Paths/Ends.antt =====
-- Where a path ends: `Join` ends with the name that is joined, and so paths of files with different
-- names are different.
use mathlib.Core.Path.{subst}
use mathlib.Core.List.{reverse, reverse-append, reverse-reverse, append_assoc}
use opx.Prelude.{
  ℕ, ◌≡◌, ◌≢◌, refl, sym, ap, ◌∙◌, Bool, true, false, ◌||◌, ◌&&◌, not, List, [], ◌∷◌, ◌++◌, ◌==◌,
  arith, Bool-cases, inl, inr, if◌then◌else◌,
}
use opx.Prelude.Bytes.{Bytes, codes, ◌=ᵇ◌}
use opx.Strings.{has_prefix, split, join, push_first}
use opx.Strings.Laws.{Lacks, split_absent}
use opx.Paths.{back, resolve, elements, or_dot, clean, join_path}

split_cons : (sep : ℕ) (p : Bytes) → (x : Bytes) × (xs : List Bytes) × (split sep p ≡ x ∷ xs)
unfolding split push_first
split_cons sep [] = ([], [], refl)
split_cons sep (c ∷ p) = elim (Bool-cases (c == sep)) [
  | inl at_sep ↦ rw at_sep ([], split sep p, refl)
  | inr other ↦ let (x, xs, e) = split_cons sep p in rw (other, e) (c ∷ x, xs, refl)
]

split-append_all : (sep : ℕ) (p r : Bytes) → split sep (p ++ sep ∷ r) ≡ split sep p ++ split sep r
unfolding split push_first
split-append_all sep [] r = ground arith
split-append_all sep (c ∷ p) r = elim (Bool-cases (c == sep)) [
  | inl at_sep ↦ rw (at_sep, split-append_all sep p r) refl
  | inr other ↦ let (x, xs, e) = split_cons sep p in rw (other, split-append_all sep p r, e) refl
]

-- An element that stands for itself.
abbrev pub IsPlain : Bytes → Type 0
IsPlain e =
    ((e =ᵇ []) ≡ false) × ((e =ᵇ codes ".") ≡ false) × ((e =ᵇ codes "..") ≡ false) × Lacks b'/' e

lacks : ℕ → Bytes → Bool
lacks b [] = true
lacks b (c ∷ s) = not (c == b) && lacks b s

lacks-Lacks : (b : ℕ) (s : Bytes) → lacks b s ≡ true → Lacks b s
unfolding lacks
lacks-Lacks b [] h = tt
lacks-Lacks b (c ∷ s) h = elim (Bool-cases (c == b)) [
  | inl at_b ↦ absurd (ground arith)
  | inr other ↦ (ground arith, lacks-Lacks b s (rw other at h))
]

unfoldable pub is_plain : Bytes → Bool
unfolding lacks
is_plain e = not (e =ᵇ []) && not (e =ᵇ codes ".") && not (e =ᵇ codes "..") && lacks b'/' e

pub is_plain-IsPlain : (e : Bytes) → is_plain e ≡ true → IsPlain e
unfolding is_plain
is_plain-IsPlain e h = (ground arith, ground arith, ground arith, lacks-Lacks b'/' e (ground arith))

resolve-last :
    (rooted : Bool) (name : Bytes)
    → IsPlain name
    → (es out : List Bytes) → resolve rooted out (es ++ name ∷ []) ≡ name ∷ resolve rooted out es
unfolding resolve
resolve-last rooted name (full, not_dot, not_dots, lacks) [] out = rw (full, not_dot, not_dots) refl
resolve-last rooted name plain (e ∷ es) out = resolve-last rooted name plain es (
    if (e =ᵇ []) || (e =ᵇ codes ".")
    then out
    else if e =ᵇ codes ".."
    then back rooted out
    else e ∷ out)

-- A text that ends with another.
abbrev pub Ends : Bytes → Bytes → Type 0
Ends name p = (front : Bytes) × (p ≡ front ++ name)

Ends-append : (name p q : Bytes) → Ends name q → Ends name (p ++ q)
Ends-append name p q (front, e) = (p ++ front, ap (λ x. p ++ x) e ∙ sym (append_assoc p front name))

join-Ends : (sep : Bytes) (es : List Bytes) (name : Bytes) → Ends name (join sep (es ++ name ∷ []))
unfolding join
join-Ends sep [] name = ([], refl)
join-Ends sep (e ∷ []) name = Ends-append name e _ (Ends-append name sep name ([], refl))
join-Ends sep (e ∷ f ∷ es) name =
    Ends-append name e _ (Ends-append name sep _ (join-Ends sep (f ∷ es) name))

elements-Ends :
    (rooted : Bool) (p name : Bytes) (es : List Bytes)
    → IsPlain name
    → split b'/' p ≡ es ++ name ∷ []
    → Ends name (elements rooted p)
unfolding elements
elements-Ends rooted p name es plain e =
    rw (e, resolve-last rooted name plain es [], reverse-append (name ∷ []) (resolve rooted [] es))
      (join-Ends (codes "/") (reverse (resolve rooted [] es)) name)

not_empty : (name front : Bytes) → (name =ᵇ []) ≡ false → [] ≢ front ++ name
unfolding ◌=ᵇ◌
not_empty [] front h e = cc h
not_empty (c ∷ name) [] h e = ground arith
not_empty (c ∷ name) (f ∷ front) h e = ground arith

or_dot-Ends : (name p : Bytes) → IsPlain name → Ends name p → Ends name (or_dot p)
unfolding or_dot
or_dot-Ends name [] plain (front, e) = absurd (not_empty name front plain.0 e)
or_dot-Ends name (c ∷ p) plain h = h

clean-Ends :
    (p name : Bytes) (es : List Bytes)
    → IsPlain name
    → split b'/' p ≡ es ++ name ∷ []
    → Ends name (clean p)
unfolding clean
clean-Ends p name es plain e = elim (Bool-cases (has_prefix p (codes "/"))) [
  | inl rooted ↦ rw rooted (Ends-append name (codes "/") _ (elements-Ends true p name es plain e))
  | inr relative ↦ rw relative (or_dot-Ends name _ plain (elements-Ends false p name es plain e))
]

-- A path that is joined ends with the name.
pub join_path-Ends : (dir name : Bytes) → IsPlain name → Ends name (join_path dir name)
unfolding join_path
join_path-Ends [] name plain = clean-Ends name name [] plain (split_absent b'/' name plain.3)
join_path-Ends (c ∷ dir) name plain =
    subst (λ p. Ends name (clean p)) (sym (append_assoc (c ∷ dir) (codes "/") name))
      (clean-Ends ((c ∷ dir) ++ b'/' ∷ name) name (split b'/' (c ∷ dir)) plain (
        split-append_all b'/' (c ∷ dir) name
        ∙ ap (λ x. split b'/' (c ∷ dir) ++ x) (split_absent b'/' name plain.3)))

-- The last code of a text, 0 for the empty one.
first_code : Bytes → ℕ
first_code [] = 0
first_code (c ∷ s) = c

unfoldable pub last_code : Bytes → ℕ
unfolding first_code
last_code s = first_code (reverse s)

pub Ends-last : (name p : Bytes) → (name =ᵇ []) ≡ false → Ends name p → last_code p ≡ last_code name
unfolding last_code first_code ◌=ᵇ◌
Ends-last name p full (front, e) =
    ap last_code e ∙ ap first_code (reverse-append front name) ∙ go (reverse name) filled
  where
    filled : reverse name ≢ []
    filled e =
        let empty : name ≡ [] = sym (reverse-reverse name) ∙ ap reverse e in cc (rw empty at full)

    go : (r : Bytes) → r ≢ [] → first_code (r ++ reverse front) ≡ first_code r
    go [] h = absurd (h refl)
    go (c ∷ r) h = refl

pub join_path-last :
    (dir name : Bytes) → is_plain name ≡ true → last_code (join_path dir name) ≡ last_code name
join_path-last dir name p =
    let plain = is_plain-IsPlain name p in
    Ends-last name (join_path dir name) plain.0 (join_path-Ends dir name plain)

-- Files whose names end differently are different.
pub join_path-ne :
    (dir dir' name name' : Bytes)
    → is_plain name ≡ true
    → is_plain name' ≡ true
    → (last_code name == last_code name') ≡ false
    → join_path dir name ≢ join_path dir' name'
join_path-ne dir dir' name name' p p' differ e =
    let same = sym (join_path-last dir name p) ∙ ap last_code e ∙ join_path-last dir' name' p' in
    ground (arith, same)
