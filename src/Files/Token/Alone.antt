-- ===== src/Files/Token/Alone.antt =====
-- `EnsureToken`, run by one process with no other in between.
use mathlib.Core.Path.{subst}
use opx.Prelude.{
  ℕ, zero, suc, ◌-◌, ◌≤◌, ◌≡◌, ◌≢◌, ◌∙◌, refl, false, none, some, [], arith, take, Option-cases,
  inl, inr,
}
use opx.Prelude.Bytes.{Bytes, =ᵇ_refl}
use opx.Dict.{lookup, delete, lookup-delete, lookup-insert_self}
use opx.Files.Token.Paths.{insert_temp, delete_temp, act-others}
use opx.Files.Token.{
  FileMap, Luck, Pc, Answer, TokenError, gave, failed, reading, returned, temp_path, acts, act,
  ensure_token, most_calls, opening, drawing, writing, closing, renaming, retreating, rereading,
  discarding,
}

-- How many calls are left.
abbrev left : Pc → ℕ
left reading = 8
left drawing = 7
left (opening t) = 6
left (writing t) = 5
left (closing t e) = 4
left (renaming t) = 3
left (discarding e) = 1
left retreating = 2
left rereading = 1
left (returned a) = 0

act-left :
    (path : Bytes) (l : Luck) (pc : Pc) (files : FileMap)
    → left (act path l pc files).0 ≤ left pc - 1
unfolding act
act-left path l reading files = ground arith
act-left path l drawing files = ground arith
act-left path l (opening t) files = ground arith
act-left path l (writing t) files = ground arith
act-left path l (closing t e) files = ground arith
act-left path l (renaming t) files = ground arith
act-left path l (discarding e) files = ground arith
act-left path l retreating files = ground arith
act-left path l rereading files = ground arith
act-left path l (returned a) files = ground arith

ended : (pc : Pc) → left pc ≤ 0 → (a : Answer) × (pc ≡ returned a)
ended (returned a) h = (a, refl)
ended reading h = elim h [ ]
ended drawing h = elim h [ ]
ended (opening t) h = elim h [ ]
ended (writing t) h = elim h [ ]
ended (closing t e) h = elim h [ ]
ended (discarding e) h = elim h [ ]
ended (renaming t) h = elim h [ ]
ended retreating h = elim h [ ]
ended rereading h = elim h [ ]

acts-left :
    (n : ℕ) (path : Bytes) (l : Luck) (s : Pc × FileMap)
    → left s.0 ≤ n
    → (a : Answer) × ((acts n path l s).0 ≡ returned a)
unfolding acts
acts-left zero path l (pc, files) h = ended pc h
acts-left (suc n) path l (pc, files) h =
    acts-left n path l (act path l pc files) (omega (arith, act-left path l pc files))

-- `EnsureToken` comes to its end, with a token or an error, whatever the files are and whatever
-- fails.
pub ensure_token_total :
    (path : Bytes) (l : Luck) (files : FileMap)
    → (a : Answer) × ((ensure_token path l files).0 ≡ returned a)
unfolding ensure_token
ensure_token_total path l files = acts-left most_calls path l (reading, files) (omega arith)

-- What every call keeps holds at the end.
pub acts-keeps :
    (path : Bytes) (l : Luck) (P : Pc → FileMap → Type 0)
    → ((pc : Pc) (files : FileMap) → P pc files → P (act path l pc files).0 (act path l pc files).1)
    → (n : ℕ) (s : Pc × FileMap) → P s.0 s.1
    → P (acts n path l s).0 (acts n path l s).1
unfolding acts
acts-keeps path l P keep zero (pc, files) h = h
acts-keeps path l P keep (suc n) (pc, files) h =
    acts-keeps path l P keep n (act path l pc files) (keep pc files h)

-- What the files hold when a process stands at a call.
abbrev Holds : Bytes → Pc → FileMap → Type 0
Holds path (closing t none) files = lookup (temp_path path) files ≡ some t
Holds path (renaming t) files = lookup (temp_path path) files ≡ some t
Holds path (returned (gave t)) files = lookup path files ≡ some t
Holds path _ files = Unit {0}

act-Holds :
    (path : Bytes) (l : Luck) (pc : Pc) (files : FileMap)
    → Holds path pc files
    → Holds path (act path l pc files).0 (act path l pc files).1
unfolding act
act-Holds path l reading files h = ground arith
act-Holds path l drawing files h = ground arith
act-Holds path l (opening t) files h = ground arith
act-Holds path l (writing t) files h = ground (arith, lookup-insert_self (temp_path path) t files)
act-Holds path l (closing t none) files h = ground arith
act-Holds path l (closing t (some e)) files h = ground arith
act-Holds path l (renaming t) files h =
    ground (arith, lookup-insert_self path t (delete (temp_path path) files))
act-Holds path l (discarding e) files h = tt
act-Holds path l retreating files h = tt
act-Holds path l rereading files h = ground arith
act-Holds path l (returned (gave t)) files h = h
act-Holds path l (returned (failed e)) files h = tt

pub found_again :
    (path : Bytes) (l : Luck) (files : FileMap) (t : Bytes)
    → lookup path files ≡ some t
    → l.unreadable ≡ false
    → ensure_token path l files ≡ (returned (gave t), files)
unfolding ensure_token
found_again path l files t h r = rw (h, r) refl

-- The token that is returned is the content of the file, from then on the answer of every process
-- that can read the file, and such a process changes nothing.
pub ensure_token-again :
    (path : Bytes) (l l' : Luck) (files : FileMap) (t : Bytes)
    → (ensure_token path l files).0 ≡ returned (gave t)
    → l'.unreadable ≡ false
    → let files' = (ensure_token path l files).1 in
      (lookup path files' ≡ some t) × (ensure_token path l' files' ≡ (returned (gave t), files'))
unfolding ensure_token
ensure_token-again path l l' files t h r =
    let there : lookup path (ensure_token path l files).1 ≡ some t =
      subst (λ pc. Holds path pc (ensure_token path l files).1) h
        (acts-keeps path l (Holds path) (act-Holds path l) most_calls (reading, files) tt) in
    (there, found_again path l' (ensure_token path l files).1 t there r)

module _ (path : Bytes) (before : FileMap) where
  -- The ways of a process that finds no token, and a temporary file of another.
  abbrev Stuck : Pc → FileMap → Type 0
  Stuck reading files = files ≡ before
  Stuck drawing files = files ≡ before
  Stuck (opening t) files = files ≡ before
  Stuck (returned (failed e)) files = files ≡ before
  Stuck _ files = ⊥

  module _ (no_token : lookup path before ≡ none) {left_behind : Bytes}
      (there : lookup (temp_path path) before ≡ some left_behind) (l : Luck) where
    act-Stuck :
        (pc : Pc) (files : FileMap)
        → Stuck pc files
        → Stuck (act path l pc files).0 (act path l pc files).1
    unfolding act
    act-Stuck reading files h = ground arith
    act-Stuck drawing files h = ground arith
    act-Stuck (opening t) files h = ground arith
    act-Stuck (returned (failed e)) files h = h
    act-Stuck (returned (gave t)) files h = h
    act-Stuck (writing t) files h = elim h [ ]
    act-Stuck (closing t e) files h = elim h [ ]
    act-Stuck (discarding e) files h = elim h [ ]
    act-Stuck (renaming t) files h = elim h [ ]
    act-Stuck retreating files h = elim h [ ]
    act-Stuck rereading files h = elim h [ ]

    returned-Stuck :
        (a : Answer) (pc : Pc) (files : FileMap)
        → pc ≡ returned a
        → Stuck pc files
        → (e : TokenError) × (pc ≡ returned (failed e)) × (files ≡ before)
    returned-Stuck (failed e) pc files q h = (e, q, subst (λ pc. Stuck pc files) q h)
    returned-Stuck (gave t) pc files q h = absurd (subst (λ pc. Stuck pc files) q h)

    -- Where there is no token, a temporary file that was left behind makes every process fail, and
    -- leaves the files as they are, so that it is never cleared away.
    pub ensure_token_stuck :
        let (pc, files) = ensure_token path l before in
        (e : TokenError) × (pc ≡ returned (failed e)) × (files ≡ before)
    unfolding ensure_token
    ensure_token_stuck =
        let (a, q) = ensure_token_total path l before in
        let (pc, files) = ensure_token path l before in
        returned-Stuck a pc files q
          (acts-keeps path l Stuck act-Stuck most_calls (reading, before) refl)

-- What a process that fails has changed: nothing of the token, and nothing of a temporary file.
abbrev Tidy : Bytes → FileMap → Pc → FileMap → Type 0
Tidy path before reading files = files ≡ before
Tidy path before drawing files = files ≡ before
Tidy path before (opening t) files = files ≡ before
Tidy path before (returned (gave t)) files = Unit {0}
Tidy path before (returned (failed e)) files =
    (lookup path files ≡ lookup path before)
    × (lookup (temp_path path) files ≡ lookup (temp_path path) before)
Tidy path before rereading files =
    (lookup path files ≡ lookup path before)
    × (lookup (temp_path path) files ≡ lookup (temp_path path) before)
Tidy path before _ files =
    (lookup path files ≡ lookup path before) × (lookup (temp_path path) before ≡ none)

module _ (path : Bytes) (before : FileMap) (l : Luck) where
  gone : (files : FileMap) → lookup (temp_path path) (delete (temp_path path) files) ≡ none
  gone files =
      rw (lookup-delete (temp_path path) (temp_path path) files, =ᵇ_refl (temp_path path)) refl

  act-Tidy :
      (pc : Pc) (files : FileMap)
      → Tidy path before pc files
      → Tidy path before (act path l pc files).0 (act path l pc files).1
  unfolding act
  act-Tidy reading files h = ground arith
  act-Tidy drawing files h = ground arith
  act-Tidy (opening t) files h = ground (arith, insert_temp path files [])
  act-Tidy (writing t) files h = elim (Option-cases l.short_write) [
    | inl whole ↦ rw whole (insert_temp path files t ∙ h.0, h.1)
    | inr (n, short) ↦ rw short (insert_temp path files (take n t) ∙ h.0, h.1)
  ]
  act-Tidy (closing t none) files h = ground arith
  act-Tidy (closing t (some e)) files h = ground arith
  act-Tidy (renaming t) files h = ground arith
  act-Tidy (discarding e) files h = ground (arith, delete_temp path files, gone files)
  act-Tidy retreating files h = ground (arith, delete_temp path files, gone files)
  act-Tidy rereading files h = ground arith
  act-Tidy (returned (gave t)) files h = tt
  act-Tidy (returned (failed e)) files h = h

  -- A process that fails leaves the token as it was, and no temporary file that was not there
  -- before.
  pub ensure_token_failed :
      (e : TokenError)
      → (ensure_token path l before).0 ≡ returned (failed e)
      → let files = (ensure_token path l before).1 in
        (lookup path files ≡ lookup path before)
        × (lookup (temp_path path) files ≡ lookup (temp_path path) before)
  unfolding ensure_token
  ensure_token_failed e h =
      subst (λ pc. Tidy path before pc (ensure_token path l before).1) h
        (acts-keeps path l (Tidy path before) act-Tidy most_calls (reading, before) refl)

-- A run leaves every file as it is that is neither the token's nor the temporary one.
pub ensure_token-others :
    (path other : Bytes) (l : Luck) (files : FileMap)
    → path ≢ other
    → temp_path path ≢ other
    → lookup other (ensure_token path l files).1 ≡ lookup other files
unfolding ensure_token
ensure_token-others path other l files not_token not_temp =
    acts-keeps path l (λ pc files'. lookup other files' ≡ lookup other files)
      (λ pc files' h. act-others path other not_token not_temp l pc files' ∙ h) most_calls
      (reading, files) refl

-- A token that is returned is in the file.
pub ensure_token-kept :
    (path : Bytes) (l : Luck) (files : FileMap) (t : Bytes)
    → (ensure_token path l files).0 ≡ returned (gave t)
    → lookup path (ensure_token path l files).1 ≡ some t
ensure_token-kept path l files t h =
    (ensure_token-again path l (record l { unreadable = false }) files t h refl).0
