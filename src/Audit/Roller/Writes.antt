-- ===== src/Audit/Roller/Writes.antt =====
-- What a write to the audit log changes.
use mathlib.Core.List.{append-nil}
use mathlib.Core.Path.{subst}
use opx.Prelude.{
  ℕ, ◌+◌, ◌<◌, false≢true, ◌≡◌, ◌≢◌, refl, sym, ap, ◌∙◌, Bool, true, false, ◌&&◌, Option, none,
  some, [], ◌∷◌, ◌++◌, arith, length, get_elem?, Bool-cases, Option-cases, inl, inr, if◌then◌else◌,
  length-append, length-set, get_elem?-set_self, get_elem?-set_ne, get_elem?-append_left,
  get_elem?-append_length, get_elem?_of_lt,
}
use opx.Prelude.Int.{ℤ, pos, ltb_ℤ}
use opx.Prelude.Bytes.{Bytes, ◌=ᵇ◌, =ᵇ_iff}
use opx.Dict.{lookup, lookup-insert, lookup-insert_self}
use opx.Audit.Roller.{
  Calendar, Disk, Roller, RollerError, Luck, log_name, content, open_named, open_file, append_to,
  read_inode, read_log, is_open, rotate_if_needed, append_short, write_open, write_rotated, write,
}

-- The files of the names: each there, and with one name.
pub record IsSound (disk : Disk) : Type 0 where
  pub within : (n : Bytes) (i : ℕ) → lookup n disk.names ≡ some i → i < length disk.contents
  pub distinct :
      (n m : Bytes) (i : ℕ) → lookup n disk.names ≡ some i → lookup m disk.names ≡ some i → n ≡ m

-- The open file is the one with the name of the day.
abbrev pub IsLinked : Roller → Disk → Type 0
IsLinked r disk =
    (i : ℕ) → r.current_file ≡ some i → lookup (log_name r.current_date) disk.names ≡ some i

some-content : (o : Option Bytes) (b : Bytes) → o ≡ some b → some (content o) ≡ o
unfolding content
some-content none b h = absurd (ground arith)
some-content (some b') b h = refl

-- The files of `disk'` read as those of `disk`, but for `name`, which reads as the bytes from
-- before, none where there was no such file, with `more` behind them.
pub record Extends (name more : Bytes) (disk disk' : Disk) : Type 0 where
  pub same_as : (n : Bytes) → (name =ᵇ n) ≡ false → read_log n disk' ≡ read_log n disk
  pub grown : read_log name disk' ≡ some (content (read_log name disk) ++ more)

module _ (name : Bytes) (disk : Disk) (sound : IsSound disk) where
  open_there : (i : ℕ) → lookup name disk.names ≡ some i → Extends name [] disk disk
  unfolding read_log read_inode
  open_there i h =
      let (b, g) = get_elem?_of_lt disk.contents i (sound.within name i h) in
      let there : read_log name disk ≡ some b = rw (h, g) refl in
      record {
        same_as = λ n o. refl;
        grown =
            rw (append-nil (content (read_log name disk)))
              (sym (some-content (read_log name disk) b there));
      }

  module _ (h : lookup name disk.names ≡ none) where
    abbrev new_disk : Disk
    new_disk = (open_named name disk none).1

    new-reads : (n : Bytes) → (name =ᵇ n) ≡ false → read_log n new_disk ≡ read_log n disk
    unfolding read_log read_inode open_named
    new-reads n o = elim (Option-cases (lookup n disk.names)) [
      | inl e ↦ rw (lookup-insert name n (length disk.contents) disk.names, o, e) refl
      | inr (i, e) ↦
          rw (lookup-insert name n (length disk.contents) disk.names, o, e)
            (get_elem?-append_left disk.contents ([] ∷ []) i (sound.within n i e))
    ]

    open_new : Extends name [] disk new_disk
    unfolding read_log read_inode open_named content
    open_new = record {
      same_as = new-reads;
      grown =
          rw (lookup-insert_self name (length disk.contents) disk.names, h)
            (get_elem?-append_length disk.contents []);
    }

    new-lookup :
        (n : Bytes)
        → lookup n new_disk.names
          ≡ (if name =ᵇ n then some (length disk.contents) else lookup n disk.names)
    unfolding open_named
    new-lookup n = lookup-insert name n (length disk.contents) disk.names

    new-length : length new_disk.contents ≡ length disk.contents + 1
    unfolding open_named
    new-length = length-append disk.contents ([] ∷ [])

    new-IsSound : IsSound new_disk
    new-IsSound = record {
      within = λ n i e. ground (arith, new-lookup n, new-length, sound.within n i);
      distinct = λ n m i e f. ground (
        arith,
        new-lookup n,
        new-lookup m,
        =ᵇ_iff name n,
        =ᵇ_iff name m,
        sound.within n i,
        sound.within m i,
        sound.distinct n m i,
      );
    }

  module _ (i : ℕ) (h : lookup name disk.names ≡ some i) (more : Bytes) where
    append-Extends : Extends name more disk (append_to i more disk)
    unfolding read_log read_inode append_to
    append-Extends = record {
      same_as = λ n o. elim (Option-cases (lookup n disk.names)) [
        | inl e ↦ rw e refl
        | inr (j, e) ↦
            let ne : i ≢ j = λ q. absurd (
              false≢true (sym o ∙ (=ᵇ_iff name n).1 (sound.distinct name n j (h ∙ ap some q) e))) in
            rw e (get_elem?-set_ne disk.contents i j _ ne)
      ];
      grown = rw h (get_elem?-set_self disk.contents i _ (sound.within name i h));
    }

    append-IsSound : IsSound (append_to i more disk)
    unfolding append_to
    append-IsSound = record {
      within = λ n j e.
          rw (length-set disk.contents i (content (get_elem? disk.contents i) ++ more))
            (sound.within n j e);
      distinct = sound.distinct;
    }

-- Which file a name is after it was opened.
open-cases :
    (name : Bytes) (disk : Disk)
    → IsSound disk
    → let (i, disk') = open_file name disk in
      IsSound disk' × Extends name [] disk disk' × (lookup name disk'.names ≡ some i)
unfolding open_file open_named
open-cases name disk sound = elim (Option-cases (lookup name disk.names)) [
  | inl e ↦ rw e (
    new-IsSound name disk sound e,
    open_new name disk sound e,
    lookup-insert_self name (length disk.contents) disk.names,
  )
  | inr (i, e) ↦ rw e (sound, open_there name disk sound i e, e)
]

Extends-trans :
    (name more : Bytes) (d d' d'' : Disk)
    → Extends name [] d d'
    → Extends name more d' d''
    → Extends name more d d''
unfolding content
Extends-trans name more d d' d'' x y = record {
  same_as = λ n o. y.same_as n o ∙ x.same_as n o;
  grown =
      y.grown
      ∙ ap (λ o. some (content o ++ more)) x.grown
      ∙ ap (λ c. some (c ++ more)) (append-nil (content (read_log name d)));
}

-- No failure.
abbrev pub fortunate : Luck
fortunate = record { opens = true; short_write = none }

module _ (cal : Calendar) (data_bytes : Bytes) (now : ℤ) (before : Disk) where
  abbrev pub Written : (Option RollerError × Bool) × Roller × Disk → Type 0
  Written ((e, started), r, disk) =
      (e ≡ none)
      × Extends (log_name (cal.format_date now)) data_bytes before disk
      × IsSound disk
      × IsLinked r disk
      × (r.current_date ≡ cal.format_date now)

  rotated-Written :
      (started : Bool) (r : Roller) (disk : Disk) (i : ℕ)
      → IsSound disk
      → Extends (log_name (cal.format_date now)) [] before disk
      → r.current_file ≡ some i
      → r.current_date ≡ cal.format_date now
      → lookup (log_name (cal.format_date now)) disk.names ≡ some i
      → Written (write_rotated cal data_bytes none ((none, started), r, disk))
  unfolding write_rotated write_open append_short append_to
  rotated-Written started r disk i sound opened file date linked =
      let name = log_name (cal.format_date now) in
      let still : (j : ℕ) → some i ≡ some j → lookup (log_name r.current_date) disk.names ≡ some j =
        λ j e. rw date (linked ∙ e) in
      rw file (
        refl,
        Extends-trans name data_bytes before disk (append_to i data_bytes disk) opened
            (append-Extends name disk sound i linked data_bytes),
        append-IsSound name disk sound i linked data_bytes,
        still,
        date,
      )

  -- A write that meets no failure puts the bytes behind those of the log of the day, which it makes where there is
  -- none, and leaves every other file as it was; this holds while no file has two names and the open file is the one with the name of its day,
  -- and that holds afterwards again.
  pub write-appends :
      (r : Roller)
      → IsSound before
      → IsLinked r before
      → Written (write cal data_bytes now fortunate (r, before))
  unfolding write rotate_if_needed is_open
  write-appends r sound linked =
      let name = log_name (cal.format_date now) in
      let (sound', opened, there) = open-cases name before sound in
      elim (Bool-cases ((cal.format_date now =ᵇ r.current_date) && is_open r.current_file)) [
        | inl same ↦
            let dates : (cal.format_date now =ᵇ r.current_date) ≡ true = ground (arith, same) in
            let date : r.current_date ≡ cal.format_date now =
              sym ((=ᵇ_iff (cal.format_date now) r.current_date).0 dates) in
            elim (Option-cases r.current_file) [
              | inl none_open ↦ absurd (false≢true (sym (closed none_open) ∙ same))
              | inr (i, file) ↦
                  let named : lookup name before.names ≡ some i =
                    subst (λ x. lookup (log_name x) before.names ≡ some i) date (linked i file) in
                  rw same (
                    rotated-Written false r before i sound (open_there name before sound i named)
                      file date named)
            ]
        | inr new ↦ rw new (
            rotated-Written (ltb_ℤ (pos 0) r.config.max_days)
              (record r {
                current_file = some (open_file name before).0;
                current_date = cal.format_date now;
              })
              (open_file name before).1 (open_file name before).0 sound' opened refl refl there)
      ]
    where
      closed :
          r.current_file ≡ none
          → ((cal.format_date now =ᵇ r.current_date) && is_open r.current_file) ≡ false
      closed e = rw e (ground arith)
