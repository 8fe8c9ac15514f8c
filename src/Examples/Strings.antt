-- ===== src/Examples/Strings.antt =====
-- The theorems on internal/safestring at concrete inputs.
use opx.Prelude.{◌<◌, ◌+◌, length, ◌≡◌, refl, some, List, [], ◌∷◌, arith}
use opx.Prelude.Int.{pos}
use opx.Prelude.Bytes.{codes}
use opx.SafeString.{SafeString, new_string, zero_data}
use opx.SafeString.Content.{Fits}
use opx.SafeString.Zeroing.{
  IsWiped, IsClean, new_string-IsClean, Write, appends, truncates, writes, zero_data-writes-IsWiped,
}

abbrev old : SafeString
old = new_string (codes "abc")

old-Fits : Fits old
unfolding new_string
old-Fits = ground arith

old_len : old.len ≡ some 3
unfolding new_string
old_len = refl

old_full : length old.buffer < 3 + length (codes "def")
unfolding new_string
old_full = ground arith

old-IsClean : IsClean old
old-IsClean = new_string-IsClean (codes "abc")

abbrev changes : List Write
changes = truncates (pos 1) ∷ appends 4 (codes "longer") ∷ []

zero_data-writes-IsWiped_example : IsWiped (zero_data (writes old changes))
zero_data-writes-IsWiped_example = zero_data-writes-IsWiped (codes "abc") changes
