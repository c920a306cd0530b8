-- ===== src/Text/Ascii.antt =====
-- The Unicode tables for the runs.
use Prim.Native.String.{String}
use memory_network.Prelude.{
  ◌≡◌, refl, Char, code, Bool, true, false, ◌&&◌, ◌||◌, inl, inr, if◌then◌else◌, leb, str_eq,
  eq_iff, Bool-cases,
}
use memory_network.Text.{Unicode, is_plain}

-- A part of Python's tables: enough of `str.lower` for the words below, and ASCII `str.isalnum`.
unfoldable pub ascii_lower : String → String
ascii_lower s =
    if str_eq s "TASK"
    then "task"
    else if str_eq s "Repo"
    then "repo"
    else if str_eq s "Completed"
    then "completed"
    else s

differs : (s w : String) → is_plain s ≡ true → is_plain w ≡ false → str_eq s w ≡ false
differs s w h n = elim (Bool-cases (str_eq s w)) [
  | inr e ↦ e
  | inl e ↦ absurd (let z = rw ((eq_iff s w).0 e) at h in cc)
]

pub ascii_lower_plain : (s : String) → is_plain s ≡ true → ascii_lower s ≡ s
unfolding ascii_lower is_plain
ascii_lower_plain s h =
    rw (differs s "TASK" h refl, differs s "Repo" h refl, differs s "Completed" h refl)

unfoldable pub ascii_alnum : Char → Bool
ascii_alnum c =
    let n = code c in
    (leb b'0' n && leb n b'9') || (leb b'A' n && leb n b'Z') || (leb b'a' n && leb n b'z')

instance abbrev pub ascii : Unicode
ascii = record { lower = ascii_lower; is_alnum = ascii_alnum; lower_plain = ascii_lower_plain }
