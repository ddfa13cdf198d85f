-- ===== src/Config/Modes.antt =====
-- ParseFileMode and FormatFileMode of internal/config/config.go. An os.FileMode is a number; its
-- set-user-ID, set-group-ID and sticky bits are not where Unix has them.
pub mod RoundTrip
use kruise_agents_nfs_csi.Prelude.{
  ℕ, ◌+◌, ◌-◌, ◌*◌, ◌/◌, ◌%◌, ◌^◌, Bool, true, false, not, ◌&&◌, ◌||◌, List, [], ◌∷◌, nat_eq, ltb,
  leb, ◌==◌, if◌then◌else◌,
}
use kruise_agents_nfs_csi.Go.Text.{Str}
use kruise_agents_nfs_csi.Go.Errors.{Result, ok, err, text, wrap, map_err, fail_if, ◌>>=◌, ◌>>◌}

-- The masks of package os, and of Unix modes.
abbrev pub mode_setuid : ℕ
mode_setuid = 2 ^ 23

abbrev pub mode_setgid : ℕ
mode_setgid = 2 ^ 22

abbrev pub mode_sticky : ℕ
mode_sticky = 2 ^ 20

abbrev pub unix_setuid : ℕ
unix_setuid = 2 ^ 11

abbrev pub unix_setgid : ℕ
unix_setgid = 2 ^ 10

abbrev pub unix_sticky : ℕ
unix_sticky = 2 ^ 9

-- n&mask != 0 for a mask of one bit
unfoldable pub has_bit : ℕ → ℕ → Bool
has_bit n mask = n / mask % 2 == 1

-- n |= mask for a mask of one bit
unfoldable pub set_bit : ℕ → ℕ → ℕ
unfolding has_bit
set_bit n mask = if has_bit n mask then n else n + mask

-- `if test { n |= mask }`
unfoldable pub set_bit_if : Bool → ℕ → ℕ → ℕ
unfolding set_bit
set_bit_if true mask n = set_bit n mask
set_bit_if false mask n = n

-- (os.FileMode) Perm
abbrev pub perm : ℕ → ℕ
perm mode = mode % 0o1000

-- The loop of strconv.ParseUint in base 8, with the largest value that fits.
unfoldable pub parse_digits : ℕ → ℕ → Str → Result ℕ
parse_digits limit n [] = ok n
parse_digits limit n (c ∷ s) =
    let next = n * 8 + (c - 48) in
    let rest = parse_digits limit next s in
    if not (leb 48 c && leb c 55)
    then err (text "invalid syntax")
    else if ltb limit next
    then err (text "value out of range")
    else rest

-- strconv.ParseUint(value, 8, bits), the limit being 2^bits - 1
unfoldable pub parse_uint_octal : ℕ → Str → Result ℕ
unfolding parse_digits
parse_uint_octal limit [] = err (text "invalid syntax")
parse_uint_octal limit (c ∷ s) = parse_digits limit 0 (c ∷ s)

-- ParseFileMode, from the three tests on the bits on
unfoldable pub file_mode_of : ℕ → ℕ
unfolding set_bit_if has_bit
file_mode_of parsed = set_bit_if (has_bit parsed unix_sticky) mode_sticky (
    set_bit_if (has_bit parsed unix_setgid) mode_setgid
      (set_bit_if (has_bit parsed unix_setuid) mode_setuid (parsed % 0o1000)))

-- ParseFileMode
unfoldable pub parse_file_mode : Str → Result ℕ
unfolding parse_uint_octal
parse_file_mode value = do
  parsed ← map_err (wrap "parse as an octal file mode") (parse_uint_octal (2 ^ 16 - 1) value)
  fail_if (ltb 0o7777 parsed) (text "file mode exceeds 07777")
  fail_if (parsed == 0) (text "file mode must be at least 0001")
  ok (file_mode_of parsed)

-- The Unix mode of an os.FileMode.
unfoldable pub unix_mode_of : ℕ → ℕ
unfolding set_bit_if has_bit
unix_mode_of mode = set_bit_if (has_bit mode mode_sticky) unix_sticky (
    set_bit_if (has_bit mode mode_setgid) unix_setgid
      (set_bit_if (has_bit mode mode_setuid) unix_setuid (perm mode)))

-- fmt.Sprintf("%04o", n) for a number of four octal digits
unfoldable pub four_octal_digits : ℕ → Str
four_octal_digits n = (48 + n / 512 % 8) ∷ (48 + n / 64 % 8) ∷ (48 + n / 8 % 8) ∷ (48 + n % 8) ∷ []

-- FormatFileMode
unfoldable pub format_file_mode : ℕ → Str
unfolding four_octal_digits
format_file_mode mode = four_octal_digits (unix_mode_of mode)
