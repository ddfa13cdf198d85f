-- ===== src/Config/Modes/RoundTrip.antt =====
-- ParseFileMode and FormatFileMode of internal/config/config.go are inverse to each other.
use kruise_agents_nfs_csi.Prelude.{
  ℕ, zero, suc, ◌+◌, ◌-◌, ◌*◌, ◌/◌, ◌%◌, ◌^◌, ◌<◌, ◌≡◌, refl, ap, sym, ◌∙◌, nat_eq, ℕ_discrete,
  arith, ◌==◌,
}
use kruise_agents_nfs_csi.Go.Text.{Str}
use kruise_agents_nfs_csi.Go.Errors.{ok}
use kruise_agents_nfs_csi.Config.Modes.{
  mode_setuid, mode_setgid, mode_sticky, has_bit, set_bit, set_bit_if, parse_digits,
  parse_uint_octal, file_mode_of, parse_file_mode, unix_mode_of, four_octal_digits,
  format_file_mode,
}

-- Setting a bit that is not set adds the mask.
set_bit_fresh :
    (t mask n : ℕ) → t < 2 → n / mask % 2 ≡ 0 → set_bit_if (t == 1) mask n ≡ n + mask * t
unfolding set_bit_if set_bit has_bit ℕ_discrete
set_bit_fresh zero mask n h f = omega arith
set_bit_fresh (suc zero) mask n h f = ground (arith, f)
set_bit_fresh (suc (suc t)) mask n h f = absurd (omega arith)

file_mode_of-eq :
    (v : ℕ)
    → file_mode_of v
      ≡ v % 512
        + mode_setuid * (v / 2048 % 2)
        + mode_setgid * (v / 1024 % 2)
        + mode_sticky * (v / 512 % 2)
unfolding file_mode_of has_bit
file_mode_of-eq v =
    let a = set_bit_fresh (v / 2048 % 2) mode_setuid (v % 512) (omega arith) (omega arith) in
    let b =
      set_bit_fresh (v / 1024 % 2) mode_setgid (v % 512 + mode_setuid * (v / 2048 % 2))
        (omega arith) (omega arith) in
    let c =
      set_bit_fresh (v / 512 % 2) mode_sticky
        (v % 512 + mode_setuid * (v / 2048 % 2) + mode_setgid * (v / 1024 % 2)) (omega arith)
        (omega arith) in
    rw (a, b, c) refl

unix_mode_of-eq :
    (m : ℕ)
    → unix_mode_of m
      ≡ m % 512
        + 2048 * (m / mode_setuid % 2)
        + 1024 * (m / mode_setgid % 2)
        + 512 * (m / mode_sticky % 2)
unfolding unix_mode_of has_bit
unix_mode_of-eq m =
    let a = set_bit_fresh (m / mode_setuid % 2) 2048 (m % 512) (omega arith) (omega arith) in
    let b =
      set_bit_fresh (m / mode_setgid % 2) 1024 (m % 512 + 2048 * (m / mode_setuid % 2))
        (omega arith) (omega arith) in
    let c =
      set_bit_fresh (m / mode_sticky % 2) 512
        (m % 512 + 2048 * (m / mode_setuid % 2) + 1024 * (m / mode_setgid % 2)) (omega arith)
        (omega arith) in
    rw (a, b, c) refl

-- The Unix mode of the os.FileMode that a Unix mode has been parsed to.
pub unix_mode_of-file_mode_of : (v : ℕ) → v < 0o10000 → unix_mode_of (file_mode_of v) ≡ v
unix_mode_of-file_mode_of v h = omega (arith, unix_mode_of-eq (file_mode_of v), file_mode_of-eq v)

-- A Unix mode has four octal digits.
pub unix_mode_of-lt : (m : ℕ) → unix_mode_of m < 0o10000
unix_mode_of-lt m = omega (arith, unix_mode_of-eq m)

parse-four_octal_digits :
    (n : ℕ) → n < 0o10000 → parse_uint_octal (2 ^ 16 - 1) (four_octal_digits n) ≡ ok n
unfolding parse_uint_octal four_octal_digits parse_digits
parse-four_octal_digits n h = ground arith

pub parse_file_mode-inv :
    (value : Str) (m v : ℕ)
    → parse_uint_octal (2 ^ 16 - 1) value ≡ ok v
    → parse_file_mode value ≡ ok m
    → (0 < v) × (v < 0o10000) × (file_mode_of v ≡ m)
unfolding parse_file_mode
parse_file_mode-inv value m v r h = (ground arith, ground arith, ground arith)

parse_file_mode_of :
    (value : Str) (v : ℕ)
    → parse_uint_octal (2 ^ 16 - 1) value ≡ ok v
    → 0 < v
    → v < 0o10000
    → parse_file_mode value ≡ ok (file_mode_of v)
unfolding parse_file_mode
parse_file_mode_of value v r lo hi = ground arith

-- A mode that is parsed lies between 0001 and 07777, stands for that very Unix mode, and comes back
-- when what it is formatted to is parsed.
pub parse-format_file_mode :
    (value : Str) (m v : ℕ)
    → parse_uint_octal (2 ^ 16 - 1) value ≡ ok v
    → parse_file_mode value ≡ ok m
    → (0 < v) × (v < 0o10000) × (unix_mode_of m ≡ v) × (parse_file_mode (format_file_mode m) ≡ ok m)
unfolding format_file_mode
parse-format_file_mode value m v r h =
    let (lo, hi, e) = parse_file_mode-inv value m v r h in
    let u = ap unix_mode_of (sym e) ∙ unix_mode_of-file_mode_of v hi in
    (
      lo,
      hi,
      u,
      parse_file_mode_of (four_octal_digits (unix_mode_of m)) v
            (rw u (parse-four_octal_digits v hi)) lo hi
          ∙ ap ok e,
    )
