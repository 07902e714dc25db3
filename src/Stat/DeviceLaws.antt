-- ===== src/Stat/DeviceLaws.antt =====
-- Device numbers as Linux programs take them apart.
use libc6_shim.Prelude.{ℕ, ◌+◌, ◌*◌, ◌/◌, ◌%◌, ◌^◌, ◌<◌, bit_and, bit_or, ◌≡◌, ◌∙◌, ap, sym, arith}
use libc6_shim.Bits.{bit_and-low, bit_and-high, bit_or-apart, bit_or_assoc, bit_or_comm}
use libc6_shim.Stat.{make_dev_id}

-- The macros `major` and `minor` of Linux's C library: the major number is in the bits 8 to 19 and
-- 44 to 63 of the word, and the minor one in the others.
abbrev pub linux_major : ℕ → ℕ
linux_major dev = (dev / 2 ^ 8) % 2 ^ 12 + (dev / 2 ^ 44) * 2 ^ 12

abbrev pub linux_minor : ℕ → ℕ
linux_minor dev = dev % 2 ^ 8 + ((dev / 2 ^ 20) % 2 ^ 24) * 2 ^ 8

exchange : (a b c d : ℕ) → bit_or (bit_or (bit_or a b) c) d ≡ bit_or (bit_or (bit_or c a) d) b
exchange a b c d =
    ap (λ x. bit_or x d) (bit_or_comm (bit_or a b) c ∙ sym (bit_or_assoc c a b))
    ∙ (bit_or_assoc (bit_or c a) b d
        ∙ (ap (λ x. bit_or (bit_or c a) x) (bit_or_comm b d) ∙ sym (bit_or_assoc (bit_or c a) d b)))

-- Nothing of the two numbers is lost, and nothing overlaps.
make_dev_id-sum :
    (major minor : ℕ)
    → major < 2 ^ 32
    → minor < 2 ^ 32
    → make_dev_id major minor
      ≡ minor % 2 ^ 8
        + (major % 2 ^ 12) * 2 ^ 8
        + (minor / 2 ^ 8) * 2 ^ 20
        + (major / 2 ^ 12) * 2 ^ 44
unfolding make_dev_id
make_dev_id-sum major minor h k =
    let a = bit_and major 0x0000_0fff * 2 ^ 8 in
    let b = bit_and major 0xffff_f000 * 2 ^ 32 in
    let e = bit_and minor 0x0000_00ff * 2 ^ 0 in
    let d = bit_and minor 0xffff_ff00 * 2 ^ 12 in
    let major_low : bit_and major 0x0000_0fff ≡ major % 2 ^ 12 = bit_and-low 12 major in
    let major_high : bit_and major 0xffff_f000 ≡ (major / 2 ^ 12) * 2 ^ 12 =
      bit_and-high 32 12 major (omega arith) h in
    let minor_low : bit_and minor 0x0000_00ff ≡ minor % 2 ^ 8 = bit_and-low 8 minor in
    let minor_high : bit_and minor 0xffff_ff00 ≡ (minor / 2 ^ 8) * 2 ^ 8 =
      bit_and-high 32 8 minor (omega arith) k in
    let first : bit_or e a ≡ e + a =
      bit_or-apart 8 e (bit_and major 0x0000_0fff) (omega (arith, minor_low)) in
    let d_shifted : d ≡ (minor / 2 ^ 8) * 2 ^ 20 = omega (arith, minor_high) in
    let b_shifted : b ≡ (major / 2 ^ 12) * 2 ^ 44 = omega (arith, major_high) in
    let second : bit_or (e + a) d ≡ e + a + d =
      rw d_shifted
        (bit_or-apart 20 (e + a) (minor / 2 ^ 8) (omega (arith, minor_low, major_low))) in
    let third : bit_or (e + a + d) b ≡ e + a + d + b = rw b_shifted (
      bit_or-apart 44 (e + a + d) (major / 2 ^ 12)
        (omega (arith, minor_low, major_low, d_shifted, k))) in
    exchange a b e d
    ∙ (ap (λ x. bit_or (bit_or x d) b) first
        ∙ (ap (λ x. bit_or x b) second
            ∙ (third ∙ omega (arith, minor_low, major_low, d_shifted, b_shifted))))

-- A Linux program finds in a device number the major and the minor number, of 32 bits, that it was
-- made of, and the number has 64 bits.
pub make_dev_id_decodes :
    (major minor : ℕ)
    → major < 2 ^ 32
    → minor < 2 ^ 32
    → (linux_major (make_dev_id major minor) ≡ major)
      × (linux_minor (make_dev_id major minor) ≡ minor)
      × (make_dev_id major minor < 2 ^ 64)
make_dev_id_decodes major minor h k = omega (arith, h, k, make_dev_id-sum major minor h k)
