-- ===== src/Ioctl/Laws.antt =====
-- Which request reaches the native ioctl.
use libc6_shim.Prelude.{
  ◌-◌, ap, ◌≢◌, ne→==, bit_or, bit_and, ℕ, zero, suc, ◌+◌, ◌*◌, ◌/◌, ◌%◌, ◌^◌, ◌≤◌, ◌<◌, ◌≡◌, ◌⊎◌,
  inl, inr, refl, ◌∙◌, true, ◌==◌, if◌then◌else◌, arith,
}
use libc6_shim.Bits.{bit_or_comm, bit_or-apart, bit_and-low}
use libc6_shim.Outcome.{ok}
use libc6_shim.Process.{Process}
use libc6_shim.Ioctl.{
  IoctlNumbers, linux_ioc_dir, linux_ioc_len, linux_ioc_grp, linux_ioc_cmd, linux_to_native_dir,
  linux_to_native_req, is_driver_command, NativeIoctl, pass, shim_ioctl,
}

-- FreeBSD's <sys/ioccom.h>: the parts are joined by `|`; the direction is one of its three bits 29, 30
-- and 31, or two of them, above the 13 bits of the length.
pub record IsIoctlNumbers (c : IoctlNumbers) : Type 0 where
  pub fields :
      (dir grp cmd len : ℕ)
      → c.ioc dir grp cmd len
        ≡ bit_or (bit_or (bit_or dir (bit_and len (2 ^ 13 - 1) * 2 ^ 16)) (grp * 2 ^ 8)) cmd
  pub void_lem : c.ioc_void ≡ 2 ^ 29
  pub in_lem : c.ioc_in ≡ 2 ^ 31
  pub out_lem : c.ioc_out ≡ 2 ^ 30

-- FreeBSD's bits for the direction: a Linux program writes where the kernel reads in.
abbrev pub direction_bits : ℕ → ℕ
direction_bits linux_dir =
    if linux_dir == 0 then 2 ^ 29 else (linux_dir % 2) * 2 ^ 31 + (linux_dir / 2) * 2 ^ 30

direction-multiple : (d : ℕ) → direction_bits d ≡ (direction_bits d / 2 ^ 29) * 2 ^ 29
direction-multiple zero = refl
direction-multiple (suc d) = omega (arith, above (suc d) (omega arith))
  where
    above : (d : ℕ) → d ≢ 0 → direction_bits d ≡ (d % 2) * 2 ^ 31 + (d / 2) * 2 ^ 30
    above d ne = rw (ne→== d 0 ne) refl

or_below : (k a b s : ℕ) → a < 2 ^ k → s ≡ b * 2 ^ k → bit_or s a ≡ s + a
or_below k a b s h e =
    bit_or_comm s a ∙ (ap (λ x. bit_or a x) e ∙ (bit_or-apart k a b h ∙ omega (arith, e)))

-- Parts in places of their own are added.
added :
    (t len grp cmd dir : ℕ)
    → dir ≡ t * 2 ^ 29
    → grp < 2 ^ 8
    → cmd < 2 ^ 8
    → bit_or (bit_or (bit_or dir (bit_and len (2 ^ 13 - 1) * 2 ^ 16)) (grp * 2 ^ 8)) cmd
      ≡ dir + (len % 2 ^ 13) * 2 ^ 16 + grp * 2 ^ 8 + cmd
added t len grp cmd dir e h k =
    let low : bit_and len (2 ^ 13 - 1) ≡ len % 2 ^ 13 = bit_and-low 13 len in
    let l = (len % 2 ^ 13) * 2 ^ 16 in
    let first : bit_or dir l ≡ dir + l = or_below 29 l t dir (omega arith) e in
    let second : bit_or (dir + l) (grp * 2 ^ 8) ≡ dir + l + grp * 2 ^ 8 =
      or_below 16 (grp * 2 ^ 8) (len % 2 ^ 13 + t * 2 ^ 13) (dir + l) (omega (arith, h))
        (omega (arith, e)) in
    let third : bit_or (dir + l + grp * 2 ^ 8) cmd ≡ dir + l + grp * 2 ^ 8 + cmd =
      or_below 8 cmd (grp + (len % 2 ^ 13) * 2 ^ 8 + t * 2 ^ 21) (dir + l + grp * 2 ^ 8) k
        (omega (arith, e)) in
    ap (λ x. bit_or (bit_or (bit_or dir (x * 2 ^ 16)) (grp * 2 ^ 8)) cmd) low
    ∙ (ap (λ x. bit_or (bit_or x (grp * 2 ^ 8)) cmd) first
        ∙ (ap (λ x. bit_or x cmd) second ∙ third))

module _ (c : IoctlNumbers) (v : IsIoctlNumbers c) where
  dir-bits : (d : ℕ) → d < 4 → linux_to_native_dir c d ≡ ok (direction_bits d)
  unfolding linux_to_native_dir
  dir-bits zero h = rw v.void_lem refl
  dir-bits (suc zero) h = rw v.in_lem refl
  dir-bits (suc (suc zero)) h = rw v.out_lem refl
  dir-bits (suc (suc (suc zero))) h = rw (v.in_lem, v.out_lem) refl
  dir-bits (suc (suc (suc (suc d)))) h = absurd (omega arith)

  -- The number, the group and the length keep their places.
  req-bits :
      (request : ℕ)
      → linux_ioc_len request < 2 ^ 13
      → linux_to_native_req c request
        ≡ ok (direction_bits (linux_ioc_dir request) + request % 2 ^ 29)
  unfolding linux_to_native_req
  req-bits request h =
      let dir = direction_bits (linux_ioc_dir request) in
      let placed : c.ioc dir (linux_ioc_grp request) (linux_ioc_cmd request) (linux_ioc_len request)
          ≡ dir + request % 2 ^ 29 =
        v.fields dir (linux_ioc_grp request) (linux_ioc_cmd request) (linux_ioc_len request)
        ∙ (added (dir / 2 ^ 29) (linux_ioc_len request) (linux_ioc_grp request)
              (linux_ioc_cmd request) dir (direction-multiple (linux_ioc_dir request)) (omega arith)
              (omega arith)
            ∙ omega (arith, h)) in
      rw (dir-bits (linux_ioc_dir request) (omega arith)) (rw placed refl)

nvidia_command : (x : ℕ) → 0x4600 ≤ x → x ≤ 0x46ff → is_driver_command x ≡ true
unfolding is_driver_command
nvidia_command x h k = ground arith

drm_command : (x : ℕ) → 0x6400 ≤ x → x ≤ 0x64ff → is_driver_command x ≡ true
unfolding is_driver_command
drm_command x h k = ground arith

-- The groups of NVIDIA's driver and of DRM.
driver-group :
    (request : ℕ)
    → (linux_ioc_grp request ≡ 0x46) ⊎ (linux_ioc_grp request ≡ 0x64)
    → is_driver_command (request % 2 ^ 16) ≡ true
driver-group request (inl g) =
    nvidia_command (request % 2 ^ 16) (omega (arith, g)) (omega (arith, g))
driver-group request (inr g) = drm_command (request % 2 ^ 16) (omega (arith, g)) (omega (arith, g))

module _ {W : Type 0} (c : IoctlNumbers) (ioctl : NativeIoctl W) where
  -- A request in the groups of NVIDIA's driver and of DRM, whose length is below 2 ^ 13, reaches the
  -- native ioctl with its number, its group and its length in their places, and with FreeBSD's bits
  -- for the direction in place of Linux's.
  pub ioctl_forwards :
      (fd request arg : ℕ) (p : Process W)
      → IsIoctlNumbers c
      → (linux_ioc_grp request ≡ 0x46) ⊎ (linux_ioc_grp request ≡ 0x64)
      → linux_ioc_len request < 2 ^ 13
      → shim_ioctl c ioctl fd request arg p
        ≡ ok (pass c ioctl fd (direction_bits (linux_ioc_dir request) + request % 2 ^ 29) arg p)
  unfolding shim_ioctl
  ioctl_forwards fd request arg p v g h = rw (driver-group request g, req-bits c v request h) refl
