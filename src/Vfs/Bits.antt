-- ===== src/Vfs/Bits.antt =====
-- pkg/vfs/vfs.go: isWriteFlag and clampPerm, on the bits of their arguments. The open flags are
-- those of Linux.
use viking_ftpd.Prelude.{
  ℕ, zero, suc, ◌+◌, ◌*◌, ◌/◌, ◌%◌, ◌≤◌, ◌<◌, ◌≡◌, arith, Bool, false, not, ◌&&◌, ◌==◌,
  if◌then◌else◌, ◌↔◌,
}

abbrev pub odd : ℕ → Bool
odd a = (a % 2) == 1

-- bit `i` of `a`
abbrev pub bit : ℕ → ℕ → Bool
bit zero a = odd a
bit (suc i) a = bit i (a / 2)

-- the lowest `w` bits of `a & b`
unfoldable pub bit_and : ℕ → ℕ → ℕ → ℕ
bit_and zero a b = 0
bit_and (suc w) a b = (if odd b && odd a then 1 else 0) + 2 * bit_and w (a / 2) (b / 2)

-- os.O_WRONLY | os.O_RDWR | os.O_APPEND | os.O_CREATE | os.O_TRUNC
abbrev pub write_flags : ℕ
write_flags = 1 + 2 + 1024 + 64 + 512

-- os.O_RDWR | os.O_CREATE | os.O_TRUNC
abbrev pub create_flags : ℕ
create_flags = 2 + 64 + 512

-- A flag is an int of 64 bits.
unfoldable pub is_write_flag : ℕ → Bool
unfolding bit_and
is_write_flag flag = not (bit_and 64 flag write_flags == 0)

-- 0644
abbrev pub file_mode : ℕ
file_mode = 420

-- os.FileMode is a uint32.
unfoldable pub clamp_perm : ℕ → ℕ
unfolding bit_and
clamp_perm perm = bit_and 32 perm file_mode

half : (b : Bool) (x : ℕ) → ((if b then 1 else 0) + 2 * x) / 2 ≡ x
half b x = ground arith

lowest : (b : Bool) (x : ℕ) → odd ((if b then 1 else 0) + 2 * x) ≡ b
lowest b x = ground arith

bit_and-le : (w a b : ℕ) → bit_and w a b ≤ b
unfolding bit_and
bit_and-le zero a b = omega arith
bit_and-le (suc w) a b = ground (arith, bit_and-le w (a / 2) (b / 2))

bit-bit_and : (w i a b : ℕ) → i < w → bit i (bit_and w a b) ≡ (bit i b && bit i a)
unfolding bit_and
bit-bit_and zero i a b h = absurd (omega arith)
bit-bit_and (suc w) zero a b h = lowest (odd b && odd a) (bit_and w (a / 2) (b / 2))
bit-bit_and (suc w) (suc i) a b h =
    rw (half (odd b && odd a) (bit_and w (a / 2) (b / 2)))
      (bit-bit_and w i (a / 2) (b / 2) (omega arith))

-- The mode of a created file has exactly the bits of the asked one that 0644 has, so it is at most
-- 0644 and never writable for the group or for others.
pub clamp_perm-bit :
    (perm i : ℕ)
    → i < 32
    → (bit i (clamp_perm perm) ≡ (bit i file_mode && bit i perm))
      × (clamp_perm perm ≤ file_mode)
      × (bit 4 (clamp_perm perm) ≡ false)
      × (bit 1 (clamp_perm perm) ≡ false)
unfolding clamp_perm
clamp_perm-bit perm i h = (
  bit-bit_and 32 i perm file_mode h,
  bit_and-le 32 perm file_mode,
  bit-bit_and 32 4 perm file_mode (omega arith),
  bit-bit_and 32 1 perm file_mode (omega arith),
)

-- An open is a reading one exactly if none of the bits WRONLY, RDWR, CREATE, TRUNC and APPEND is
-- set.
pub is_write_flag-bit :
    (flag : ℕ)
    → (is_write_flag flag ≡ false) ↔ (
        (bit 0 flag ≡ false)
        × (bit 1 flag ≡ false)
        × (bit 6 flag ≡ false)
        × (bit 9 flag ≡ false)
        × (bit 10 flag ≡ false))
unfolding is_write_flag bit_and
is_write_flag-bit flag = ground arith
