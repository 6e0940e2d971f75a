-- ===== src/Libc/Buffers.antt =====
-- `strcpy` and `strcat` into a char array of a given size, which must keep room for the NUL.
use numafac.Libc.Text.{TextBytes}
use numafac.Prelude.{
  ℕ, ◌+◌, ◌≤◌, ◌<◌, ◌≡◌, ◌++◌, arith, ltb, if◌then◌else◌, length, length-append, overflow, Run, ok,
  fault,
}

-- strcpy(buffer, s), at `char buffer[cap]`.
unfoldable pub strcpy : ℕ → TextBytes → Run TextBytes
strcpy cap s = if ltb (length s) cap then ok s else fault overflow

-- strcat(buffer, s).
unfoldable pub strcat : ℕ → TextBytes → TextBytes → Run TextBytes
unfolding strcpy
strcat cap buffer s = strcpy cap (buffer ++ s)

pub strcpy-ok : (cap : ℕ) (s : TextBytes) → length s < cap → strcpy cap s ≡ ok s
unfolding strcpy
strcpy-ok cap s h = ground arith

pub strcat-ok :
    (cap : ℕ) (buffer s : TextBytes)
    → length buffer + length s < cap
    → strcat cap buffer s ≡ ok (buffer ++ s)
unfolding strcat
strcat-ok cap buffer s h = ground (arith, length-append buffer s)

pub strcat-overflow :
    (cap : ℕ) (buffer s : TextBytes)
    → cap ≤ length buffer + length s
    → strcat cap buffer s ≡ fault overflow
unfolding strcat
strcat-overflow cap buffer s h = ground (arith, length-append buffer s)
