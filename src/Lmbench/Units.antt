-- ===== src/Lmbench/Units.antt =====
-- The sizes with a unit that the programs of lmbench3 take as arguments.
use numafac.Libc.{TextBytes, codes, is_digit, decimal}
use numafac.Libc.RoundTrip.{scan_int-decimal}
use numafac.Lmbench.{last, scaled, bytes_from, bytes}
use numafac.Prelude.{ℕ, ◌*◌, ◌%◌, ◌^◌, ◌<◌, ◌≡◌, refl, ◌∙◌, false, [], ◌∷◌, ◌++◌, arith, pos, ulong}

last-append : (s : TextBytes) (c : ℕ) → last (s ++ c ∷ []) ≡ c
unfolding last
last-append [] c = refl
last-append (d ∷ []) c = refl
last-append (d ∷ e ∷ s) c = last-append (e ∷ s) c

-- A numeral with a letter behind it.
bytes-letter :
    (n c : ℕ) → is_digit c ≡ false → bytes (decimal n ++ c ∷ []) ≡ scaled c (ulong (pos n))
unfolding bytes bytes_from
bytes-letter n c h = rw (last-append (decimal n) c, scan_int-decimal n (c ∷ []) h) refl

-- A number n that is printed with a k behind it is read by bytes as n times 1024, and with an m as
-- n times 1024 * 1024, while these are below 2 ^ 64; with a b it is n.
pub bytes-decimal :
    (n : ℕ)
    → n * 1_048_576 < 2 ^ 64
    → (bytes (decimal n ++ codes "k") ≡ n * 1024)
      × (bytes (decimal n ++ codes "m") ≡ n * 1_048_576)
      × (bytes (decimal n ++ codes "b") ≡ n)
unfolding scaled is_digit
bytes-decimal n h =
    (bytes-letter n 107 refl ∙ kilo, bytes-letter n 109 refl ∙ mega, bytes-letter n 98 refl ∙ plain)
  where
    kilo : n % 2 ^ 64 * 1024 % 2 ^ 64 ≡ n * 1024
    kilo = omega (arith, h)

    mega : n % 2 ^ 64 * (1024 * 1024) % 2 ^ 64 ≡ n * 1_048_576
    mega = omega (arith, h)

    plain : n % 2 ^ 64 ≡ n
    plain = omega (arith, h)
