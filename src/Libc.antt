-- ===== src/Libc.antt =====
-- The part of the C library that the program uses: strings in bounded buffers, decimal numbers
-- printed and read, and tokens.
mod Text
mod Buffers
mod Scan
mod Tokens
pub mod RoundTrip
pub mod Joined
pub mod Fits
unfoldable pub use Text.{
  TextBytes, codes, is_digit, is_space, decimal, decimal_fuel, sprintf_i, same_text, starts_with,
}
pub use Text.{
  same_text→eq, same_text_refl, decimal_fuel-append, pow10, length-sprintf_i_pos, length-sprintf_i,
}
unfoldable pub use Buffers.{strcpy, strcat}
pub use Buffers.{strcpy-ok, strcat-ok, strcat-overflow}
unfoldable pub use Scan.{
  digits_value, skip_spaces, scan_unsigned, scan_signed, with_sign, scan_int, atoi, scan_word,
  until_space,
}
unfoldable pub use Tokens.{strtok, fgets, skip_while, token_at, token_end, line}
