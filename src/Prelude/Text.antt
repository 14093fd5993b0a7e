-- ===== src/Prelude/Text.antt =====
-- Operations on Python's `str`, character by character.
mod Chars
mod Decimal
mod Sorted
mod Lines
unfoldable pub use Chars.{is_space, lstrip, rstrip, strip, take, drop, lower_ascii, rstrip_slash}
unfoldable pub use Decimal.{digit_value, show_ℕ, int_of_text}
pub use Decimal.{int_of_text-show_ℕ}
unfoldable pub use Sorted.{sorted}
unfoldable pub use Lines.{splitlines, join, universal_newlines}
