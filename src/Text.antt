-- ===== src/Text.antt =====
-- Python's `str` as the list of its code points, with the methods that the program calls. The
-- classes of characters and the case mapping are written out for ASCII.
mod Chars
mod Strings
pub mod Regex
pub mod Order
pub mod Decimal
unfoldable pub use Chars.{is_space, is_digit, is_alnum, is_word, lower_code}
unfoldable pub use Strings.{
  lower, drop_while, rstrip_by, lstrip, strip, partition, rpartition, split, starts_with, ends_with,
  infix_of, join, join_with, text_beq,
}
pub use Chars.{lower_code_idem}
pub use Strings.{Text, text_eq, text_beq_iff, codes, lower_idem, partition-head, starts_with-append}
