-- ===== src/Text.antt =====
-- Go strings, in `Equality`, the decimal numerals of `fmt`, `strconv` and `math/big`, in `Decimal`, and
-- the base64 of `encoding/json`, in `Base64`.
mod Equality
pub mod Decimal
pub mod Base64
pub mod Strings
pub use Equality.{Text, codes, text_eq→eq, text_eq_refl, text_eq_iff}
unfoldable pub use Equality.{text_eq}
