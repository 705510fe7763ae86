-- ===== src/Text/Chars.antt =====
-- Character classes: the `\s`, `\d`, `[a-z0-9]` (ignoring case) and `\w` of the source's patterns.
use systemlens.Prelude.{ℕ, ◌+◌, ◌≡◌, Bool, ◌&&◌, ◌||◌, leb, nat_beq, if◌then◌else◌, arith}

unfoldable pub is_space : ℕ → Bool
is_space c = (leb 9 c && leb c 13) || (leb 28 c && leb c 32)

unfoldable pub is_digit : ℕ → Bool
is_digit c = leb b'0' c && leb c b'9'

is_upper : ℕ → Bool
is_upper c = leb b'A' c && leb c b'Z'

is_lower : ℕ → Bool
is_lower c = leb b'a' c && leb c b'z'

-- [a-z0-9] under re.IGNORECASE
unfoldable pub is_alnum : ℕ → Bool
unfolding is_digit is_upper is_lower
is_alnum c = is_digit c || is_upper c || is_lower c

-- \w
unfoldable pub is_word : ℕ → Bool
unfolding is_alnum
is_word c = is_alnum c || nat_beq c b'_'

-- casefold() of one character
unfoldable pub lower_code : ℕ → ℕ
unfolding is_upper
lower_code c = if is_upper c then c + 32 else c

pub lower_code_idem : (c : ℕ) → lower_code (lower_code c) ≡ lower_code c
unfolding lower_code
lower_code_idem c = ground arith
