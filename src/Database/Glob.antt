-- ===== src/Database/Glob.antt =====
-- `globMatch` and `matchCharacterClass` of src/database.cpp. A position in the pattern or in the
-- text is the part that is left. `char` is signed, as on the platforms that the build supports.
use flash_kv.Common.{
  ℕ, zero, suc, ◌+◌, ◌*◌, ◌%◌, Bool, true, false, not, ◌&&◌, ◌||◌, Option, none, some, [], ◌∷◌,
  Bytes, if◌then◌else◌, length, leb, ◌==◌,
}

-- Signed characters in their order.
abbrev pub char_rank : ℕ → ℕ
char_rank c = (c + 128) % 256

abbrev pub leb_char : ℕ → ℕ → Bool
leb_char a b = leb (char_rank a) (char_rank b)

-- `low` and the rest, with the escape taken.
unfoldable pub class_low : ℕ → Bytes → ℕ × Bytes
class_low c [] = (c, [])
class_low c (d ∷ rest) = if c == b'\\' then (d, rest) else (c, d ∷ rest)

-- `high` and the rest.
unfoldable pub class_high : ℕ → Bytes → ℕ × Bytes
class_high low [] = (low, [])
class_high low (d ∷ []) = (low, d ∷ [])
class_high low (d ∷ h ∷ rest) =
    if (d == b'-') && not (h == b']') then (h, rest) else (low, d ∷ h ∷ rest)

abbrev pub within : ℕ → ℕ → ℕ → Bool
within low high c =
    if leb_char low high
    then leb_char low c && leb_char c high
    else leb_char high c && leb_char c low

-- The loop behind `[` or `[^`. Each round takes a byte at least: the length is enough fuel.
unfoldable pub class_loop : ℕ → Bytes → ℕ → Bool → Bool × Bytes
unfolding class_low class_high
class_loop zero s c matched = (matched, s)
class_loop (suc fuel) [] c matched = (matched, [])
class_loop (suc fuel) (b ∷ s) c matched =
    let (low, rest) = class_low b s in
    let (high, rest') = class_high low rest in
    let more = class_loop fuel rest' c (matched || within low high c) in
    if b == b']' then (matched, s) else more

abbrev pub xor : Bool → Bool → Bool
xor a true = not a
xor a false = a

-- `matchCharacterClass` behind the opening bracket: whether the character matches, and the rest.
unfoldable pub match_character_class : Bytes → ℕ → Bool × Bytes
unfolding class_loop
match_character_class [] c = (false, [])
match_character_class (b ∷ s) c =
    let negate = b == b'^' in
    let body = if negate then s else b ∷ s in
    let (matched, rest) = class_loop (length body) body c false in (xor matched negate, rest)

-- Only stars are left.
unfoldable pub all_stars : Bytes → Bool
all_stars [] = true
all_stars (b ∷ p) = (b == b'*') && all_stars p

-- A literal, or an escaped character, against one character: the rest of the pattern if it fits.
unfoldable pub match_literal : ℕ → Bytes → ℕ → Option Bytes
match_literal token [] c = if token == c then some [] else none
match_literal token (d ∷ rest) c =
    if token == b'\\'
    then if d == c then some rest else none
    else if token == c
    then some (d ∷ rest)
    else none

abbrev pub rest_if_matched : Bool × Bytes → Option Bytes
rest_if_matched (matched, rest) = if matched then some rest else none

-- One token of the pattern, a star apart, against one character.
unfoldable pub match_token : ℕ → Bytes → ℕ → Option Bytes
unfolding match_literal match_character_class
match_token token p c =
    if token == b'?'
    then some p
    else if token == b'['
    then rest_if_matched (match_character_class p c)
    else match_literal token p c

-- `starPattern` and `starText`: what is left behind the last star, and of the text at that time.
abbrev pub Star : Type 0
Star = Option (Bytes × Bytes)

-- The state of the loop: the pattern, the text and the last star.
pub data GlobStep : Type 0 where
  continue_with : Bytes → Bytes → Star → GlobStep
  fail : GlobStep

-- Let the last star absorb one more character.
unfoldable pub backtrack : Star → GlobStep
backtrack none = fail
backtrack (some (p, [])) = fail
backtrack (some (p, _ ∷ t)) = continue_with p t (some (p, t))

abbrev pub after_token : Option Bytes → Bytes → Star → GlobStep
after_token (some p) t star = continue_with p t star
after_token none t star = backtrack star

-- One round of the loop, at the character `c` of the text.
unfoldable pub glob_step : Bytes → ℕ → Bytes → Star → GlobStep
unfolding backtrack match_token
glob_step [] c t star = backtrack star
glob_step (token ∷ p) c t star =
    if token == b'*'
    then continue_with p (c ∷ t) (some (p, c ∷ t))
    else after_token (match_token token p c) t star

-- The loop. `none` means that the fuel ran out.
unfoldable pub glob_loop : ℕ → Bytes → Bytes → Star → Option Bool
unfolding glob_step all_stars
glob_loop fuel p [] star = some (all_stars p)
glob_loop zero p (c ∷ t) star = none
glob_loop (suc fuel) p (c ∷ t) star = elim (glob_step p c t star) [
  | fail ↦ some false
  | continue_with p' t' star' ↦ glob_loop fuel p' t' star'
]

-- The square of the lengths bounds the rounds of the backtracking.
unfoldable pub glob_fuel : Bytes → Bytes → ℕ
glob_fuel p t = (length p + length t + 1) * (length p + length t + 2)

abbrev pub answer : Option Bool → Bool
answer none = false
answer (some b) = b

unfoldable pub glob_match : Bytes → Bytes → Bool
unfolding glob_loop glob_fuel
glob_match p t = answer (glob_loop (glob_fuel p t) p t none)
