-- ===== src/Conf.antt =====
-- app/XiaoHG_C_Conf.cxx: the configuration file. A file is the list of its bytes.
pub mod Bounds
pub mod RoundTrip
pub mod Ends
pub mod Numbers
pub mod Lookup
use xiao_hg_server.Base.{
  ◌^◌, ℕ, zero, suc, ℤ, pos, negsuc, ◌+◌, ◌-◌, ◌*◌, ◌/◌, ◌%◌, Bool, true, false, ◌&&◌, ◌||◌, List,
  [], ◌∷◌, ◌++◌, Option, none, some, if◌then◌else◌, ltb, leb, ◌==◌, length, take, get_or,
}
use xiao_hg_server.Text.{rtrim, ltrim}

-- `CONF_ITEM`.
pub record ConfItem : Type 0 where
  pub item_name : List ℕ
  pub item_content : List ℕ

-- What `Init` makes of a file. A name of 50 characters or more is copied past the end of
-- `ItemName`; what the program does then is not said.
pub data Loaded : Type 0 where
  items : List ConfItem → Loaded
  overflow : Loaded

abbrev pub line_feed : ℕ
line_feed = 10

abbrev pub equals_sign : ℕ
equals_sign = 61

-- The size of `ItemName`.
abbrev pub name_size : ℕ
name_size = 50

-- `fgets(LineBuf, n + 1, fp)`: the line, and the rest of the file.
pub fgets : ℕ → List ℕ → List ℕ × List ℕ
fgets zero s = ([], s)
fgets (suc n) [] = ([], [])
fgets (suc n) (b ∷ s) = if b == line_feed then (b ∷ [], s) else (b ∷ (fgets n s).0, (fgets n s).1)

-- The characters of `LineBuf` before the first zero.
unfoldable pub c_str : List ℕ → List ℕ
c_str [] = []
c_str (b ∷ s) = if b == 0 then [] else b ∷ c_str s

-- Blank lines, comments and the names of sections.
unfoldable pub is_skipped : List ℕ → Bool
is_skipped [] = true
is_skipped (c ∷ s) = c == 59 || c == 32 || c == 91 || c == 35 || c == 9 || c == line_feed

abbrev pub is_tail : ℕ → Bool
is_tail c = c == line_feed || c == 13 || c == 32

-- The loop with `goto lblprocstring`, with `len` characters left.
pub cut_tail : ℕ → List ℕ → List ℕ
cut_tail zero s = s
cut_tail (suc len) s = if is_tail (get_or s len 0) then cut_tail len (take len s) else s

-- `strchr(LineBuf, '=')`: what stands before and behind the first equals sign.
pub split_equals : List ℕ → Option (List ℕ × List ℕ)
split_equals [] = none
split_equals (c ∷ s) =
    if c == equals_sign
    then some ([], s)
    else elim (split_equals s) [ none ↦ none | some p ↦ some (c ∷ p.0, p.1) ]

-- The copies into the item, trimmed on both sides.
unfoldable pub conf_item : List ℕ → List ℕ → ConfItem
conf_item name content = record {
  item_name = ltrim (rtrim name);
  item_content = ltrim (rtrim content);
}

-- One more item, behind those that are there already.
abbrev pub push_item : Loaded → List ℕ → List ℕ → Loaded
push_item overflow name content = overflow
push_item (items l) name content =
    if ltb (length name) name_size then items (l ++ (conf_item name content ∷ [])) else overflow

-- One round of the loop of `Init`, on what `fgets` gave.
unfoldable pub read_line : List ℕ → Loaded → Loaded
unfolding c_str is_skipped cut_tail split_equals
read_line buf l =
    if is_skipped (c_str buf)
    then l
    else elim (split_equals (cut_tail (length (c_str buf)) (c_str buf))) [
      | none ↦ l
      | some p ↦ push_item l p.0 p.1
    ]

-- The loop `while(!feof(fp))`, for so many rounds; `none` when it goes on. `fgets` takes at least one
-- byte of what is left. When nothing is left it fails, at the end of the file or, if
-- `read_fails`, with an error that `feof` does not tell: then the loop goes round.
unfoldable pub read_lines : Bool → ℕ → List ℕ → Loaded → Option Loaded
unfolding fgets read_line
read_lines read_fails zero file l = none
read_lines read_fails (suc fuel) [] l =
    let again = read_lines read_fails fuel [] l in if read_fails then again else some l
read_lines read_fails (suc fuel) (b ∷ s) l =
    let line = fgets 499 (b ∷ s) in read_lines read_fails fuel line.1 (read_line line.0 l)

abbrev pub loaded : Option Loaded → Option (Bool × Loaded)
loaded none = none
loaded (some l) = some (true, l)

-- `Init`; without a file it leaves the list empty and returns an error. `none` when it does not
-- return.
unfoldable pub load : Bool → Option (List ℕ) → Option (Bool × Loaded)
unfolding read_lines
load read_fails none = some (false, items [])
load read_fails (some file) = loaded (read_lines read_fails (suc (length file)) file (items []))

abbrev pub lower : ℕ → ℕ
lower c = if leb 65 c && leb c 90 then c + 32 else c

-- `strcasecmp(a, b) == 0`.
unfoldable pub same_name : List ℕ → List ℕ → Bool
same_name [] [] = true
same_name [] (d ∷ t) = false
same_name (c ∷ s) [] = false
same_name (c ∷ s) (d ∷ t) = lower c == lower d && same_name s t

-- `GetString(pItemName)`.
unfoldable pub get_string : List ConfItem → List ℕ → Option (List ℕ)
unfolding same_name
get_string [] name = none
get_string (x ∷ l) name =
    if same_name x.item_name name then some x.item_content else get_string l name

abbrev is_blank : ℕ → Bool
is_blank c = c == 32 || (leb 9 c && leb c 13)

abbrev is_digit : ℕ → Bool
is_digit c = leb 48 c && leb c 57

-- The digits of a number, after those that stand for `n`.
pub digits_value : ℕ → List ℕ → ℕ
digits_value n [] = n
digits_value n (c ∷ s) = if is_digit c then digits_value (n * 10 + (c - 48)) s else n

abbrev negated : ℕ → ℤ
negated zero = pos 0
negated (suc n) = negsuc n

signed_value : List ℕ → ℤ
unfolding digits_value
signed_value [] = pos 0
signed_value (c ∷ s) =
    if c == 45
    then negated (digits_value 0 s)
    else if c == 43
    then pos (digits_value 0 s)
    else pos (digits_value 0 (c ∷ s))

-- The number that `strtol` reads, before it is held at the ends of a `long`.
unfoldable pub leading_number : List ℕ → ℤ
unfolding signed_value
leading_number [] = pos 0
leading_number (c ∷ s) = if is_blank c then leading_number s else signed_value (c ∷ s)

-- `(int)strtol(...)`: a `long` of 64 bits that stops at its ends, cut to an `int` of 32 bits.
unfoldable pub as_int : ℤ → ℤ
as_int (pos n) =
    let m = (if ltb n (2 ^ 63) then n else 2 ^ 63 - 1) % 2 ^ 32 in
    if ltb m (2 ^ 31) then pos m else negsuc (2 ^ 32 - 1 - m)
as_int (negsuc n) =
    let m = (if ltb n (2 ^ 63) then n else 2 ^ 63 - 1) % 2 ^ 32 in
    if ltb m (2 ^ 31) then negsuc m else pos (2 ^ 32 - 1 - m)

-- `atoi(text)`, as the C library of Linux has it.
unfoldable pub atoi : List ℕ → ℤ
unfolding leading_number as_int
atoi s = as_int (leading_number s)

-- `GetIntDefault(pItemName, def)`.
unfoldable pub get_int_default : List ConfItem → List ℕ → ℤ → ℤ
unfolding same_name atoi
get_int_default [] name def = def
get_int_default (x ∷ l) name def =
    if same_name x.item_name name then atoi x.item_content else get_int_default l name def

-- `sprintf` of `%d` for a number that is not negative, before the digits `tail`. Each round takes
-- one digit off.
unfoldable pub decimal_before : ℕ → ℕ → List ℕ → List ℕ
decimal_before zero n tail = tail
decimal_before (suc fuel) n tail =
    let digit = 48 + n % 10 in
    if ltb n 10 then digit ∷ tail else decimal_before fuel (n / 10) (digit ∷ tail)

unfoldable pub decimal : ℕ → List ℕ
unfolding decimal_before
decimal n = decimal_before (suc n) n []
