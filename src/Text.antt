-- ===== src/Text.antt =====
-- misc/XiaoHG_alg.cxx: trimming of strings. A C string is the list of its characters before the
-- terminating zero, a `std::string` the list of all of them.
pub mod Trim
pub mod Spaces
use xiao_hg_server.Base.{
  ℕ, zero, suc, ◌+◌, List, [], ◌∷◌, ◌++◌, Option, none, some, if◌then◌else◌, ◌==◌, length, take,
  drop, get_or,
}

abbrev pub space : ℕ
space = 32

-- The loop of `Rtrim`, with `len` characters left: `string[--len] = 0` cuts the last one off.
unfoldable pub rtrim_loop : ℕ → List ℕ → List ℕ
rtrim_loop zero s = s
rtrim_loop (suc len) s = if get_or s len 0 == space then rtrim_loop len (take len s) else s

-- `Rtrim(string)`.
unfoldable pub rtrim : List ℕ → List ℕ
unfolding rtrim_loop
rtrim s = rtrim_loop (length s) s

-- The first loop of `Ltrim`: behind the leading spaces.
pub skip_spaces : List ℕ → List ℕ
skip_spaces [] = []
skip_spaces (c ∷ s) = if c == space then skip_spaces s else c ∷ s

-- The second loop: the rest is moved to the front, character by character.
move_front : List ℕ → List ℕ
move_front [] = []
move_front (c ∷ s) = c ∷ move_front s

-- `Ltrim(string)`.
unfoldable pub ltrim : List ℕ → List ℕ
unfolding skip_spaces move_front
ltrim [] = []
ltrim (c ∷ s) = if c == space then move_front (skip_spaces s) else c ∷ s

-- `s.find(' ', index)`.
pub find_space : ℕ → List ℕ → Option ℕ
find_space i [] = none
find_space zero (c ∷ s) =
    if c == space then some 0 else elim (find_space zero s) [ none ↦ none | some k ↦ some (suc k) ]
find_space (suc i) (c ∷ s) = elim (find_space i s) [ none ↦ none | some k ↦ some (suc k) ]

-- `s.erase(index, 1)`.
abbrev pub erase_at : ℕ → List ℕ → List ℕ
erase_at i s = take i s ++ drop (suc i) s

-- The loop of `Trim`.
pub trim_loop : ℕ → ℕ → List ℕ → List ℕ
trim_loop zero i s = s
trim_loop (suc fuel) i s = elim (find_space i s) [
  | none ↦ s
  | some k ↦ trim_loop fuel k (erase_at k s)
]

-- `Trim(s)`; a string has at most as many spaces as characters.
unfoldable pub trim : List ℕ → List ℕ
unfolding trim_loop
trim s = trim_loop (suc (length s)) 0 s
