-- ===== src/Process/Environ.antt =====
-- app/XiaoHG_C_MainArgCtl.cxx: the strings of the environment in their new memory.
use xiao_hg_server.Base.{
  ℕ, zero, suc, ◌+◌, ◌%◌, ◌^◌, ◌<◌, ◌≡◌, refl, sym, ap, ap₂, ◌∙◌, false, List, [], ◌∷◌, ◌++◌,
  append_assoc, map, arith, ◌==◌, length, drop, replicate, length-append, length-replicate,
  write_at, write_at_append, drop-append, All,
}
use xiao_hg_server.Conf.{c_str}
use xiao_hg_server.Process.{
  MainArg, stored_string, strings, string_at, need_size, move_strings, moved_to,
}

-- A text without zeros.
abbrev pub NoZero : List ℕ → Type 0
NoZero = All (λ c. (c == 0) ≡ false)

abbrev pub zeros : ℕ → List ℕ
zeros n = replicate n 0

pub length-zeros : (n : ℕ) → length (zeros n) ≡ n
length-zeros n = length-replicate n 0

drop-zeros : (m n : ℕ) → drop m (zeros (m + n)) ≡ zeros n
drop-zeros zero n = let k : 0 + n ≡ n = omega arith in ap zeros k
drop-zeros (suc m) n =
    let k : suc m + n ≡ suc (m + n) = omega arith in
    ap (λ x. drop (suc m) (zeros x)) k ∙ drop-zeros m n

pub c_str_stored : (s rest : List ℕ) → NoZero s → c_str (stored_string s ++ rest) ≡ s
unfolding c_str
c_str_stored [] rest h = refl
c_str_stored (c ∷ s) rest h = rw (h.0) (ap (◌∷◌ c) (c_str_stored s rest h.1))

pub length_stored : (s : List ℕ) → length (stored_string s) ≡ length s + 1
length_stored s = length-append s (0 ∷ [])

pub length-strings :
    (s : List ℕ) (ss : List (List ℕ))
    → length (strings (s ∷ ss)) ≡ (length s + 1) + length (strings ss)
length-strings s ss =
    length-append (stored_string s) (strings ss)
    ∙ ap (λ n. n + length (strings ss)) (length_stored s)

pub need_size_lem :
    (n : ℕ) (ss : List (List ℕ))
    → n + length (strings ss) < 2 ^ 64
    → need_size n ss ≡ n + length (strings ss)
unfolding need_size
need_size_lem n [] h = omega arith
need_size_lem n (s ∷ ss) h =
    let size = length-strings s ss in
    let small : (n + (length s + 1)) % 2 ^ 64 ≡ n + (length s + 1) = omega arith in
    ap (λ m. need_size m ss) small
    ∙ need_size_lem (n + (length s + 1)) ss (omega arith)
    ∙ omega arith

-- The copies fill the new memory.
pub move_strings_lem :
    (pre : List ℕ) (ss : List (List ℕ)) (at : ℕ)
    → at ≡ length pre
    → move_strings at ss (pre ++ zeros (length (strings ss))) ≡ pre ++ strings ss
unfolding move_strings
move_strings_lem pre [] at h = refl
move_strings_lem pre (s ∷ ss) at h =
    let k : ℕ = length (strings ss) in
    let next : List ℕ = pre ++ stored_string s in
    let size : length (strings (s ∷ ss)) ≡ length (stored_string s) + k =
      omega (arith, length-strings s ss, length_stored s) in
    let step : write_at (pre ++ zeros (length (strings (s ∷ ss)))) at (stored_string s)
        ≡ next ++ zeros k =
      ap₂ (λ a n. write_at (pre ++ zeros n) a (stored_string s)) h size
      ∙ write_at_append pre (zeros (length (stored_string s) + k)) (stored_string s)
      ∙ ap (λ z. pre ++ (stored_string s ++ z)) (drop-zeros (length (stored_string s)) k)
      ∙ sym (append_assoc pre (stored_string s) (zeros k)) in
    ap (move_strings (at + (length s + 1)) ss) step
    ∙ move_strings_lem next ss (at + (length s + 1))
        (omega (arith, length-append pre (stored_string s), length_stored s))
    ∙ append_assoc pre (stored_string s) (strings ss)

-- The moved strings are read as they were.
pub moved_to_lem :
    (m : MainArg) (pre : List ℕ) (ss : List (List ℕ)) (at : ℕ)
    → at ≡ length pre
    → All NoZero ss
    → m.env_mem ≡ pre ++ strings ss
    → map (string_at m) (moved_to at ss) ≡ ss
unfolding moved_to
moved_to_lem m pre [] at h clean e = refl
moved_to_lem m pre (s ∷ ss) at h clean e =
    let none_more : length pre ≡ length pre + 0 = omega arith in
    let here : drop at m.env_mem ≡ strings (s ∷ ss) =
      ap₂ drop (h ∙ none_more) e ∙ drop-append pre (strings (s ∷ ss)) 0 in
    ap₂ (λ x y. x ∷ y) (ap c_str here ∙ c_str_stored s (strings ss) clean.0)
      (moved_to_lem m (pre ++ stored_string s) ss (at + (length s + 1))
        (omega (arith, length-append pre (stored_string s), length_stored s)) clean.1
        (e ∙ sym (append_assoc pre (stored_string s) (strings ss))))
