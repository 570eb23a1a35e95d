-- ===== src/Conf/Lookup.antt =====
-- app/XiaoHG_C_Conf.cxx: a number that is written into the file is found by its name.
use xiao_hg_server.Base.{
  ◌^◌, ◌<◌, ℕ, ℤ, pos, ◌≡◌, ◌∙◌, true, false, List, [], ◌∷◌, ◌++◌, some, if_true, if_false, All,
}
use xiao_hg_server.Conf.{ConfItem, items, load, same_name, atoi, get_int_default, decimal}
use xiao_hg_server.Conf.Numbers.{atoi-decimal}
use xiao_hg_server.Conf.RoundTrip.{IsEntry, file_of, load-file_of}

-- None of the items has the name.
abbrev pub Nameless : List ℕ → List ConfItem → Type 0
Nameless name = All (λ x. same_name x.item_name name ≡ false)

get_int_default-first :
    (pre post : List ConfItem) (x : ConfItem) (name : List ℕ) (def : ℤ)
    → Nameless name pre
    → same_name x.item_name name ≡ true
    → get_int_default (pre ++ (x ∷ post)) name def ≡ atoi x.item_content
unfolding get_int_default
get_int_default-first [] post x name def h e = if_true _ _ _ e
get_int_default-first (y ∷ pre) post x name def h e =
    if_false (same_name y.item_name name) _ _ h.0 ∙ get_int_default-first pre post x name def h.1 e

abbrev pub number_item : List ℕ → ℕ → ConfItem
number_item name n = record { item_name = name; item_content = decimal n }

-- When no read fails, from a file with one line `name=content` for each item, written by the rules of a file, and with
-- the number `n`, below 2 ^ 31, in digits under a name that no line before it has, capital letters or not:
-- `GetIntDefault` for this name gives `n`, whatever its default and the lines behind it.
pub get_int_default-file_of :
    (pre post : List ConfItem) (written_name name : List ℕ) (n : ℕ) (def : ℤ)
    → n < 2 ^ 31
    → All IsEntry (pre ++ (number_item written_name n ∷ post))
    → Nameless name pre
    → same_name written_name name ≡ true
    → (load false (some (file_of (pre ++ (number_item written_name n ∷ post))))
        ≡ some (true, items (pre ++ (number_item written_name n ∷ post))))
      × (get_int_default (pre ++ (number_item written_name n ∷ post)) name def ≡ pos n)
get_int_default-file_of pre post written_name name n def small h none_before same = (
  load-file_of (pre ++ (number_item written_name n ∷ post)) h,
  get_int_default-first pre post (number_item written_name n) name def none_before same
      ∙ atoi-decimal n small,
)
