-- ===== src/Conf/Bounds.antt =====
-- app/XiaoHG_C_Conf.cxx: what is loaded fits the two buffers of an item.
use xiao_hg_server.Base.{
  true, false, Bool, refl, ap, arith, ℕ, zero, suc, ◌≤◌, ◌<◌, ◌≡◌, refl, ap, inl, inr, List, [],
  ◌∷◌, ◌++◌, Option, none, some, arith, ltb, ◌==◌, length, take, length-append, length-take,
  replicate, Bool-cases, ltb→lt, ==_iff, All, All-append,
}
use xiao_hg_server.Text.{rtrim, ltrim}
use xiao_hg_server.Text.Trim.{rtrim-ltrim_lem}
use xiao_hg_server.Conf.Ends.{below, shorter-fgets}
use xiao_hg_server.Conf.{
  loaded, ConfItem, Loaded, items, overflow, fgets, c_str, is_skipped, cut_tail, split_equals,
  conf_item, push_item, read_line, read_lines, load, name_size, equals_sign,
}

-- `ItemName` and `ItemContent` hold the strings and their final zeros.
pub record Fits (x : ConfItem) : Type 0 where
  pub name : length x.item_name < 50
  pub content : length x.item_content < 500

-- All items of a file fit, unless one of the names is too long.
abbrev pub AllFit : Loaded → Type 0
AllFit (items l) = All Fits l
AllFit overflow = Unit

length-fgets : (n : ℕ) (s : List ℕ) → length (fgets n s).0 ≤ n
unfolding fgets
length-fgets zero s = omega arith
length-fgets (suc n) [] = omega arith
length-fgets (suc n) (b ∷ s) = ground (arith, length-fgets n s)

length-c_str : (s : List ℕ) → length (c_str s) ≤ length s
unfolding c_str
length-c_str [] = omega arith
length-c_str (b ∷ s) = ground (arith, length-c_str s)

length-cut_tail : (n : ℕ) (s : List ℕ) → length s ≡ n → length (cut_tail n s) ≤ n
unfolding cut_tail
length-cut_tail zero s h = omega arith
length-cut_tail (suc n) s h =
    let short = length-take n s (omega arith) in ground (arith, short, length-cut_tail n (take n s))

-- A line has no equals sign, or is put together from its two parts.
data Split (s : List ℕ) (r : Option (List ℕ × List ℕ)) : Type 0 where
  no_sign : r ≡ none → Split s r
  sign : (a b : List ℕ) → r ≡ some (a, b) → s ≡ a ++ (equals_sign ∷ b) → Split s r

split_equals-Split : (s : List ℕ) → Split s (split_equals s)
unfolding split_equals
split_equals-Split [] = no_sign refl
split_equals-Split (c ∷ s) = elim (Bool-cases (c == equals_sign)) [
  | inl e ↦ rw e (sign [] s refl (ap (λ d. d ∷ s) ((==_iff c equals_sign).0 e)))
  | inr e ↦ rw e (behind (split_equals-Split s))
]
  where
    behind :
        Split s (split_equals s)
        → Split (c ∷ s) (elim (split_equals s) [ none ↦ none | some p ↦ some (c ∷ p.0, p.1) ])
    behind (no_sign r) = no_sign (rw r refl)
    behind (sign a b r e) = sign (c ∷ a) b (rw r refl) (ap (◌∷◌ c) e)

length-trimmed : (s : List ℕ) → length (ltrim (rtrim s)) ≤ length s
length-trimmed s =
    let r = (rtrim-ltrim_lem s).0 in
    let l = (rtrim-ltrim_lem (rtrim s)).1 in
    omega (
      arith,
      ap length r.parts,
      length-append (rtrim s) (replicate r.cut 32),
      ap length l.parts,
      length-append (replicate l.cut 32) (ltrim (rtrim s)),
    )

conf_item-Fits : (a b : List ℕ) → length a < 50 → length b < 500 → Fits (conf_item a b)
unfolding conf_item
conf_item-Fits a b ha hb = record {
  name = omega (arith, length-trimmed a);
  content = omega (arith, length-trimmed b);
}

push_item-AllFit :
    (l : Loaded) (a b : List ℕ) → AllFit l → length b < 500 → AllFit (push_item l a b)
push_item-AllFit overflow a b h hb = tt
push_item-AllFit (items l) a b h hb = elim (Bool-cases (ltb (length a) name_size)) [
  | inl e ↦ rw e (
      All-append Fits l (conf_item a b ∷ []) h
        (conf_item-Fits a b (ltb→lt (length a) name_size e) hb, tt))
  | inr e ↦ rw e tt
]

read_line-AllFit :
    (buf : List ℕ) (l : Loaded) → length buf ≤ 499 → AllFit l → AllFit (read_line buf l)
unfolding read_line
read_line-AllFit buf l short h =
    let text : List ℕ = c_str buf in
    let line : List ℕ = cut_tail (length text) text in
    let bound = length-cut_tail (length text) text refl in
    elim (Bool-cases (is_skipped text)) [
      | inl e ↦ rw e h
      | inr e ↦ rw e (elim (split_equals-Split line) [
        | no_sign r ↦ rw r h
        | sign a b r parts ↦ rw r (
            push_item-AllFit l a b h (
              omega (
                arith,
                short,
                bound,
                length-c_str buf,
                ap length parts,
                length-append a (equals_sign ∷ b),
              )))
      ])
    ]

read_lines-AllFit :
    (fuel : ℕ) (file : List ℕ) (l : Loaded)
    → AllFit l
    → length file < fuel
    → (r : Loaded) × (read_lines false fuel file l ≡ some r) × AllFit r
unfolding read_lines
read_lines-AllFit zero file l h f = absurd (omega arith)
read_lines-AllFit (suc fuel) [] l h f = (l, refl, h)
read_lines-AllFit (suc fuel) (b ∷ s) l h f =
    let line = fgets 499 (b ∷ s) in
    read_lines-AllFit fuel line.1 (read_line line.0 l)
      (read_line-AllFit line.0 l (length-fgets 499 (b ∷ s)) h)
      (below (length line.1) (length s) fuel (shorter-fgets 498 b s) f)

-- Whatever the file holds, `Init` returns if no read fails; and when no name is too long for its buffer, every name has less than 50
-- characters and every content less than 500, so that both fit with their final zeros.
pub load-AllFit :
    (file : Option (List ℕ)) → (r : Bool × Loaded) × (load false file ≡ some r) × AllFit r.1
unfolding load
load-AllFit none = ((false, items []), refl, tt)
load-AllFit (some file) =
    let (l, e, h) = read_lines-AllFit (suc (length file)) file (items []) tt (omega arith) in
    ((true, l), ap loaded e, h)
