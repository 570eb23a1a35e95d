-- ===== src/Conf/RoundTrip.antt =====
-- app/XiaoHG_C_Conf.cxx: a file that is written from a list of items loads as this list.
use xiao_hg_server.Base.{
  false, ℕ, zero, suc, ◌≤◌, ◌<◌, ◌≡◌, refl, sym, ap, ap₂, ◌∙◌, true, false, List, [], ◌∷◌, ◌++◌,
  some, arith, if◌then◌else◌, ◌==◌, length, take, get_or, length-append, take-append, append_assoc,
  append-nil, All, if_true, if_false, lt→ltb, ne→eq-false, All-append, subst,
}
use xiao_hg_server.Text.{space, rtrim, rtrim_loop, ltrim}
use xiao_hg_server.Text.Trim.{NoTrailing, nothing_left, ends_with, NoLeading, no_text, starts_with}
use xiao_hg_server.Conf.{
  ConfItem, Loaded, items, fgets, c_str, is_skipped, is_tail, cut_tail, split_equals, conf_item,
  read_line, read_lines, loaded, load, line_feed, equals_sign, name_size,
}

-- The line of an item.
abbrev pub line_of : ConfItem → List ℕ
line_of x = x.item_name ++ (equals_sign ∷ x.item_content)

abbrev pub written : ConfItem → List ℕ
written x = line_of x ++ (line_feed ∷ [])

-- Characters that may stand in a line, and in a name.
abbrev pub Plain : ℕ → Type 0
Plain c = ((c == 0) ≡ false) × ((c == line_feed) ≡ false)

abbrev pub NoSign : ℕ → Type 0
NoSign c = (c == equals_sign) ≡ false

-- The last character of a text, if it has one, is none of those that are cut off.
pub data EndsWell : List ℕ → Type 0 where
  empty_text : EndsWell []
  last_char : (s : List ℕ) (c : ℕ) → is_tail c ≡ false → EndsWell (s ++ (c ∷ []))

-- An item that can stand in a file.
pub record IsEntry (x : ConfItem) : Type 0 where
  pub name_plain : All Plain x.item_name
  pub name_signless : All NoSign x.item_name
  pub name_starts : is_skipped x.item_name ≡ false
  pub name_ends : NoTrailing x.item_name
  pub name_short : length x.item_name < name_size
  pub content_plain : All Plain x.item_content
  pub content_starts : NoLeading x.item_content
  pub content_ends : EndsWell x.item_content
  pub line_short : length (line_of x) ≤ 498

fgets_line :
    (n : ℕ) (s rest : List ℕ)
    → All Plain s
    → length s < n
    → fgets n (s ++ (line_feed ∷ rest)) ≡ (s ++ (line_feed ∷ []), rest)
unfolding fgets
fgets_line zero s rest p h = absurd (omega arith)
fgets_line (suc n) [] rest p h = refl
fgets_line (suc n) (c ∷ s) rest p h =
    rw (p.0.1) (ap (λ r. (c ∷ r.0, r.1)) (fgets_line n s rest p.1 (omega arith)))

c_str_line : (s : List ℕ) → All Plain s → c_str (s ++ (line_feed ∷ [])) ≡ s ++ (line_feed ∷ [])
unfolding c_str
c_str_line [] p = refl
c_str_line (c ∷ s) p = rw (p.0.0) (ap (◌∷◌ c) (c_str_line s p.1))

get_or_last : (s : List ℕ) (c : ℕ) → get_or (s ++ (c ∷ [])) (length s) 0 ≡ c
get_or_last [] c = refl
get_or_last (d ∷ s) c = get_or_last s c

length_snoc : (s : List ℕ) (c : ℕ) → length (s ++ (c ∷ [])) ≡ suc (length s)
length_snoc [] c = refl
length_snoc (d ∷ s) c = ap suc (length_snoc s c)

-- One round of the two loops that cut characters off at the end.
cut_tail_step :
    (s : List ℕ) (c : ℕ)
    → cut_tail (length (s ++ (c ∷ []))) (s ++ (c ∷ []))
      ≡ (if is_tail c then cut_tail (length s) s else s ++ (c ∷ []))
unfolding cut_tail
cut_tail_step s c =
    ap (λ n. cut_tail n (s ++ (c ∷ []))) (length_snoc s c)
    ∙ ap₂ (λ d t. if is_tail d then cut_tail (length s) t else s ++ (c ∷ [])) (get_or_last s c)
        (take-append s (c ∷ []))

cut_tail_ends : (s : List ℕ) → EndsWell s → cut_tail (length s) s ≡ s
unfolding cut_tail
cut_tail_ends _ empty_text = refl
cut_tail_ends _ (last_char s c h) = cut_tail_step s c ∙ if_false _ _ _ h

rtrim_ends : (s : List ℕ) → NoTrailing s → rtrim s ≡ s
unfolding rtrim rtrim_loop
rtrim_ends _ nothing_left = refl
rtrim_ends _ (ends_with s c h) =
    ap (λ n. rtrim_loop n (s ++ (c ∷ []))) (length_snoc s c)
    ∙ ap
        (λ d.
          if d == space
          then rtrim_loop (length s) (take (length s) (s ++ (c ∷ [])))
          else s ++ (c ∷ []))
        (get_or_last s c)
    ∙ if_false _ _ _ (ne→eq-false c space h)

ltrim_starts : (s : List ℕ) → NoLeading s → ltrim s ≡ s
unfolding ltrim
ltrim_starts _ no_text = refl
ltrim_starts _ (starts_with c s h) = if_false _ _ _ (ne→eq-false c space h)

EndsWell-line : (a b : List ℕ) → EndsWell b → EndsWell (a ++ (equals_sign ∷ b))
EndsWell-line a _ empty_text = last_char a equals_sign refl
EndsWell-line a _ (last_char s c h) =
    subst EndsWell (append_assoc a (equals_sign ∷ s) (c ∷ []))
      (last_char (a ++ (equals_sign ∷ s)) c h)

split_equals_line :
    (a b : List ℕ) → All NoSign a → split_equals (a ++ (equals_sign ∷ b)) ≡ some (a, b)
unfolding split_equals
split_equals_line [] b h = refl
split_equals_line (c ∷ a) b h = rw (h.0, split_equals_line a b h.1) refl

is_skipped_line : (a rest : List ℕ) → is_skipped a ≡ false → is_skipped (a ++ rest) ≡ false
unfolding is_skipped
is_skipped_line [] rest h = cc
is_skipped_line (c ∷ a) rest h = h

line-Plain : (x : ConfItem) → IsEntry x → All Plain (line_of x)
line-Plain x h =
    All-append Plain x.item_name (equals_sign ∷ x.item_content) h.name_plain
      ((refl, refl), h.content_plain)

-- What is left of a line when its end is cut off.
line_cut : (x : ConfItem) → IsEntry x → cut_tail (length (written x)) (written x) ≡ line_of x
line_cut x h =
    cut_tail_step (line_of x) line_feed
    ∙ cut_tail_ends (line_of x) (EndsWell-line x.item_name x.item_content h.content_ends)

name-NoLeading : (a : List ℕ) → is_skipped a ≡ false → NoLeading a
unfolding is_skipped
name-NoLeading [] h = no_text
name-NoLeading (c ∷ a) h = starts_with c a (ground arith)

content-NoTrailing : (b : List ℕ) → EndsWell b → NoTrailing b
content-NoTrailing _ empty_text = nothing_left
content-NoTrailing _ (last_char s c h) = ends_with s c (ground arith)

conf_item_same : (x : ConfItem) → IsEntry x → conf_item x.item_name x.item_content ≡ x
unfolding conf_item
conf_item_same x h =
    ap₂ (λ n c. record { item_name = n; item_content = c })
      (ap ltrim (rtrim_ends x.item_name h.name_ends)
        ∙ ltrim_starts x.item_name (name-NoLeading x.item_name h.name_starts))
      (ap ltrim (rtrim_ends x.item_content (content-NoTrailing x.item_content h.content_ends))
        ∙ ltrim_starts x.item_content h.content_starts)

read_line_entry :
    (x : ConfItem) (l : List ConfItem)
    → IsEntry x
    → read_line (written x) (items l) ≡ items (l ++ (x ∷ []))
unfolding read_line
read_line_entry x l h =
    let text = c_str_line (line_of x) (line-Plain x h) in
    let kept : is_skipped (written x) ≡ false =
      ap is_skipped (append_assoc x.item_name (equals_sign ∷ x.item_content) (line_feed ∷ []))
      ∙ is_skipped_line x.item_name _ h.name_starts in
    rw (text, kept, line_cut x h, split_equals_line x.item_name x.item_content h.name_signless)
      (if_true _ _ _ (lt→ltb (length x.item_name) name_size h.name_short)
        ∙ ap (λ y. items (l ++ (y ∷ []))) (conf_item_same x h))

read_lines_step :
    (fuel : ℕ) (s : List ℕ) (l : Loaded)
    → 0 < length s
    → read_lines false (suc fuel) s l
      ≡ read_lines false fuel (fgets 499 s).1 (read_line (fgets 499 s).0 l)
unfolding read_lines
read_lines_step fuel [] l h = absurd (omega arith)
read_lines_step fuel (b ∷ s) l h = refl

abbrev pub file_of : List ConfItem → List ℕ
file_of [] = []
file_of (x ∷ xs) = written x ++ file_of xs

first_line :
    (x : ConfItem) (rest : List ℕ) → IsEntry x → fgets 499 (written x ++ rest) ≡ (written x, rest)
first_line x rest h =
    ap (fgets 499) (append_assoc (line_of x) (line_feed ∷ []) rest)
    ∙ fgets_line 499 (line_of x) rest (line-Plain x h) (omega (arith, h.line_short))

read_lines_written :
    (fuel : ℕ) (xs l : List ConfItem)
    → All IsEntry xs
    → length xs < fuel
    → read_lines false fuel (file_of xs) (items l) ≡ some (items (l ++ xs))
unfolding read_lines
read_lines_written zero xs l h f = absurd (omega arith)
read_lines_written (suc fuel) [] l h f = ap (λ k. some (items k)) (sym (append-nil l))
read_lines_written (suc fuel) (x ∷ xs) l h f =
    read_lines_step fuel (written x ++ file_of xs) (items l)
      (omega (arith, length-append (written x) (file_of xs), length_snoc (line_of x) line_feed))
    ∙ ap (λ r. read_lines false fuel r.1 (read_line r.0 (items l))) (first_line x (file_of xs) h.0)
    ∙ ap (read_lines false fuel (file_of xs)) (read_line_entry x l h.0)
    ∙ read_lines_written fuel xs (l ++ (x ∷ [])) h.1 (omega arith)
    ∙ ap (λ k. some (items k)) (append_assoc l (x ∷ []) xs)

length-file_of : (xs : List ConfItem) → length xs ≤ length (file_of xs)
length-file_of [] = omega arith
length-file_of (x ∷ xs) = omega (
  arith,
  length-file_of xs,
  length-append (written x) (file_of xs),
  length_snoc (line_of x) line_feed,
)

-- When no read fails, a file with one line `name=content` for each item of a list loads as this list, in order, when
-- the names and contents are of one line and without zeros, the names are not empty, start no
-- comment or section, have less than 50 characters and no equals sign, no name or content has
-- characters at its ends that are cut off, and no line has more than 498 characters.
pub load-file_of :
    (xs : List ConfItem) → All IsEntry xs → load false (some (file_of xs)) ≡ some (true, items xs)
unfolding load
load-file_of xs h =
    ap loaded
      (read_lines_written (suc (length (file_of xs))) xs [] h (omega (arith, length-file_of xs)))
