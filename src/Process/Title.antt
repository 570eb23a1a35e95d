-- ===== src/Process/Title.antt =====
-- app/XiaoHG_C_MainArgCtl.cxx and `SetProcTitle`: the environment is moved out of the way of the title.
use xiao_hg_server.Base.{
  ℕ, zero, suc, ◌+◌, ◌-◌, ◌%◌, ◌^◌, ◌≤◌, ◌<◌, ◌≡◌, refl, sym, subst, ap, ap₂, ◌∙◌, inl, inr, Bool,
  true, false, List, [], ◌∷◌, ◌++◌, append_assoc, append-nil, map, arith, if◌then◌else◌, ltb, leb,
  length, take, drop, length-append, length-drop, write_at_lem, lt→leb, le→leb, ltb-false, write_at,
  take-append, drop_all, All, Bool-cases, if_true, if_false, ltb→lt,
}
use xiao_hg_server.Conf.{c_str}
use xiao_hg_server.Process.Environ.{
  NoZero, zeros, length-zeros, c_str_stored, length_stored, need_size_lem, move_strings_lem,
  moved_to_lem,
}
use xiao_hg_server.Process.{
  MainArg, in_os, stored_string, strings, string_at, need_size, move_strings, init_main_arg,
  set_proc_title,
}

take_stored : (s rest : List ℕ) → take (length s) (stored_string s ++ rest) ≡ s
take_stored s rest = ap (take (length s)) (append_assoc s (0 ∷ []) rest) ∙ take-append s (0 ∷ rest)

-- The memory behind `SetProcTitle`: the title, and zeros to the end.
titled_mem :
    (mem title : List ℕ) (total : ℕ)
    → length mem ≡ total
    → length title < total
    → write_at (write_at mem 0 (stored_string title)) (length title) (zeros (total - length title))
      ≡ title ++ zeros (total - length title)
titled_mem mem title total size room =
    let old : List ℕ = drop (0 + length (stored_string title)) mem in
    let first : List ℕ = stored_string title ++ old in
    let rest : ℕ = total - length title in
    let n : length first ≡ total = omega (
      arith,
      length-append (stored_string title) old,
      length-drop (0 + length (stored_string title)) mem,
      length_stored title,
    ) in
    let nothing : drop (length title + length (zeros rest)) first ≡ [] =
      drop_all (length title + length (zeros rest)) first (omega (arith, n, length-zeros rest)) in
    ap (λ m. write_at m (length title) (zeros rest)) (write_at_lem mem 0 (stored_string title))
    ∙ write_at_lem first (length title) (zeros rest)
    ∙ ap₂ (λ a b. a ++ (zeros rest ++ b)) (take_stored title old) nothing
    ∙ ap (λ z. title ++ z) (append-nil (zeros rest))

-- What a process finds behind `SetProcTitle`, by whether the title has room.
abbrev pub Titled : List ℕ → List (List ℕ) → MainArg → Bool → Bool × MainArg → Type 0
Titled title envs m false r = (r.0 ≡ false) × (r.1.os_mem ≡ m.os_mem)
Titled title envs m true r =
    (r.0 ≡ true)
    × (r.1.os_mem ≡ title ++ zeros (length m.os_mem - length title))
    × (string_at r.1 (in_os 0) ≡ title)

-- The sizes are those of the memory, and the environment is read as `envs`, whatever this memory holds.
pub record Prepared (envs : List (List ℕ)) (m : MainArg) : Type 0 where
  pub size : m.argv_need_mem_size + m.env_need_mem_size ≡ length m.os_mem
  pub env : (os : List ℕ) → map (string_at (record m { os_mem = os })) m.environ ≡ envs

pub init_main_arg-Prepared :
    (args envs : List (List ℕ))
    → length (strings args) + length (strings envs) < 2 ^ 32
    → All NoZero envs
    → Prepared envs (init_main_arg 0 0 args envs)
unfolding init_main_arg
init_main_arg-Prepared args envs small clean =
    let a = need_size_lem 0 args (omega arith) in
    let e : need_size 0 envs ≡ length (strings envs) =
      need_size_lem 0 envs (omega arith) ∙ omega arith in
    let m : MainArg = init_main_arg 0 0 args envs in
    record {
      size = omega (arith, a, e, length-append (strings args) (strings envs));
      env = λ os.
          moved_to_lem (record m { os_mem = os }) [] envs 0 refl clean
            (ap (λ n. move_strings 0 envs (zeros n)) e ∙ move_strings_lem [] envs 0 refl);
    }

pub title_string :
    (title : List ℕ) (n : ℕ) → NoZero title → 0 < n → c_str (title ++ zeros n) ≡ title
title_string title zero clean h = absurd (omega arith)
title_string title (suc n) clean h =
    ap c_str (sym (append_assoc title (0 ∷ []) (zeros n))) ∙ c_str_stored title (zeros n) clean

module _ (title : List ℕ) (envs : List (List ℕ)) (m : MainArg) (h : Prepared envs m)
    (small : length m.os_mem < 2 ^ 32) (short : length title < 2 ^ 32) where
  -- `SetProcTitle` by the sizes, before they wrap around.
  abbrev by_sizes : ℕ → ℕ → Bool × MainArg
  by_sizes total len = if leb total len then (false, m) else (
    true,
    record m {
      os_mem = write_at (write_at m.os_mem 0 (stored_string title)) len (zeros (total - len));
    },
  )

  by_sizes_lem : set_proc_title title m ≡ by_sizes (length m.os_mem) (length title)
  unfolding set_proc_title
  by_sizes_lem =
      let total : (m.argv_need_mem_size + m.env_need_mem_size) % 2 ^ 32 ≡ length m.os_mem =
        omega (arith, h.size) in
      let len : length title % 2 ^ 32 ≡ length title = omega arith in ap₂ by_sizes total len

  abbrev pub after_title : List ℕ → MainArg
  after_title os = record m { os_mem = os }

  pub with_room :
      NoZero title
      → length title < length m.os_mem
      → set_proc_title title m
        ≡ (true, after_title (title ++ zeros (length m.os_mem - length title)))
  with_room clean room =
      by_sizes_lem
      ∙ if_false (leb (length m.os_mem) (length title)) _ _
          (lt→leb (length m.os_mem) (length title) room)
      ∙ ap (λ o. (true, after_title o)) (titled_mem m.os_mem title (length m.os_mem) refl room)

  pub without_room : length m.os_mem ≤ length title → set_proc_title title m ≡ (false, m)
  without_room full =
      by_sizes_lem
      ∙ if_true (leb (length m.os_mem) (length title)) _ _
          (le→leb (length m.os_mem) (length title) full)

  pub set_proc_title-Titled :
      NoZero title
      → Titled title envs m (ltb (length title) (length m.os_mem)) (set_proc_title title m)
        × (map (string_at (set_proc_title title m).1) (set_proc_title title m).1.environ ≡ envs)
  set_proc_title-Titled clean = elim (Bool-cases (ltb (length title) (length m.os_mem))) [
    | inl e ↦
        let room = ltb→lt (length title) (length m.os_mem) e in
        subst
          (λ b.
            Titled title envs m b (set_proc_title title m)
            × (map (string_at (set_proc_title title m).1) (set_proc_title title m).1.environ
                ≡ envs))
          (sym e)
          (subst (λ r. Titled title envs m true r × (map (string_at r.1) r.1.environ ≡ envs))
            (sym (with_room clean room))
            (
              (refl, refl, title_string title (length m.os_mem - length title) clean (omega arith)),
              h.env _,
            ))
    | inr e ↦
        let full = ltb-false (length title) (length m.os_mem) e in
        subst
          (λ b.
            Titled title envs m b (set_proc_title title m)
            × (map (string_at (set_proc_title title m).1) (set_proc_title title m).1.environ
                ≡ envs))
          (sym e)
          (subst (λ r. Titled title envs m false r × (map (string_at r.1) r.1.environ ≡ envs))
            (sym (without_room full)) ((refl, refl), h.env m.os_mem))
  ]

-- With sizes that start at 0, arguments and an environment of less than 2 ^ 32 characters, and texts
-- without zeros: `SetProcTitle` fails, and changes nothing, when the title does not fit into the
-- memory of the arguments and the environment; else this memory holds the title and zeros to its
-- end, and nothing behind it is written. In both cases every string of the environment is read as
-- it was.
pub init_main_arg-Titled :
    (title : List ℕ) (args envs : List (List ℕ))
    → length (strings args) + length (strings envs) < 2 ^ 32
    → length title < 2 ^ 32
    → NoZero title
    → All NoZero envs
    → Titled title envs
        (init_main_arg 0 0 args envs)
        (ltb (length title) (length (init_main_arg 0 0 args envs).os_mem))
        (set_proc_title title (init_main_arg 0 0 args envs))
      × (map
            (string_at (set_proc_title title (init_main_arg 0 0 args envs)).1)
            (set_proc_title title (init_main_arg 0 0 args envs)).1.environ
          ≡ envs)
unfolding init_main_arg
init_main_arg-Titled title args envs small short clean env_clean =
    set_proc_title-Titled title envs (init_main_arg 0 0 args envs)
      (init_main_arg-Prepared args envs small env_clean)
      (omega (arith, length-append (strings args) (strings envs))) short clean
