-- ===== src/Text/Spaces.antt =====
-- misc/XiaoHG_alg.cxx, `Trim`: it takes all spaces out, and its loop ends.
use xiao_hg_server.Base.{
  ℕ, zero, suc, ◌<◌, ◌≡◌, refl, sym, ap, ap₂, ◌∙◌, inl, inr, false, List, [], ◌∷◌, ◌++◌, Option,
  none, some, arith, if◌then◌else◌, ◌==◌, length, take, drop, Bool-cases, take-append-drop,
}
use xiao_hg_server.Text.{space, find_space, erase_at, trim_loop, trim}

-- A string without its spaces.
abbrev pub without_spaces : List ℕ → List ℕ
without_spaces [] = []
without_spaces (c ∷ s) = if c == space then without_spaces s else c ∷ without_spaces s

-- What `find` says about the string from `i` on.
data FoundAt (i : ℕ) (s : List ℕ) (r : Option ℕ) : Type 0 where
  no_space : r ≡ none → without_spaces (drop i s) ≡ drop i s → FoundAt i s r
  at :
      (k : ℕ)
      → r ≡ some k
      → k < length s
      → take i s ++ without_spaces (drop i s) ≡ take k s ++ without_spaces (drop (suc k) s)
      → FoundAt i s r

abbrev next_index : Option ℕ → Option ℕ
next_index r = elim r [ none ↦ none | some k ↦ some (suc k) ]

find_space-FoundAt : (i : ℕ) (s : List ℕ) → FoundAt i s (find_space i s)
unfolding find_space
find_space-FoundAt zero [] = no_space refl refl
find_space-FoundAt (suc i) [] = no_space refl refl
find_space-FoundAt zero (c ∷ s) = elim (Bool-cases (c == space)) [
  | inl e ↦ rw e (at 0 refl (omega arith) (rw e refl))
  | inr e ↦ rw e (further e (find_space-FoundAt zero s))
]
  where
    further :
        (c == space) ≡ false
        → FoundAt zero s (find_space zero s)
        → FoundAt zero (c ∷ s) (next_index (find_space zero s))
    further e (no_space r w) = no_space (ap next_index r) (rw e (ap (◌∷◌ c) w))
    further e (at k r h w) = at (suc k) (ap next_index r) (omega arith) (rw e (ap (◌∷◌ c) w))
find_space-FoundAt (suc i) (c ∷ s) = further (find_space-FoundAt i s)
  where
    further : FoundAt i s (find_space i s) → FoundAt (suc i) (c ∷ s) (next_index (find_space i s))
    further (no_space r w) = no_space (ap next_index r) w
    further (at k r h w) = at (suc k) (ap next_index r) (omega arith) (ap (◌∷◌ c) w)

erase_at-parts :
    (k : ℕ) (s : List ℕ)
    → k < length s
    → (take k (erase_at k s) ≡ take k s)
      × (drop k (erase_at k s) ≡ drop (suc k) s)
      × (suc (length (erase_at k s)) ≡ length s)
erase_at-parts k [] h = absurd (omega arith)
erase_at-parts zero (c ∷ s) h = (refl, refl, refl)
erase_at-parts (suc k) (c ∷ s) h =
    let (t, d, n) = erase_at-parts k s (omega arith) in (ap (◌∷◌ c) t, d, ap suc n)

trim_loop-without_spaces :
    (fuel i : ℕ) (s : List ℕ)
    → length s < fuel
    → trim_loop fuel i s ≡ take i s ++ without_spaces (drop i s)
unfolding trim_loop
trim_loop-without_spaces zero i s h = absurd (omega arith)
trim_loop-without_spaces (suc fuel) i s h = elim (find_space-FoundAt i s) [
  | no_space r w ↦ rw (r, trim_loop) (sym (ap (λ z. take i s ++ z) w ∙ take-append-drop i s))
  | at k r fits w ↦
      let (t, d, n) = erase_at-parts k s fits in
      rw (r, trim_loop)
        (trim_loop-without_spaces fuel k (erase_at k s) (omega arith)
          ∙ ap₂ (λ a b. a ++ without_spaces b) t d
          ∙ sym w)
]

-- `Trim` ends, and takes every space out of the string, not only those at its two ends.
pub trim-without_spaces : (s : List ℕ) → trim s ≡ without_spaces s
unfolding trim
trim-without_spaces s = trim_loop-without_spaces (suc (length s)) 0 s (omega arith)
