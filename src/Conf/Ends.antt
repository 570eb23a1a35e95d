-- ===== src/Conf/Ends.antt =====
-- app/XiaoHG_C_Conf.cxx: the loop of `Init` reads the file to its end.
use xiao_hg_server.Base.{
  Bool, true, false, Option, none, some, ℕ, zero, suc, ◌≤◌, ◌<◌, ◌≡◌, refl, List, [], ◌∷◌, arith,
  length,
}
use xiao_hg_server.Conf.{Loaded, fgets, read_line, read_lines}

rest-fgets : (n : ℕ) (s : List ℕ) → length (fgets n s).1 ≤ length s
unfolding fgets
rest-fgets zero s = omega arith
rest-fgets (suc n) [] = omega arith
rest-fgets (suc n) (b ∷ s) = ground (arith, rest-fgets n s)

pub shorter-fgets : (n b : ℕ) (s : List ℕ) → length (fgets (suc n) (b ∷ s)).1 ≤ length s
unfolding fgets
shorter-fgets n b s = ground (arith, rest-fgets n s)

pub below : (a b c : ℕ) → a ≤ b → suc b < suc c → a < c
below a b c h k = omega arith

goes_round : (fuel : ℕ) (l : Loaded) → read_lines true fuel [] l ≡ none
unfolding read_lines
goes_round zero l = refl
goes_round (suc fuel) l = goes_round fuel l

-- How two runs of the loop end, by whether a read fails before the end of the file.
abbrev pub LinesEnd : Bool → Option Loaded → Option Loaded → Type 0
LinesEnd true a b = (a ≡ none) × (b ≡ none)
LinesEnd false a b = (r : Loaded) × (a ≡ some r) × (b ≡ some r)

-- If no read fails, the loop over the lines of a file ends within one round more than the file has
-- bytes, and more rounds change nothing; if a read fails, it does not end, in however many rounds.
pub read_lines-LinesEnd :
    (read_fails : Bool) (f g : ℕ) (file : List ℕ) (l : Loaded)
    → length file < f
    → length file < g
    → LinesEnd read_fails (read_lines read_fails f file l) (read_lines read_fails g file l)
unfolding read_lines
read_lines-LinesEnd read_fails zero g file l hf hg = absurd (omega arith)
read_lines-LinesEnd read_fails (suc f) zero file l hf hg = absurd (omega arith)
read_lines-LinesEnd false (suc f) (suc g) [] l hf hg = (l, refl, refl)
read_lines-LinesEnd true (suc f) (suc g) [] l hf hg = (goes_round f l, goes_round g l)
read_lines-LinesEnd read_fails (suc f) (suc g) (b ∷ s) l hf hg =
    let short = shorter-fgets 498 b s in
    read_lines-LinesEnd read_fails f g (fgets 499 (b ∷ s)).1 (read_line (fgets 499 (b ∷ s)).0 l)
      (below (length (fgets 499 (b ∷ s)).1) (length s) f short hf)
      (below (length (fgets 499 (b ∷ s)).1) (length s) g short hg)
