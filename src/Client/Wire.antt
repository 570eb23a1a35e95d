-- ===== src/Client/Wire.antt =====
-- test/test_common.cxx, `SendData`: what reaches the socket, and what is returned.
use xiao_hg_server.Base.{
  ℕ, zero, suc, ℤ, pos, negsuc, ◌+◌, ◌-◌, ◌≡◌, refl, sym, ap, ap₂, ◌∙◌, Bool, true, false, List, [],
  ◌∷◌, ◌++◌, Option, none, some, arith, append_assoc, append-nil, if◌then◌else◌, leb, length,
  length-append, length-drop, take, drop, take-append-drop, le→leb, lt→leb, if_true, if_false, ◌<◌,
}
use xiao_hg_server.Client.{Sending, send_loop, send_data}

-- How many bytes `send` takes, by its answers up to the first that is not a number above 0.
abbrev pub granted : List ℤ → ℕ
granted [] = 0
granted (negsuc _ ∷ answers) = 0
granted (pos zero ∷ answers) = 0
granted (pos (suc n) ∷ answers) = suc n + granted answers

-- Whether there is one that is not.
abbrev pub refuses : List ℤ → Bool
refuses [] = false
refuses (negsuc _ ∷ answers) = true
refuses (pos zero ∷ answers) = true
refuses (pos (suc n) ∷ answers) = refuses answers

abbrev none_left : List ℕ
none_left = []

-- What is returned for `n` bytes, of which `left` are not yet on the way.
abbrev value_for : List ℤ → ℕ → ℕ → Option ℤ
value_for answers left n =
    if leb left (granted answers)
    then some (pos n)
    else if refuses answers
    then some (negsuc 0)
    else none

take_nothing : (n : ℕ) → take n [] ≡ none_left
take_nothing zero = refl
take_nothing (suc n) = refl

take_sum : (m n : ℕ) (xs : List ℕ) → take (m + n) xs ≡ take m xs ++ take n (drop m xs)
take_sum zero n xs = ap (λ k. take k xs) (omega arith)
take_sum (suc m) n [] = take_nothing (suc m + n) ∙ sym (take_nothing n)
take_sum (suc m) n (x ∷ xs) =
    let e : suc m + n ≡ suc (m + n) = omega arith in
    ap (λ k. take k (x ∷ xs)) e ∙ ap (◌∷◌ x) (take_sum m n xs)

abbrev sending : List ℕ → Option ℤ → Sending
sending w v = record { wire = w; value = v }

-- What the loop comes to.
abbrev outcome : List ℤ → List ℕ → List ℕ → Sending
outcome answers wrote rest = record {
  wire = wrote ++ take (granted answers) rest;
  value = value_for answers (length rest) (length wrote + length rest);
}

same : (w w' : List ℕ) (v v' : Option ℤ) → w ≡ w' → v ≡ v' → sending w v ≡ sending w' v'
same w w' v v' e f = ap₂ sending e f

-- A `send` that fails with something left.
stopped :
    (answers : List ℤ) (wrote rest : List ℕ) (v : Option ℤ)
    → granted answers ≡ 0
    → 0 < length rest
    → (if refuses answers then some (negsuc 0) else none) ≡ v
    → sending wrote v ≡ outcome answers wrote rest
stopped answers wrote rest v e some_left f =
    same _ _ _ _ (sym (append-nil wrote) ∙ ap (λ k. wrote ++ take k rest) (sym e)) (
      sym f
      ∙ sym (
          if_false (leb (length rest) (granted answers)) _ _
            (lt→leb (length rest) (granted answers) (omega (arith, e)))))

-- What a `send` of some bytes leaves to be done.
leb_rest : (left g n : ℕ) → leb (left - n) g ≡ leb left (n + g)
leb_rest left g n = ground arith

send_loop_lem :
    (answers : List ℤ) (wrote rest : List ℕ)
    → send_loop answers wrote rest ≡ outcome answers wrote rest
unfolding send_loop
send_loop_lem answers wrote [] =
    same _ _ _ _
      (sym (append-nil wrote) ∙ ap (λ l. wrote ++ l) (sym (take_nothing (granted answers))))
      (ap (λ k. some (pos k)) (omega arith)
        ∙ sym (if_true (leb 0 (granted answers)) _ _ (le→leb 0 (granted answers) (omega arith))))
send_loop_lem [] wrote (b ∷ rest) = stopped [] wrote (b ∷ rest) none refl (omega arith) refl
send_loop_lem (negsuc n ∷ answers) wrote (b ∷ rest) =
    stopped (negsuc n ∷ answers) wrote (b ∷ rest) (some (negsuc 0)) refl (omega arith) refl
send_loop_lem (pos zero ∷ answers) wrote (b ∷ rest) =
    stopped (pos zero ∷ answers) wrote (b ∷ rest) (some (negsuc 0)) refl (omega arith) refl
send_loop_lem (pos (suc n) ∷ answers) wrote (b ∷ rest) =
    let all : List ℕ = b ∷ rest in
    let first : List ℕ = take (suc n) all in
    let more : List ℕ = drop (suc n) all in
    let total : length (wrote ++ first) + length more ≡ length wrote + length all = omega (
      arith,
      length-append wrote first,
      length-append first more,
      ap length (take-append-drop (suc n) all),
    ) in
    let left : leb (length more) (granted answers) ≡ leb (length all) (suc n + granted answers) =
      ap (λ k. leb k (granted answers)) (length-drop (suc n) all)
      ∙ leb_rest (length all) (granted answers) (suc n) in
    send_loop_lem answers (wrote ++ first) more
    ∙ same _ _ _ _
        (append_assoc wrote first (take (granted answers) more)
          ∙ ap (λ l. wrote ++ l) (sym (take_sum (suc n) (granted answers) all)))
        (ap₂ (λ t k. if t then some (pos k) else if refuses answers then some (negsuc 0) else none)
          left total)

-- Whatever `send` answers, what has reached the socket is the front of the message, as much of it
-- as `send` took before it first gave -1 or 0. Once that is the whole message, its length is returned;
-- else -1, if `send` gave such an answer, or the call has not returned yet.
pub send_data-granted :
    (answers : List ℤ) (buf : List ℕ)
    → send_data answers buf ≡ record {
      wire = take (granted answers) buf;
      value =
          if leb (length buf) (granted answers)
          then some (pos (length buf))
          else if refuses answers
          then some (negsuc 0)
          else none;
    }
unfolding send_data
send_data-granted answers buf =
    send_loop_lem answers [] buf
    ∙ same _ _ _ _ refl (
        ap
          (λ k.
            if leb (length buf) (granted answers)
            then some (pos k)
            else if refuses answers
            then some (negsuc 0)
            else none)
          (omega arith))
