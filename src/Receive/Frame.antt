-- ===== src/Receive/Frame.antt =====
-- What the receiver promises: a reader of packets that takes one byte at a time. It is stated
-- from the packet format of _include/XiaoHG_Comm.h alone.
use xiao_hg_server.Base.{
  ℕ, Bool, true, false, suc, ◌+◌, ◌-◌, ◌≤◌, ◌<◌, ◌≡◌, refl, ap, ◌∙◌, ◌||◌, List, [], ◌∷◌, ◌++◌,
  arith, if◌then◌else◌, ltb, ◌==◌, length, append_assoc, length-append,
}
use xiao_hg_server.Comm.{pkg_max_length, len_pkg_header, pkg_length, pkg_length-append}

-- The bytes of the packet that is being read, and the packets that are complete, oldest first.
pub record Framer : Type 0 where
  pub pending : List ℕ
  pub frames : List (List ℕ)

-- The lengths that no packet may have.
abbrev pub refused : ℕ → Bool
refused n = ltb n len_pkg_header || ltb pkg_max_length n

-- Waits while the header or the body is incomplete; drops a header of an illegal length.
pub settle : List ℕ → List (List ℕ) → Framer
settle p out =
    if ltb (length p) len_pkg_header
    then record { pending = p; frames = out }
    else if refused (pkg_length p)
    then record { pending = []; frames = out }
    else if length p == pkg_length p
    then record { pending = []; frames = out ++ (p ∷ []) }
    else record { pending = p; frames = out }

pub push_byte : Framer → ℕ → Framer
unfolding settle
push_byte f b = settle (f.pending ++ (b ∷ [])) f.frames

pub push_bytes : Framer → List ℕ → Framer
unfolding push_byte
push_bytes f [] = f
push_bytes f (b ∷ bs) = push_bytes (push_byte f b) bs

-- The bytes that the packet still lacks, header first, and that it is not complete.
pub data IsPending (p : List ℕ) : ℕ → Type 0 where
  in_header : {lack : ℕ} → length p + lack ≡ len_pkg_header → 0 < lack → IsPending p lack
  in_body :
      {lack : ℕ}
      → len_pkg_header ≤ length p
      → pkg_length p ≤ pkg_max_length
      → length p + lack ≡ pkg_length p
      → 0 < lack
      → IsPending p lack

pub settle_waits :
    (p : List ℕ) (out : List (List ℕ)) {lack : ℕ}
    → IsPending p lack
    → settle p out ≡ record { pending = p; frames = out }
unfolding settle
settle_waits p out (in_header e h) = ground arith
settle_waits p out (in_body a b e h) = ground arith

IsPending-append :
    (p : List ℕ) (b : ℕ) (lack : ℕ)
    → IsPending p (suc (suc lack))
    → IsPending (p ++ (b ∷ [])) (suc lack)
IsPending-append p b lack (in_header e h) =
    in_header (omega (arith, length-append p (b ∷ []))) (omega arith)
IsPending-append p b lack (in_body a m e h) =
    let same = pkg_length-append p (b ∷ []) (omega arith) in
    in_body (omega (arith, length-append p (b ∷ []))) (omega (arith, same))
      (omega (arith, same, length-append p (b ∷ []))) (omega arith)

-- A run of bytes that does not pass the end of the header, or of the body, is read at once.
pub push_bytes-settle :
    (p : List ℕ) (out : List (List ℕ)) (b : ℕ) (bs : List ℕ) (lack : ℕ)
    → IsPending p lack
    → length (b ∷ bs) ≤ lack
    → push_bytes (record { pending = p; frames = out }) (b ∷ bs) ≡ settle (p ++ (b ∷ bs)) out
unfolding push_bytes
push_bytes-settle p out b [] lack w h = refl
push_bytes-settle p out b (d ∷ bs) lack w h =
    let e : lack ≡ suc (suc (lack - 2)) = omega arith in
    let w' = IsPending-append p b (lack - 2) (rw e at w) in
    rw (settle_waits (p ++ (b ∷ [])) out w') (
      push_bytes-settle (p ++ (b ∷ [])) out d bs (suc (lack - 2)) w' (omega arith)
      ∙ ap (λ t. settle t out) (append_assoc p (b ∷ []) (d ∷ bs)))

pub settle-refused :
    (p : List ℕ) (out : List (List ℕ))
    → len_pkg_header ≤ length p
    → refused (pkg_length p) ≡ true
    → settle p out ≡ record { pending = []; frames = out }
unfolding settle
settle-refused p out h e = ground arith

pub settle_complete :
    (p : List ℕ) (out : List (List ℕ))
    → len_pkg_header ≤ length p
    → refused (pkg_length p) ≡ false
    → length p ≡ pkg_length p
    → settle p out ≡ record { pending = []; frames = out ++ (p ∷ []) }
unfolding settle
settle_complete p out h e n = ground arith

pub push_bytes-append :
    (f : Framer) (xs ys : List ℕ) → push_bytes f (xs ++ ys) ≡ push_bytes (push_bytes f xs) ys
unfolding push_bytes
push_bytes-append f [] ys = refl
push_bytes-append f (x ∷ xs) ys = push_bytes-append (push_byte f x) xs ys

pub push_run :
    (p : List ℕ) (out : List (List ℕ)) (ds : List ℕ) (lack : ℕ)
    → IsPending p lack
    → 0 < length ds
    → length ds ≤ lack
    → push_bytes (record { pending = p; frames = out }) ds ≡ settle (p ++ ds) out
push_run p out [] lack w pos fits = absurd (omega arith)
push_run p out (b ∷ bs) lack w pos fits = push_bytes-settle p out b bs lack w fits

pub push_bytes-nil : (f : Framer) → push_bytes f [] ≡ f
unfolding push_bytes
push_bytes-nil f = refl
