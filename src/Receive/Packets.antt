-- ===== src/Receive/Packets.antt =====
-- Whole packets, and the packet reader of Receive/Frame on a stream of them.
use xiao_hg_server.Base.{
  ℕ, ◌-◌, ◌≤◌, ◌≡◌, refl, sym, ap, ◌∙◌, inl, inr, false, List, [], ◌∷◌, ◌++◌, flatten, arith, ltb,
  length, take, drop, All, append_assoc, append-nil, length-take, length-drop, drop_all, take_all,
  take-append-drop, Bool-cases, ltb→lt, ltb-false,
}
use xiao_hg_server.Comm.{pkg_max_length, len_pkg_header, pkg_length, pkg_length-take}
use xiao_hg_server.Receive.Frame.{
  refused, settle, settle_waits, settle_complete, push_bytes, push_bytes-append, push_bytes-nil,
  push_run, IsPending, in_header, in_body,
}

-- A whole packet: its length field is its length, and that is legal.
pub record IsPacket (p : List ℕ) : Type 0 where
  pub header : len_pkg_header ≤ length p
  pub short : length p ≤ pkg_max_length
  pub sized : pkg_length p ≡ length p

IsPacket-refused : (p : List ℕ) → IsPacket p → refused (pkg_length p) ≡ false
IsPacket-refused p h = rw h.sized (accept (length p) h.header h.short)
  where
    accept : (n : ℕ) → len_pkg_header ≤ n → n ≤ pkg_max_length → refused n ≡ false
    accept n a b = ground arith

push_header :
    (p : List ℕ) (out : List (List ℕ))
    → IsPacket p
    → push_bytes (record { pending = []; frames = out }) (take len_pkg_header p)
      ≡ settle (take len_pkg_header p) out
push_header p out h =
    let n = length-take len_pkg_header p h.header in
    push_run [] out (take len_pkg_header p) len_pkg_header (in_header refl (omega arith))
      (omega (arith, n)) (omega (arith, n))

push_body :
    (p : List ℕ) (out : List (List ℕ))
    → IsPacket p
    → push_bytes (settle (take len_pkg_header p) out) (drop len_pkg_header p)
      ≡ record { pending = []; frames = out ++ (p ∷ []) }
push_body p out h =
    let head = take len_pkg_header p in
    let body = drop len_pkg_header p in
    let n = length-take len_pkg_header p h.header in
    let r = length-drop len_pkg_header p in
    let k = pkg_length-take len_pkg_header p (omega arith) in
    elim (Bool-cases (ltb len_pkg_header (length p))) [
      | inl more ↦
          let long = ltb→lt len_pkg_header (length p) more in
          let w : IsPending head (length p - len_pkg_header) =
            in_body (omega (arith, n)) (omega (arith, k, h.sized, h.short))
              (omega (arith, n, k, h.sized)) (omega (arith, long)) in
          ap (λ f. push_bytes f body) (settle_waits head out w)
          ∙ push_run head out body (length p - len_pkg_header) w (omega (arith, r, long))
              (omega (arith, r))
          ∙ ap (λ q. settle q out) (take-append-drop len_pkg_header p)
          ∙ settle_complete p out h.header (IsPacket-refused p h) (sym h.sized)
      | inr whole ↦
          let e : len_pkg_header ≡ length p =
            omega (arith, ltb-false len_pkg_header (length p) whole, h.header) in
          ap (push_bytes (settle head out)) (drop_all len_pkg_header p (omega arith))
          ∙ push_bytes-nil (settle head out)
          ∙ ap (λ q. settle (take q p) out) e
          ∙ ap (λ q. settle q out) (take_all p)
          ∙ settle_complete p out h.header (IsPacket-refused p h) (sym h.sized)
    ]

-- The reader takes a whole packet off the stream, and is then between two packets.
push_packet :
    (p : List ℕ) (out : List (List ℕ))
    → IsPacket p
    → push_bytes (record { pending = []; frames = out }) p
      ≡ record { pending = []; frames = out ++ (p ∷ []) }
push_packet p out h =
    ap (push_bytes (record { pending = []; frames = out }))
      (sym (take-append-drop len_pkg_header p))
    ∙ push_bytes-append (record { pending = []; frames = out }) (take len_pkg_header p)
        (drop len_pkg_header p)
    ∙ ap (λ f. push_bytes f (drop len_pkg_header p)) (push_header p out h)
    ∙ push_body p out h

-- Between two packets the reader splits a stream of whole packets where they end.
pub push_packets :
    (ps : List (List ℕ)) (out : List (List ℕ))
    → All IsPacket ps
    → push_bytes (record { pending = []; frames = out }) (flatten ps)
      ≡ record { pending = []; frames = out ++ ps }
unfolding flatten
push_packets [] out h =
    push_bytes-nil _ ∙ ap (λ f. record { pending = []; frames = f }) (sym (append-nil out))
push_packets (p ∷ ps) out h =
    push_bytes-append (record { pending = []; frames = out }) p (flatten ps)
    ∙ ap (λ f. push_bytes f (flatten ps)) (push_packet p out h.0)
    ∙ push_packets ps (out ++ (p ∷ [])) h.1
    ∙ ap (λ f. record { pending = []; frames = f }) (append_assoc out (p ∷ []) ps)
