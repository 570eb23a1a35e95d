-- ===== src/Setup/Ports.antt =====
-- net/XiaoHG_C_Socket.cxx: the loops over the threads and the ports.
use xiao_hg_server.Base.{
  ℕ, zero, suc, ◌≡◌, refl, sym, ap, ◌∙◌, inl, inr, Bool, true, false, ◌&&◌, List, [], ◌∷◌, ◌++◌,
  append_assoc, append-nil, length, Ends, returns, exits, >>=-Ends, Ends-weaken, if_true, if_false,
  Bool-cases,
}
use xiao_hg_server.Conf.{ConfItem}
use xiao_hg_server.Setup.{
  Listening, Listener, need, create_each, create_threads, PortAnswers, listening_at, open_port,
  open_ports,
}

-- The listening sockets for `n` ports from the port `i` on.
abbrev pub listening_list : List ConfItem → (ℕ → PortAnswers) → ℕ → ℕ → List Listening
listening_list items answers zero i = []
listening_list items answers (suc n) i =
    listening_at items i (answers i) ∷ listening_list items answers n (suc i)

-- Whether they can be opened: `socket` is not asked.
abbrev pub ports_ok : (ℕ → PortAnswers) → ℕ → ℕ → Bool
ports_ok answers zero i = true
ports_ok answers (suc n) i =
    ((answers i).nonblocking && (answers i).bound && (answers i).listens)
    && ports_ok answers n (suc i)

-- The listening sockets are there, and nothing else has changed.
pub record Opened (new : List Listening) (s t : Listener) : Type 0 where
  pub socket : t.socket ≡ s.socket
  pub list : t.listen_socket_list ≡ s.listen_socket_list ++ new
  pub count : t.listen_port_count ≡ s.listen_port_count

open_port-Opened :
    (items : List ConfItem) (i : ℕ) (a : PortAnswers) (s : Listener)
    → Ends
        (Opened (listening_at items i a ∷ []) s)
        (a.nonblocking && a.bound && a.listens)
        (open_port items i a s)
unfolding open_port
open_port-Opened items i a s = elim (Bool-cases (a.nonblocking && a.bound && a.listens)) [
  | inl e ↦ returns _ e (if_true _ _ _ e) (record { socket = refl; list = refl; count = refl })
  | inr e ↦ exits e (if_false _ _ _ e)
]

pub open_ports-Opened :
    (items : List ConfItem) (answers : ℕ → PortAnswers) (n i : ℕ) (s : Listener)
    → Ends
        (Opened (listening_list items answers n i) s)
        (ports_ok answers n i)
        (open_ports items answers n i s)
unfolding open_ports
open_ports-Opened items answers zero i s =
    returns s refl refl (record { socket = refl; list = sym (append-nil _); count = refl })
open_ports-Opened items answers (suc n) i s =
    let a : PortAnswers = answers i in
    let l : Listening = listening_at items i a in
    let rest : List Listening = listening_list items answers n (suc i) in
    >>=-Ends (a.nonblocking && a.bound && a.listens) (ports_ok answers n (suc i))
      (open_port items i a s) (open_ports items answers n (suc i)) (open_port-Opened items i a s)
      (λ t o. Ends-weaken (open_ports-Opened items answers n (suc i) t) (λ u p. record {
        socket = p.socket ∙ o.socket;
        list =
            p.list ∙ ap (λ x. x ++ rest) o.list ∙ append_assoc s.listen_socket_list (l ∷ []) rest;
        count = p.count ∙ o.count;
      }))

pub length-listing :
    (items : List ConfItem) (answers : ℕ → PortAnswers) (n i : ℕ)
    → length (listening_list items answers n i) ≡ n
length-listing items answers zero i = refl
length-listing items answers (suc n) i = ap suc (length-listing items answers n (suc i))

-- The threads change nothing else.
pub record Threaded (s t : Listener) : Type 0 where
  pub socket : t.socket ≡ s.socket
  pub list : t.listen_socket_list ≡ s.listen_socket_list
  pub count : t.listen_port_count ≡ s.listen_port_count

abbrev pub all_true : List Bool → Bool
all_true [] = true
all_true (b ∷ bs) = b && all_true bs

pub need-Ends : (ok : Bool) (s : Listener) → Ends (λ t. t ≡ s) ok (need ok s)
need-Ends false s = exits refl refl
need-Ends true s = returns s refl refl refl

pub create_each-Threaded :
    (oks : List Bool) (s : Listener) → Ends (Threaded s) (all_true oks) (create_each oks s)
unfolding create_each
create_each-Threaded [] s =
    returns s refl refl (record { socket = refl; list = refl; count = refl })
create_each-Threaded (ok ∷ oks) s =
    let more : Listener = record s { thread_count = suc s.thread_count } in
    >>=-Ends ok (all_true oks) (need ok more) (create_each oks) (need-Ends ok more) (λ t e.
      Ends-weaken (create_each-Threaded oks t) (λ u h. record {
        socket = h.socket ∙ ap (λ x. x.socket) e;
        list = h.list ∙ ap (λ x. x.listen_socket_list) e;
        count = h.count ∙ ap (λ x. x.listen_port_count) e;
      }))

-- The two threads of `Init`.
pub create_threads-Threaded :
    (recycles monitors : Bool) (s : Listener)
    → Ends (Threaded s) (recycles && monitors) (create_threads recycles monitors s)
unfolding create_threads
create_threads-Threaded recycles true s = create_each-Threaded (recycles ∷ true ∷ []) s
create_threads-Threaded recycles false s = create_each-Threaded (recycles ∷ false ∷ []) s
