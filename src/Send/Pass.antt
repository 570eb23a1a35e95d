-- ===== src/Send/Pass.antt =====
-- app/XiaoHG_C_MessageCtl.cxx, `SendMsgThread`: what a round over the list leaves in it.
use xiao_hg_server.Base.{
  ℕ, ◌^◌, ◌<◌, ◌≡◌, refl, sym, subst, ap, ◌∙◌, false, List, [], ◌∷◌, ◌++◌, Outcome, done, exited,
  arith, ◌==◌, sub32, length, length-append, append_assoc, append-nil, All, All-map, All-append,
  All-both,
}
use xiao_hg_server.Send.{Net, send_pass}
use xiao_hg_server.Send.Frame.{Step}
use xiao_hg_server.Server.{Server}
use xiao_hg_server.Send.One.{Waits, Live, send_one-One, process_ends, stays, leaves}

-- No address stands twice in the list.
abbrev pub Distinct : List ℕ → Type 0
Distinct [] = Unit
Distinct (x ∷ xs) = All (λ y. ¬ (y ≡ x)) xs × Distinct xs

-- A state in the middle of the loop: `kept` was passed, `rest` is to come.
record Midway (kept rest : List ℕ) (s : Server) : Type 0 where
  list : s.message.send_msg_list ≡ kept ++ rest
  size : s.message.send_msg_list_size ≡ length (kept ++ rest)
  fits : length (kept ++ rest) < 2 ^ 32
  passed : All (Waits s) kept
  live : All (Live s) rest
  apart : All (λ r. All (λ k. ¬ (k ≡ r)) kept) rest
  distinct : Distinct rest

Step-Waits : (a k : ℕ) (s t : Server) → Step a s t → ¬ (k ≡ a) → Waits s k → Waits t k
Step-Waits a k s t p h w = record {
  message = w.message;
  live = p.blocks k h ∙ w.live;
  current = ap (λ n. n == w.message.curr_sequence) (p.serial w.message.conn) ∙ w.current;
  waiting = p.waits w.message.conn w.waiting;
}

Midway-stays :
    (kept rest : List ℕ) (a : ℕ) (s : Server)
    → Midway kept (a ∷ rest) s
    → Waits s a
    → Midway (kept ++ (a ∷ [])) rest s
Midway-stays kept rest a s m w =
    let e = append_assoc kept (a ∷ []) rest in
    record {
      list = m.list ∙ sym e;
      size = m.size ∙ ap length (sym e);
      fits = omega (arith, m.fits, ap length e);
      passed = All-append (Waits s) kept (a ∷ []) m.passed (w, tt);
      live = m.live.1;
      apart =
          All-both rest
            (λ r far new.
              All-append (λ k. ¬ (k ≡ r)) kept (a ∷ []) far ((λ same. new (sym same)), tt))
            m.apart.1 m.distinct.0;
      distinct = m.distinct.1;
    }

Midway-leaves :
    (kept rest : List ℕ) (a : ℕ) (s t : Server)
    → Midway kept (a ∷ rest) s
    → Step a s t
    → t.message.send_msg_list ≡ kept ++ rest
    → t.message.send_msg_list_size ≡ sub32 s.message.send_msg_list_size 1
    → Midway kept rest t
Midway-leaves kept rest a s t m p l n =
    let long = length-append kept (a ∷ rest) in
    let short = length-append kept rest in
    record {
      list = l;
      size = omega (arith, n, m.size, m.fits, long, short);
      fits = omega (arith, m.fits, long, short);
      passed = All-both kept (λ k far w. Step-Waits a k s t p far w) m.apart.0 m.passed;
      live = All-both rest (λ r new w. (w.0, p.blocks r new ∙ w.1)) m.distinct.0 m.live.1;
      apart = m.apart.1;
      distinct = m.distinct.1;
    }

-- How a round over the list ends.
pub data PassEnds (net : Net) (o : Outcome Server) : Type 0 where
  pass_exits : (c : ℕ) → net.ctl_ok c ≡ false → o ≡ exited → PassEnds net o
  pass_returns :
      (t : Server)
      → o ≡ done t
      → All (Waits t) t.message.send_msg_list
      → t.message.send_msg_list_size ≡ length t.message.send_msg_list
      → PassEnds net o

pass_from :
    (net : Net) (kept rest : List ℕ) (s : Server)
    → Midway kept rest s
    → PassEnds net (send_pass net kept rest s)
unfolding send_pass
pass_from net kept [] s m =
    let e = append-nil kept in
    pass_returns s refl (subst (All (Waits s)) (sym (m.list ∙ e)) m.passed)
      (m.size ∙ ap length (sym m.list))
pass_from net kept (a ∷ rest) s m = elim (send_one-One net kept rest a s m.live.0) [
  | process_ends c f e ↦ pass_exits c f (rw e refl)
  | stays e w ↦ rw e (pass_from net (kept ++ (a ∷ [])) rest s (Midway-stays kept rest a s m w))
  | leaves t e p l n ↦ rw e (pass_from net kept rest t (Midway-leaves kept rest a s t m p l n))
]

-- On a counted list of distinct live messages a round of the sending thread ends the process only
-- if `epoll_ctl` fails for a connection. Else it returns, and then every message that is still in the list is live, belongs to
-- the connection that it was made for, and that connection waits for epoll; and the list is
-- counted.
pub send_pass-PassEnds :
    (net : Net) (s : Server)
    → s.message.send_msg_list_size ≡ length s.message.send_msg_list
    → length s.message.send_msg_list < 2 ^ 32
    → All (Live s) s.message.send_msg_list
    → Distinct s.message.send_msg_list
    → PassEnds net (send_pass net [] s.message.send_msg_list s)
send_pass-PassEnds net s n fits live distinct = pass_from net [] s.message.send_msg_list s (record {
  list = refl;
  size = n;
  fits = fits;
  passed = tt;
  live = live;
  apart = All-map s.message.send_msg_list (λ r h. tt) live;
  distinct = distinct;
})
