-- ===== src/Run/Closes.antt =====
-- net/XiaoHG_C_Socket.cxx and net/XiaoHG_C_SocketConn.cxx: what the operations on connections and on
-- their timers do to the books.
use xiao_hg_server.Base.{
  ◌>>=◌, done, ◌∙◌, sym, subst, inl, inr, false, ◌==◌, if_false, ℕ, zero, suc, pos, negsuc, eq_ℤ,
  ltb_ℤ, ◌≡◌, refl, ap, List, [], ◌∷◌, Option, none, some, length, if_split, arith, Star, Whenever,
  >>=-Whenever,
}
use xiao_hg_server.Pool.{
  contains, take_free, make_new, is_due, get_connection, push_connect_to_recy_queue, first_due,
  recover_one, recover_loop, delay_recovery_pass, free_connection, put_one_to_free, close_fd,
  reset_throw, drop_timers, close_connection_to_recy,
}
use xiao_hg_server.Run.Books.{
  Role, main, monitor, recycler, Retires, MayRetire, pools, Without, without, PoolMove, makes,
  takes, retires, returns, Moves, Moves-refl, Moves-trans, kept, pool_moves, moves_one,
}
use xiao_hg_server.Server.{Socket, Server, conn_of, on_socket}
use xiao_hg_server.Run.Timers.{drop_timers-PoolMoves}

close_fd-Moves : {r : Role} (c : ℕ) (s : Server) → Moves r s (close_fd c s)
unfolding close_fd
close_fd-Moves {r} c s =
    if_split (Moves r s) (eq_ℤ (pos (conn_of s c).sock_fd) (negsuc 0)) (λ none_open. Moves-refl s)
      (λ open_fd. kept refl refl)

reset_throw-pools : (c : ℕ) (s : Socket) → pools (reset_throw c s) ≡ pools s
unfolding reset_throw
reset_throw-pools c s = ground arith

push_connect_to_recy_queue-Moves :
    {r : Role}
    → (now c : ℕ) (s : Server) → MayRetire r s.socket.conf
    → Moves r s (on_socket (push_connect_to_recy_queue now c) s)
unfolding push_connect_to_recy_queue
push_connect_to_recy_queue-Moves {r} now c s may =
    if_split (λ k. Moves r s (record s { socket = k })) (contains c s.socket.recy_connection_list)
      (λ queued. Moves-refl s) (λ new. moves_one (retires may c new refl) refl)

close_fd-pools : (c : ℕ) (s : Server) → pools (close_fd c s).socket ≡ pools s.socket
unfolding close_fd
close_fd-pools c s = ground arith

-- `CloseConnectionToRecy` behind the timers.
abbrev behind_timers : ℕ → ℕ → Server → Server
behind_timers now c s =
    on_socket (push_connect_to_recy_queue now c) (on_socket (reset_throw c) (close_fd c s))

behind_timers-Moves :
    {r : Role}
    → (now c : ℕ) (s : Server) → MayRetire r s.socket.conf
    → Moves r s (behind_timers now c s)
behind_timers-Moves {r} now c s may =
    let t : Server = close_fd c s in
    let u : Server = on_socket (reset_throw c) t in
    let conf : u.socket.conf ≡ s.socket.conf =
      ap (λ k. k.conf) (reset_throw-pools c t.socket ∙ close_fd-pools c s) in
    Moves-trans (close_fd-Moves c s) (
      Moves-trans (kept {s = t} {t = u} (reset_throw-pools c t.socket) refl)
        (push_connect_to_recy_queue-Moves now c u (subst (MayRetire r) (sym conf) may)))

pub close_connection_to_recy-Moves :
    {r : Role}
    → Retires r
    → (now c : ℕ) (s : Server) → Whenever (Moves r s) (close_connection_to_recy now c s)
unfolding close_connection_to_recy
close_connection_to_recy-Moves {r} may now c s =
    >>=-Whenever (λ t. Star (PoolMove r) (pools s.socket) (pools t)) (Moves r s)
      (drop_timers c s.socket) _ (drop_timers-PoolMoves may c s.socket)
      (λ t moves.
        let u : Server = record s { socket = t } in
        Moves-trans (pool_moves {s = s} {t = u} moves refl) (behind_timers-Moves now c u (inl may)))

-- Without the timeout check no timers are taken out, whoever closes.
pub close_connection_to_recy_off :
    (now c : ℕ) (s : Server)
    → (s.socket.is_hb_time_out_check_enable == 1) ≡ false
    → Whenever (Moves monitor s) (close_connection_to_recy now c s)
unfolding close_connection_to_recy drop_timers
close_connection_to_recy_off now c s off =
    subst
      (λ o.
        Whenever (Moves monitor s)
          (o >>= (λ t. done (behind_timers now c (record s { socket = t })))))
      (sym (if_false (s.socket.is_hb_time_out_check_enable == 1) _ _ off))
      (behind_timers-Moves now c s (inr (refl, off)))

taken_by :
    (now fd : ℕ) (s : Socket) (q : List ℕ)
    → s.free_connection_list ≡ q
    → let r : ℕ × Socket = elim q [
      | [] ↦ make_new now fd s
      | c ∷ rest ↦ take_free now fd c rest s
    ] in
      PoolMove main (pools s) (pools r.1)
unfolding make_new take_free
taken_by now fd s [] e = makes refl e refl
taken_by now fd s (c ∷ rest) e = takes refl c rest e refl

pub get_connection-PoolMove :
    (now fd : ℕ) (s : Socket) → PoolMove main (pools s) (pools (get_connection now fd s).1)
unfolding get_connection
get_connection-PoolMove now fd s = taken_by now fd s s.free_connection_list refl

-- A connection that is found stands in the queue, and is taken out of it.
abbrev Picks : List ℕ → Option (ℕ × List ℕ) → Type 0
Picks cs none = Unit
Picks cs (some (c, rest)) = Without c cs rest

behind_first :
    (x : ℕ) (cs : List ℕ) (r : Option (ℕ × List ℕ))
    → Picks cs r
    → Picks (x ∷ cs) (elim r [ none ↦ none | some (d, q) ↦ some (d, x ∷ q) ])
behind_first x cs none h = tt
behind_first x cs (some (c, rest)) (without b e p q) =
    without (x ∷ b) e (ap (◌∷◌ x) p) (ap (◌∷◌ x) q)

first_due-Picks : (now : ℕ) (s : Socket) (cs : List ℕ) → Picks cs (first_due now s cs)
unfolding first_due
first_due-Picks now s [] = tt
first_due-Picks now s (x ∷ cs) =
    if_split (Picks (x ∷ cs)) (is_due now s x) (λ due. without [] cs refl refl)
      (λ early. behind_first x cs (first_due now s cs) (first_due-Picks now s cs))

recover_one-Moves :
    (c : ℕ) (rest : List ℕ) (s : Server)
    → Without c s.socket.recy_connection_list rest
    → Moves recycler s (recover_one c rest s)
unfolding recover_one free_connection put_one_to_free
recover_one-Moves c rest s w = moves_one (returns refl c rest w refl) refl

recover_loop-Moves : (fuel now : ℕ) (s : Server) → Moves recycler s (recover_loop fuel now s)
unfolding recover_loop
recover_loop-Moves zero now s = Moves-refl s
recover_loop-Moves (suc fuel) now s =
    by_first (first_due now s.socket s.socket.recy_connection_list)
      (first_due-Picks now s.socket s.socket.recy_connection_list) (recover_loop-Moves fuel now)
  where
    by_first :
        (r : Option (ℕ × List ℕ))
        → Picks s.socket.recy_connection_list r
        → ((t : Server) → Moves recycler t (recover_loop fuel now t))
        → Moves recycler s
            (elim r [ none ↦ s | some (c, rest) ↦ recover_loop fuel now (recover_one c rest s) ])
    by_first none h again = Moves-refl s
    by_first (some (c, rest)) h again =
        Moves-trans (recover_one-Moves c rest s h) (again (recover_one c rest s))

pub delay_recovery_pass-Moves :
    (now : ℕ) (s : Server) → Moves recycler s (delay_recovery_pass now s)
unfolding delay_recovery_pass
delay_recovery_pass-Moves now s =
    if_split (Moves recycler s) (ltb_ℤ (pos 0) s.socket.delay_recovery_connection_count)
      (λ some_wait. recover_loop-Moves (suc (length s.socket.recy_connection_list)) now s)
      (λ none_waits. Moves-refl s)
