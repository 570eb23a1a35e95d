-- ===== src/HeartBeat/Kicks.antt =====
-- net/XiaoHG_C_SocketTime.cxx: which nodes of the heartbeat queue kick their connection at a time.
use xiao_hg_server.Base.{
  ℕ, suc, ◌+◌, ◌*◌, ◌≤◌, ◌<◌, ◌≡◌, refl, ap, inl, inr, Bool, false, ◌&&◌, ◌||◌, List, [], ◌∷◌,
  arith, if◌then◌else◌, ltb, leb, ◌==◌, length, Bool-cases,
}
use xiao_hg_server.Connection.{Connection}
use xiao_hg_server.Server.{Config, TimerNode, Socket}
use xiao_hg_server.Timer.{insert}
use xiao_hg_server.Timer.Order.{put_back_queue}
use xiao_hg_server.Timer.Insert.{Above}

-- The node's connection is still the one that it was made for, and is kicked now.
abbrev pub kicks : ℕ → Config → (ℕ → Connection) → TimerNode → Bool
kicks now k conn x =
    (x.curr_sequence == (conn x.conn).curr_sequence)
    && ((k.is_time_out_kick == 1)
        || ltb ((conn x.conn).last_heart_beat_time + (k.wait_time * 3 + 10)) now)

-- A node that is due kicks its connection.
abbrev pub some_kick : ℕ → Config → (ℕ → Connection) → List TimerNode → Bool
some_kick now k conn [] = false
some_kick now k conn (x ∷ q) = (leb x.time now && kicks now k conn x) || some_kick now k conn q

abbrev pub due_count : ℕ → List TimerNode → ℕ
due_count now [] = 0
due_count now (x ∷ q) = if leb x.time now then suc (due_count now q) else due_count now q

pub due_count-le : (now : ℕ) (q : List TimerNode) → due_count now q ≤ length q
due_count-le now [] = omega arith
due_count-le now (x ∷ q) = ground (arith, due_count-le now q)

due_count-insert :
    (now : ℕ) (n : TimerNode) (q : List TimerNode)
    → now < n.time
    → due_count now (insert n q) ≡ due_count now q
unfolding insert
due_count-insert now n [] h = ground arith
due_count-insert now n (x ∷ q) h = ground (arith, due_count-insert now n q h)

some_kick-insert :
    (now : ℕ) (k : Config) (conn : ℕ → Connection) (n : TimerNode) (q : List TimerNode)
    → now < n.time
    → some_kick now k conn (insert n q) ≡ some_kick now k conn q
unfolding insert
some_kick-insert now k conn n [] h = ground arith
some_kick-insert now k conn n (x ∷ q) h = elim (Bool-cases (ltb n.time x.time)) [
  | inl e ↦ let late : leb n.time now ≡ false = ground arith in rw (e, late) refl
  | inr e ↦
      rw e
        (ap (λ b. (leb x.time now && kicks now k conn x) || b) (some_kick-insert now k conn n q h))
]

pub none_kicks :
    (now : ℕ) (k : Config) (conn : ℕ → Connection) (q : List TimerNode)
    → Above (suc now) q
    → some_kick now k conn q ≡ false
none_kicks now k conn [] a = refl
none_kicks now k conn (x ∷ q) a =
    let late : leb x.time now ≡ false = ground arith in rw late (none_kicks now k conn q a.1)

-- The node that a round puts back is not due in that round.
pub some_kick-put_back :
    (now : ℕ) (s : Socket) (k : Config) (conn : ℕ → Connection) (x : TimerNode) (q : List TimerNode)
    → 0 < s.wait_time
    → some_kick now k conn (put_back_queue now s x q) ≡ some_kick now k conn q
some_kick-put_back now s k conn x q w = elim (Bool-cases (s.is_time_out_kick == 1)) [
  | inl e ↦ rw e refl
  | inr e ↦ rw e (some_kick-insert now k conn _ q (omega arith))
]

pub due_count-put_back :
    (now : ℕ) (s : Socket) (x : TimerNode) (q : List TimerNode)
    → 0 < s.wait_time
    → due_count now (put_back_queue now s x q) ≡ due_count now q
due_count-put_back now s x q w = elim (Bool-cases (s.is_time_out_kick == 1)) [
  | inl e ↦ rw e refl
  | inr e ↦ rw e (due_count-insert now _ q (omega arith))
]
