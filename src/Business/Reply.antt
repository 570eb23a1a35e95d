-- ===== src/Business/Reply.antt =====
-- net/XiaoHG_C_BusinessCtl.cxx: the packets that the server answers with.
use xiao_hg_server.Base.{
  ℕ, zero, suc, ◌+◌, ◌-◌, ◌^◌, ◌<◌, ◌≡◌, sym, ap, ◌∙◌, Bool, true, false, List, [], ◌∷◌, ◌++◌, some,
  Outcome, done, arith, All, ◌==◌, length, take, drop, take_more, replicate, if_false, ==_iff,
  ne→eq-false,
}
use xiao_hg_server.Business.{header_of}
use xiao_hg_server.Business.Accepts.{well_summed}
use xiao_hg_server.Comm.{len_pkg_header, pkg_length, msg_code, crc_field}
use xiao_hg_server.Crc32.{get_crc}
use xiao_hg_server.Crc32.Fits.{get_crc_fits}
use xiao_hg_server.Memory.{Message}
use xiao_hg_server.Send.{push_send_msg_to_send_list_and_sem}
use xiao_hg_server.Server.{Server}

pub All-drop : (n : ℕ) (xs : List ℕ) → All (λ b. b < 256) xs → All (λ b. b < 256) (drop n xs)
All-drop zero xs h = h
All-drop (suc n) [] h = h
All-drop (suc n) (x ∷ xs) h = All-drop n xs h.1

pub All-replicate : (n b : ℕ) → b < 256 → All (λ b. b < 256) (replicate n b)
All-replicate zero b h = tt
All-replicate (suc n) b h = (h, All-replicate n b h)

-- A header in front of a body.
abbrev pub headed : ℕ → ℕ → List ℕ → List ℕ
headed len code body = header_of len code (get_crc body) ++ body

-- A packet that the server's own check lets pass.
pub record IsReply (len code : ℕ) (p : List ℕ) : Type 0 where
  pub size : pkg_length p ≡ len
  pub kind : msg_code p ≡ code
  pub summed : well_summed p ≡ true

pub headed-IsReply :
    (len code : ℕ) (body : List ℕ)
    → length body + len_pkg_header ≡ len
    → 0 < length body
    → len < 2 ^ 16
    → code < 2 ^ 16
    → All (λ b. b < 256) body
    → IsReply len code (headed len code body)
unfolding pkg_length msg_code crc_field well_summed
headed-IsReply len code body total some_body small known bytes =
    let c : ℕ = get_crc body in
    let fits = get_crc_fits body bytes in
    let size : pkg_length (headed len code body) ≡ len = omega arith in
    let field : crc_field (headed len code body) ≡ c = omega arith in
    let taken : take (pkg_length (headed len code body) - len_pkg_header) body ≡ body =
      take_more (pkg_length (headed len code body) - len_pkg_header) body (omega (arith, size)) in
    record {
      size = size;
      kind = omega arith;
      summed =
          if_false (pkg_length (headed len code body) == len_pkg_header) _ _
            (ne→eq-false (pkg_length (headed len code body)) len_pkg_header (omega (arith, size)))
          ∙ (==_iff (get_crc (take (pkg_length (headed len code body) - len_pkg_header) body))
                (crc_field (headed len code body))).1
              (ap get_crc taken ∙ sym field);
    }

-- A call that queues a packet for the connection of the message `b`.
pub record Replies (now : ℕ) (b : Message) (len code : ℕ) (o : Outcome Server) : Type 0 where
  pub addr : ℕ
  pub before : Server
  pub block : Message
  pub call : o ≡ push_send_msg_to_send_list_and_sem now addr before
  pub live : before.memory.block addr ≡ some block
  pub same_conn : block.conn ≡ b.conn
  pub same_sequence : block.curr_sequence ≡ b.curr_sequence
  pub packet : IsReply len code block.packet

-- What a handler does, by whether the length of the body is the one that it expects.
abbrev pub HandlerEnds : ℕ → Message → ℕ → ℕ → Server → Bool → Outcome Server → Type 0
HandlerEnds now b len code s true o = Replies now b len code o
HandlerEnds now b len code s false o = o ≡ done s
