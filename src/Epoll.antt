-- ===== src/Epoll.antt =====
-- net/XiaoHG_C_SocketInet.cxx, `EpollRegisterEvent`: what a connection is watched for. Whether
-- `epoll_ctl` succeeds is an argument.
use Prim.Native.Nat.{bit_and, bit_or}
use xiao_hg_server.Base.{ℕ, ◌-◌, Bool, true}
use xiao_hg_server.Server.{Socket, set_conn}

abbrev pub epollin : ℕ
epollin = 0x001

abbrev pub epollout : ℕ
epollout = 0x004

abbrev pub epollerr : ℕ
epollerr = 0x008

abbrev pub epollhup : ℕ
epollhup = 0x010

abbrev pub epollrdhup : ℕ
epollrdhup = 0x2000

-- `uiEventType`.
pub data CtlType : Type 0 where
  epoll_ctl_add epoll_ctl_mod epoll_ctl_other : CtlType

-- `action`.
pub data Action : Type 0 where
  epoll_add epoll_del epoll_over : Action

abbrev pub changed : Action → ℕ → ℕ → ℕ
changed epoll_add flag events = bit_or events flag
changed epoll_del flag events = bit_and events (0xffffffff - flag)
changed epoll_over flag events = flag

-- `EpollRegisterEvent(fd, uiEventType, uiFlag, action, pConn)`: whether it succeeds.
unfoldable pub epoll_register_event : CtlType → ℕ → Action → Bool → ℕ → Socket → Bool × Socket
epoll_register_event epoll_ctl_add flag action ctl_ok c s =
    let x = s.conn c in (ctl_ok, set_conn c (record x { epoll_events = flag }) s)
epoll_register_event epoll_ctl_mod flag action ctl_ok c s =
    let x = s.conn c in
    (ctl_ok, set_conn c (record x { epoll_events = changed action flag x.epoll_events }) s)
epoll_register_event epoll_ctl_other flag action ctl_ok c s = (true, s)
