-- ===== src/Memory.antt =====
-- misc/XiaoHG_C_Memory.cxx: the heap blocks of the messages. Address 0 is the null pointer.
use xiao_hg_server.Base.{ℕ, suc, List, Option, none, some, if◌then◌else◌, ◌==◌, update, replicate}

-- A block holds MSG_HEADER_T (the connection and its serial number) and the packet behind it.
pub record Message : Type 0 where
  pub conn : ℕ
  pub curr_sequence : ℕ
  pub packet : List ℕ

-- `faults` counts the calls of `delete []` on a block that is not live, and the uses of one.
-- `junk` is what a fresh block holds.
pub record Memory : Type 0 where
  pub next : ℕ
  pub block : ℕ → Option Message
  pub faults : ℕ
  pub junk : ℕ

abbrev pub store : Memory → ℕ → Message → Memory
store m a x = record m { block = update m.block a (some x) }

-- `AllocMemory(g_LenMsgHeader + n, false)`: a new block, and its address.
unfoldable pub alloc_memory : ℕ → ℕ → ℕ → Memory → ℕ × Memory
unfolding update
alloc_memory conn seq n m = (
  m.next,
  record m {
    next = suc m.next;
    block =
        update m.block m.next
          (some (record { conn = conn; curr_sequence = seq; packet = replicate n m.junk }));
  },
)

-- `FreeMemory(p)`.
unfoldable pub free_memory : ℕ → Memory → Memory
unfolding update
free_memory a m = if a == 0 then m else elim (m.block a) [
  | none ↦ record m { faults = suc m.faults }
  | some x ↦ record m { block = update m.block a none }
]
