-- ===== src/Vmr.antt =====
-- Tools/linux/vol180/vmr.c: the system image that the virtual MCR edits. The kernel's tables and
-- lists lie in the first 64 KB of it, and are reached by the addresses of the kernel's symbols.
pub mod Pool
pub mod Names
pub mod Partitions
pub mod Tasks
pub mod Devices
use rsx.Base.{Block, get_int16, set_int16, update, ℕ, ◌%◌, ◌*◌, ◌+◌}

-- `system_image`; an `address` is below 65536, a bank has 4096 bytes.
abbrev pub Image : Type 0
Image = Block

-- `address` arithmetic.
abbrev pub addr16 : ℕ → ℕ
addr16 a = a % 65536

unfoldable pub sys_getb : ℕ → ℕ → Image → ℕ
sys_getb bank addr m = m (addr + bank * 4096)

unfoldable pub sys_getw : ℕ → ℕ → Image → ℕ
sys_getw bank addr m = get_int16 m (addr + bank * 4096)

unfoldable pub sys_putb : ℕ → ℕ → ℕ → Image → Image
sys_putb bank addr val m = update m (addr + bank * 4096) (val % 256)

unfoldable pub sys_putw : ℕ → ℕ → ℕ → Image → Image
sys_putw bank addr val m = set_int16 m (addr + bank * 4096) val

-- What `get_sym` returns for the names that the code looks up.
pub record Symbols : Type 0 where
  pub sysend : ℕ
  pub systop : ℕ
  pub polsz : ℕ
  pub pool : ℕ
  pub plist : ℕ
  pub tlist : ℕ
  pub phydv : ℕ
  pub iddtbl : ℕ
