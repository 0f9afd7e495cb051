-- ===== src/Check.antt =====
-- Tools/linux/vol180/check.c: the checks of a volume, and what they repair. Messages are not
-- modelled, the count of errors is.
pub mod Inodes
pub mod Names
pub mod Links
pub mod Clusters
pub mod Compare
pub mod Directories
use rsx.Base.{Block, Bool, false, if◌then◌else◌, true, ℕ}
use rsx.Bitmap.{Volume}
use rsx.Buffer.{Cache}
use rsx.IndexFile.{read_inode, write_inode}

-- Where a pass stops or goes on: whether it goes on, the count of errors and the cache.
pub record Pass : Type 0 where
  pub passed : Bool
  pub errcnt : ℕ
  pub cache : Cache

abbrev pub abort : ℕ → Cache → Pass
abort errcnt v = record { passed = false; errcnt = errcnt; cache = v }

abbrev pub proceed : ℕ → Cache → Pass
proceed errcnt v = record { passed = true; errcnt = errcnt; cache = v }

-- `++errcnt` under a test.
abbrev pub count_if : Bool → ℕ
count_if b = if b then 1 else 0

-- `if (!read_only) if (!write_inode(...)) return 0;` and what follows.
abbrev pub save_inode : Bool → Volume → (num : ℕ) → Block → (errcnt : ℕ) → Cache → Pass
save_inode read_only g num entry errcnt v =
    let (done, w) = write_inode g num entry v in
    if read_only then proceed errcnt v else record { passed = done; errcnt = errcnt; cache = w }

abbrev pub and_then : Pass → (ℕ → Cache → Pass) → Pass
and_then p next = elim p.passed [ true ↦ next p.errcnt p.cache | false ↦ p ]

-- `if (!read_inode(num, inode)) return 0;` and what follows.
abbrev pub load_inode :
    Volume → (num : ℕ) → Block → (errcnt : ℕ) → Cache → (Block → Cache → Pass) → Pass
load_inode g num inode errcnt v next =
    let (done, entry, w) = read_inode g num inode v in
    elim done [ true ↦ next entry w | false ↦ abort errcnt w ]
