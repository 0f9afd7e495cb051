-- ===== src/Check/Directories.antt =====
-- The walks over directories of Tools/linux/vol180/check.c: the loop of `check_directory` on an open
-- directory, and `check_master_dir`. The walks have fuel: one round for each entry and one for the
-- end, but without writing the second walk reads a wrong entry of MASTER.DIR again and again.
use rsx.Base.{
  Block, Bool, List, Option, [], false, get_int16, if◌then◌else◌, leb, none, not, some, suc, true,
  update, zero, ℕ, ◌&&◌, ◌+◌, ◌==◌, ◌∷◌,
}
use rsx.Bitmap.{Volume}
use rsx.Buffer.{Cache}
use rsx.Check.Links.{check_dirent}
use rsx.Directory.{match, set_dir_entry}
use rsx.FileIo.{Fcb, Run, file_pos, file_read, file_seek, ok, out_of_fuel}
use rsx.FileWrite.{file_write, run_then}
use rsx.IndexFile.{read_inode}

-- `errcnt` and `ixmap` behind the walk over a directory; `none` is a return with a message.
abbrev pub Counts : Type 0
Counts = Option (ℕ × (ℕ → ℕ))

-- The entry of the index file, which is read if the number is below `inodes`.
abbrev pub inode_of : Volume → (inodes ino : ℕ) → Block → Cache → Bool × Block × Cache
inode_of g inodes ino inode v =
    if leb inodes ino then (true, inode, v) else read_inode g ino inode v

-- `file_seek(fcb, fpos); file_write(fcb, dirent, 16)`: whether all was written.
unfoldable pub write_back : Volume → (fpos : ℕ) → Block → Fcb → Cache → Run Bool
write_back g fpos dirent f v =
    run_then (file_seek g f fpos v)
      λ found f1 v1. run_then (file_write g f1 dirent 16 v1) λ n f2 v2. ok (n == 16) f2 v2

-- The loop of `check_directory`.
unfoldable pub walk_directory :
    ℕ
    → (read_only : Bool) → Volume
    → (inodes : ℕ) → (inode dirent : Block) → (errcnt : ℕ) → (ixmap : ℕ → ℕ) → Fcb
    → Cache
    → Run Counts
unfolding write_back
walk_directory zero read_only g inodes inode dirent errcnt ixmap f v = out_of_fuel
walk_directory (suc fuel) read_only g inodes inode dirent errcnt ixmap f v =
    run_then (file_read g f dirent 16 v) λ r f1 v1.
      let entry = r.1 in
      let ino = get_int16 entry 0 in
      let (done, node, v2) = inode_of g inodes ino inode v1 in
      elim (r.0 == 16) [
        | false ↦ ok (some (errcnt, ixmap)) f1 v1
        | true ↦ elim (ino == 0) [
          | true ↦ walk_directory fuel read_only g inodes inode entry errcnt ixmap f1 v1
          | false ↦ elim done [
            | false ↦ ok none f1 v2
            | true ↦ elim (check_dirent inodes node entry ixmap) [
              | none ↦ out_of_fuel
              | some (errs, save, fixed, refs) ↦ elim (save && not read_only) [
                | false ↦
                    walk_directory fuel read_only g inodes node fixed (errcnt + errs) refs f1 v2
                | true ↦ run_then (write_back g (file_pos f) fixed f1 v2) λ wrote f2 v3.
                    elim wrote [
                      | false ↦ ok none f2 v3
                      | true ↦
                          walk_directory fuel read_only g inodes node fixed (errcnt + errs) refs f2
                            v3
                    ]
              ]
            ]
          ]
        ]
      ]

-- `MASTER`, `DIR` and `SYS`.
abbrev pub master : List ℕ
master = 77 ∷ 65 ∷ 83 ∷ 84 ∷ 69 ∷ 82 ∷ []

abbrev pub dir_ext : List ℕ
dir_ext = 68 ∷ 73 ∷ 82 ∷ []

abbrev pub sys_ext : List ℕ
sys_ext = 83 ∷ 89 ∷ 83 ∷ []

-- The first loop of `check_master_dir`: the position of the end, the array, the files found by their
-- numbers and the count of errors; `none` is a return with a message.
unfoldable pub find_system :
    ℕ
    → (read_only : Bool) → Volume
    → Block
    → (seen : ℕ → Bool) → (errcnt : ℕ) → Fcb
    → Cache
    → Run (Option (ℕ × Block × (ℕ → Bool) × ℕ))
unfolding write_back
find_system zero read_only g dirent seen errcnt f v = out_of_fuel
find_system (suc fuel) read_only g dirent seen errcnt f v =
    run_then (file_read g f dirent 16 v) λ r f1 v1.
      let entry = r.1 in
      let ino = get_int16 entry 0 in
      let now = update seen ino true in
      let fixed = set_dir_entry entry ino master dir_ext 1 in
      elim (r.0 == 16) [
        | false ↦ ok (some (file_pos f, entry, seen, errcnt)) f1 v1
        | true ↦ elim ((ino == 5) && not (match entry master dir_ext 1)) [
          | false ↦ find_system fuel read_only g entry now errcnt f1 v1
          | true ↦ run_then (file_seek g f1 (file_pos f) v1) λ found f2 v2. elim read_only [
            | true ↦ find_system fuel true g fixed now (errcnt + 1) f2 v2
            | false ↦ run_then (file_write g f2 fixed 16 v2) λ n f3 v3. elim (n == 16) [
              | false ↦ ok none f3 v3
              | true ↦ find_system fuel false g fixed now (errcnt + 1) f3 v3
            ]
          ]
        ]
      ]

-- The repair of one missing entry; `none` is a return with a message.
unfoldable pub restore_entry :
    (read_only : Bool)
    → Volume
    → (seen : ℕ → Bool) → (ino : ℕ) → (fname ext : List ℕ) → Block × ℕ
    → Fcb
    → Cache
    → Run (Option (Block × ℕ))
restore_entry read_only g seen ino fname ext (dirent, errcnt) f v =
    let fixed = set_dir_entry dirent ino fname ext 1 in
    elim (seen ino) [
      | true ↦ ok (some (dirent, errcnt)) f v
      | false ↦ elim read_only [
        | true ↦ ok (some (fixed, errcnt + 1)) f v
        | false ↦ run_then (file_write g f fixed 16 v) λ n f1 v1. elim (n == 16) [
          | true ↦ ok (some (fixed, errcnt + 1)) f1 v1
          | false ↦ ok none f1 v1
        ]
      ]
    ]

-- The names of the system files, from entry 1 on.
abbrev pub system_names : List (List ℕ × List ℕ)
system_names =
    (73 ∷ 78 ∷ 68 ∷ 69 ∷ 88 ∷ 70 ∷ [], sys_ext)
    ∷ (66 ∷ 73 ∷ 84 ∷ 77 ∷ 65 ∷ 80 ∷ [], sys_ext)
    ∷ (66 ∷ 65 ∷ 68 ∷ 66 ∷ 76 ∷ 75 ∷ [], sys_ext)
    ∷ (66 ∷ 79 ∷ 79 ∷ 84 ∷ [], sys_ext)
    ∷ (master, dir_ext)
    ∷ []

-- The five repairs.
unfoldable pub restore_all :
    (read_only : Bool)
    → Volume
    → (seen : ℕ → Bool) → (ino : ℕ) → List (List ℕ × List ℕ)
    → Block × ℕ
    → Fcb
    → Cache
    → Run (Option ℕ)
unfolding restore_entry
restore_all read_only g seen ino [] s f v = ok (some s.1) f v
restore_all read_only g seen ino (file ∷ files) s f v =
    run_then (restore_entry read_only g seen ino file.0 file.1 s f v) λ r f1 v1. elim r [
      | none ↦ ok none f1 v1
      | some s1 ↦ restore_all read_only g seen (ino + 1) files s1 f1 v1
    ]

-- `check_master_dir`, with the count of errors.
unfoldable pub check_master_dir :
    ℕ → (read_only : Bool) → Volume → Block → (errcnt : ℕ) → Fcb → Cache → Run (Option ℕ)
unfolding find_system restore_all
check_master_dir fuel read_only g dirent errcnt f v = run_then (file_seek g f 0 v) λ found f1 v1.
    run_then (find_system fuel read_only g dirent (λ i. false) errcnt f1 v1) λ r f2 v2. elim r [
      | none ↦ ok none f2 v2
      | some (fpos, entry, seen, errs) ↦
          run_then (file_seek g f2 fpos v2)
            λ again f3 v3. restore_all read_only g seen 1 system_names (entry, errs) f3 v3
    ]
