-- ===== src/Tests/Lines.antt =====
-- The theorems on Telnet streams and on words and dates at examples.
use rsx.Base.{
  Block, List, [], arith, false, length, none, refl, set_int16, some, true, zeros, ℕ, ◌%◌, ◌+◌, ◌∷◌,
  ◌≡◌,
}
use rsx.Bitmap.{Volume}
use rsx.Dates.{Tm, set_date, timestamp_str}
use rsx.Dates.Stamps.{date_text, timestamp_str-set_date}
use rsx.FileIo.{Fcb}
use rsx.FileNames.{Use, parse_name}
use rsx.FileNames.Fields.{FitsArrays, parse_name-FitsArrays}
use rsx.FileOpen.{close_file, free_run, open_entry}
use rsx.FileOpen.Closing.{Reopened, close_file-Reopened}
use rsx.FileOpen.Clusters.{RunFreed, free_run-RunFreed}
use rsx.IndexFile.Access.{inode_at}
use rsx.MakeDisk.{create_disk, layout}
use rsx.MakeDisk.Label.{create_disk-mounted, mounted}
use rsx.Telnet.{filter_all, norm}
use rsx.Telnet.Items.{
  AllFit, HasNoIac, Item, agree, end_line, escaped, filter_all-HasNoIac, filter_all-stream,
  mode_after, refuse, stream, text, texts,
}
use rsx.Tests.Sample.{sample, sample-HasFree, sample-IsCoherent, sample-bytes, sample-view, volume}

-- "a", WILL BIN, IAC IAC, WONT BIN, CR NUL, "b".
abbrev session : List Item
session = text 97 ∷ agree 0 ∷ escaped ∷ refuse 0 ∷ end_line 0 ∷ text 98 ∷ []

filter_all-stream_example :
    filter_all (stream session) (record { tsta = norm; dstb = false })
    ≡ (97 ∷ 98 ∷ [], record { tsta = norm; dstb = true })
unfolding stream AllFit texts mode_after
filter_all-stream_example =
    filter_all-stream session false
      ((omega arith, refl), (tt, (refl, (tt, (refl, ((omega arith, refl), tt))))))

filter_all-HasNoIac_example :
    HasNoIac (filter_all (255 ∷ 255 ∷ 65 ∷ []) (record { tsta = norm; dstb = false })).0
filter_all-HasNoIac_example =
    filter_all-HasNoIac (255 ∷ 255 ∷ 65 ∷ []) (record { tsta = norm; dstb = false })

abbrev today : Tm
today = record { year = 2023; month = 11; day = 25; hour = 22; minute = 5; second = 59 }

timestamp_str-set_date_example : timestamp_str (set_date zeros 16 today) 16 ≡ date_text today
timestamp_str-set_date_example =
    timestamp_str-set_date zeros 16 today
      (omega arith, refl, omega arith, omega arith, omega arith, omega arith, omega arith)

create_disk-mounted_example :
    mounted (create_disk volume 200 40 today)
    ≡ some (record { nblocks = 200; bmblock = 7; ixblock = 2; clfactor = 0; defprot = 0xFFF8 })
unfolding layout
create_disk-mounted_example = create_disk-mounted volume 200 40 today

-- The master directory is open twice.
abbrev headers : List Use
headers = record { inode = 9; usecnt = 1 } ∷ record { inode = 5; usecnt = 2 } ∷ []

free_run-RunFreed_example : RunFreed 20 1 2 sample (free_run volume 2 1 sample)
free_run-RunFreed_example =
    free_run-RunFreed volume 2 1
      (record {
        coherent = sample-IsCoherent;
        free = sample-HasFree;
        bytes = sample-bytes;
        room = omega arith;
      })
      (omega arith)

-- An index file in block 21, whose first entry is in use, and an open file of that entry.
abbrev indexed : Volume
indexed = record volume { ixblock = 21 }

abbrev open_one : Fcb
open_one = record {
  header = record {
    inode = 1;
    attrib = 1;
    nalloc = 3;
    nused = 2;
    lbcount = 40;
    bmap = λ k. 50 + k % 6;
  };
  curalloc = 0;
  curblk = 1;
  byteptr = 40;
}

abbrev entry_one : Block
entry_one = set_int16 zeros 0 1

close_file-Reopened_example :
    let (done, w) = close_file indexed open_one today zeros sample in
    (done ≡ true)
    × Reopened open_one.header
        (inode_at indexed sample 1 2)
        open_one
        (open_entry indexed (λ i. none) entry_one zeros open_one w)
close_file-Reopened_example =
    close_file-Reopened indexed open_one today zeros entry_one zeros open_one
      (record { coherent = sample-IsCoherent; free = sample-HasFree; room = omega arith })
      (omega arith) (omega arith) (rw (sample-view 21) (omega arith))
      (record {
        nalloc = omega arith;
        nused = omega arith;
        lbcount = omega arith;
        bmap = λ k. omega arith;
      })
      refl

-- "[MASTER]A.B;", with an `atoi` that counts characters.
abbrev typed_name : List ℕ
typed_name = 91 ∷ 77 ∷ 65 ∷ 83 ∷ 84 ∷ 69 ∷ 82 ∷ 93 ∷ 65 ∷ 46 ∷ 66 ∷ 59 ∷ []

parse_name-FitsArrays_example : FitsArrays (parse_name length typed_name)
parse_name-FitsArrays_example = parse_name-FitsArrays length typed_name
