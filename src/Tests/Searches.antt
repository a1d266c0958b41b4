-- ===== src/Tests/Searches.antt =====
-- The search of a name in a block of a directory.
use nextufs.Base.{◌≡◌, ◌≢◌, refl, arith, false, [], ◌∷◌, some, none, err, ok, eio}
use nextufs.Disk.{Dev, Env, Undo, transaction_end}
use nextufs.Disk.Ending.{transaction_end-own_status}
use nextufs.Directory.Entry.{Name, has_byte}
use nextufs.Directory.Iterate.{walk_entries, find_name_cb}
use nextufs.Directory.Fuel.{Runs, walk_entries-Runs}
use nextufs.Directory.Find.{same_name, find_link, walk_entries-find_link}
use nextufs.Directory.Listing.{Link, name_list, listing}
use nextufs.Mutate.Dirent.{place_dirent}
use nextufs.Mutate.Lookup.{place_dirent-find, place_dirent-find_others}
use nextufs.Mutate.Sound.{place_dirent-no_error}
use nextufs.Tests.Device.{Store, device, idle, write_to}
use nextufs.Tests.Volume.{disk}
use nextufs.Tests.Names.{dirblk, dirblk-listing, the_links, name_a, name_b, with_b, b_placed}

walk_entries-Runs_example :
    Runs
      (find_name_cb name_a)
      dirblk
      1024
      0
      0
      (idle disk 0)
      (walk_entries (find_name_cb name_a) dirblk 1024 1025 0 0 (idle disk 0))
walk_entries-Runs_example =
    walk_entries-Runs (find_name_cb name_a) dirblk 1024 1025 0 0 (idle disk 0) (omega arith)

walk_entries-find_link_example :
    walk_entries (find_name_cb name_a) dirblk 1024 9 0 0 (idle disk 0)
    ≡ (ok (find_link (97 ∷ []) the_links), idle disk 0)
unfolding nextufs.Directory.Entry.has_byte nextufs.Directory.Entry.same_bytes
    nextufs.Directory.Entry.dirent_size nextufs.Directory.Entry.bad_reclen
    nextufs.Directory.Entry.bad_name nextufs.Directory.Entry.dirent_at
    nextufs.Directory.Entry.read_dirent nextufs.Directory.Entry.stored_dirent
    nextufs.Directory.Entry.refused_entry nextufs.Directory.Entry.write_dirent_raw
    nextufs.Directory.Iterate.walk_entries nextufs.Directory.Iterate.visit
    nextufs.Directory.Iterate.find_name_cb nextufs.Mutate.Dirent.or_einval
    nextufs.Mutate.Dirent.place_here nextufs.Mutate.Dirent.try_place
    nextufs.Mutate.Dirent.place_dirent nextufs.Directory.Listing.listing
    nextufs.Directory.Listing.listed nextufs.Directory.Listing.name_list nextufs.Codec.read_be32
    nextufs.Codec.read_be16 nextufs.Codec.write_be16 nextufs.Codec.write_be32 nextufs.Disk.pure
    nextufs.Disk.◌>>=◌
walk_entries-find_link_example =
    walk_entries-find_link name_a dirblk 1024 (idle disk 0) 9 0 the_links dirblk-listing

b_absent : (walk_entries (find_name_cb name_b) dirblk 1024 9 0 0 (idle disk 0)).0 ≡ ok (0, 0)
unfolding nextufs.Directory.Entry.has_byte nextufs.Directory.Entry.same_bytes
    nextufs.Directory.Entry.dirent_size nextufs.Directory.Entry.bad_reclen
    nextufs.Directory.Entry.bad_name nextufs.Directory.Entry.dirent_at
    nextufs.Directory.Entry.read_dirent nextufs.Directory.Entry.stored_dirent
    nextufs.Directory.Entry.refused_entry nextufs.Directory.Entry.write_dirent_raw
    nextufs.Directory.Iterate.walk_entries nextufs.Directory.Iterate.visit
    nextufs.Directory.Iterate.find_name_cb nextufs.Mutate.Dirent.or_einval
    nextufs.Mutate.Dirent.place_here nextufs.Mutate.Dirent.try_place
    nextufs.Mutate.Dirent.place_dirent nextufs.Directory.Listing.listing
    nextufs.Directory.Listing.listed nextufs.Directory.Listing.name_list nextufs.Codec.read_be32
    nextufs.Codec.read_be16 nextufs.Codec.write_be16 nextufs.Codec.write_be32 nextufs.Disk.pure
    nextufs.Disk.◌>>=◌
b_absent = refl

place_dirent-find_example :
    (walk_entries (find_name_cb name_b) with_b 1024 10 0 0 (idle disk 0)).0 ≡ ok (1, 6)
place_dirent-find_example =
    place_dirent-find name_b 6 (omega arith) (λ i lt. omega arith) (omega arith) (omega arith)
      dirblk with_b 1024 9 the_links (idle disk 0) dirblk-listing b_placed b_absent

names_differ : same_name (name_list name_b.chars 1) (name_list name_a.chars 1) ≡ false
unfolding nextufs.Directory.Entry.has_byte nextufs.Directory.Entry.same_bytes
    nextufs.Directory.Entry.dirent_size nextufs.Directory.Entry.bad_reclen
    nextufs.Directory.Entry.bad_name nextufs.Directory.Entry.dirent_at
    nextufs.Directory.Entry.read_dirent nextufs.Directory.Entry.stored_dirent
    nextufs.Directory.Entry.refused_entry nextufs.Directory.Entry.write_dirent_raw
    nextufs.Directory.Iterate.walk_entries nextufs.Directory.Iterate.visit
    nextufs.Directory.Iterate.find_name_cb nextufs.Mutate.Dirent.or_einval
    nextufs.Mutate.Dirent.place_here nextufs.Mutate.Dirent.try_place
    nextufs.Mutate.Dirent.place_dirent nextufs.Directory.Listing.listing
    nextufs.Directory.Listing.listed nextufs.Directory.Listing.name_list nextufs.Codec.read_be32
    nextufs.Codec.read_be16 nextufs.Codec.write_be16 nextufs.Codec.write_be32 nextufs.Disk.pure
    nextufs.Disk.◌>>=◌ nextufs.Directory.Find.same_name
names_differ = refl

place_dirent-find_others_example :
    (walk_entries (find_name_cb name_a) with_b 1024 10 0 0 (idle disk 0)).0
    ≡ (walk_entries (find_name_cb name_a) dirblk 1024 9 0 0 (idle disk 0)).0
place_dirent-find_others_example =
    place_dirent-find_others name_b 6 (omega arith) (λ i lt. omega arith) (omega arith)
      (omega arith) dirblk with_b 1024 9 the_links (idle disk 0) name_a dirblk-listing b_placed
      names_differ

no_slash : has_byte name_b.chars 47 1 ≡ false
unfolding nextufs.Directory.Entry.has_byte nextufs.Directory.Entry.same_bytes
    nextufs.Directory.Entry.dirent_size nextufs.Directory.Entry.bad_reclen
    nextufs.Directory.Entry.bad_name nextufs.Directory.Entry.dirent_at
    nextufs.Directory.Entry.read_dirent nextufs.Directory.Entry.stored_dirent
    nextufs.Directory.Entry.refused_entry nextufs.Directory.Entry.write_dirent_raw
    nextufs.Directory.Iterate.walk_entries nextufs.Directory.Iterate.visit
    nextufs.Directory.Iterate.find_name_cb nextufs.Mutate.Dirent.or_einval
    nextufs.Mutate.Dirent.place_here nextufs.Mutate.Dirent.try_place
    nextufs.Mutate.Dirent.place_dirent nextufs.Directory.Listing.listing
    nextufs.Directory.Listing.listed nextufs.Directory.Listing.name_list nextufs.Codec.read_be32
    nextufs.Codec.read_be16 nextufs.Codec.write_be16 nextufs.Codec.write_be32 nextufs.Disk.pure
    nextufs.Disk.◌>>=◌
no_slash = refl

place_dirent-no_error_example : place_dirent name_b 6 dirblk 1024 9 0 ≢ err 5
place_dirent-no_error_example =
    place_dirent-no_error name_b 6 (omega arith) no_slash dirblk 1024 9 0 the_links 5 dirblk-listing

-- a device that never fails
abbrev sound_device : Env Store
sound_device = record device {
  write = λ s b size offset. (ok tt, (write_to (s.0, 0) b size offset).1);
}

-- an open log with one record, and an operation that failed
abbrev half_done : Dev Store
half_done = record {
  store = (disk, 0);
  transaction = some (record {
    records = (record { offset = 16394; size = 1; before = λ i. 7; after_stray = 0 }) ∷ [];
    stray = 0;
  });
}

transaction_end-own_status_example :
    ((transaction_end sound_device (err eio) half_done).0 ≡ err eio)
    × ((transaction_end sound_device (err eio) half_done).1.transaction ≡ none)
transaction_end-own_status_example =
    transaction_end-own_status sound_device (λ u. refl) (λ s b size offset. refl) (λ s. refl)
      (err eio) half_done
