-- ===== src/Main/Runs.antt =====
-- Whole runs of the program, from the options to the status.
use my_fsck.Base.{
  ℕ, ℤ, pos, negsuc, ◌≤◌, ◌≡◌, refl, ◌∙◌, List, [], ◌∷◌, ◌++◌, Option, none, some, Bool, true,
  false, not, ◌||◌, ◌==◌, if◌then◌else◌, Bool-cases, inl, inr,
}
use my_fsck.Machine.State.{Fsck, Image, Message, PartitionEntry, usage, minus_one, partition_info}
use my_fsck.Machine.Run.{ok}
use my_fsck.Partition.{invalid_type}
use my_fsck.Partition.Table.{slot, print_partition_info-slot}
use my_fsck.Correct.Partitions.All.{IsForeign, correct_partition-ends}
use my_fsck.Main.{Opt, open_device, dispatch, main}
use my_fsck.Main.Options.{last_some, p_text, f_text, i_text, asks_help, given, options_loop-last}

-- Whether the usage is printed.
abbrev pub shows_usage : List Opt → ℕ → Bool
shows_usage opts optind = asks_help opts || not (optind == 5)

-- The output after the usage was printed, or not.
abbrev pub greeted : List Message → Bool → List Message
greeted out true = out ++ (usage ∷ [])
greeted out false = out

-- The state behind the opening of the image.
abbrev pub opened : Fsck → Bool → Image → Fsck
opened s help img = record s { image = img; output = greeted s.output help }

module _ (atoi : List ℕ → ℤ) (open_image : List ℕ → Option Image) where
  open_device-found :
      (path : List ℕ) (img : Image) (s : Fsck)
      → open_image path ≡ some img
      → open_device atoi open_image (some path) s ≡ ok tt (record s { image = img })
  unfolding open_device
  open_device-found path img s found = rw (found, open_device) refl

  main-opens :
      (left rounds depth : ℕ) (opts : List Opt) (optind : ℕ) (path : List ℕ) (img : Image)
      (s : Fsck)
      → last_some i_text opts none ≡ some path
      → open_image path ≡ some img
      → main atoi open_image left rounds depth opts optind s
        ≡ dispatch atoi open_image left rounds depth
            (given atoi
              (last_some p_text opts none)
              (last_some f_text opts none)
              (some path)
              (asks_help opts))
            (opened s (shows_usage opts optind) img)
  unfolding main
  main-opens left rounds depth opts optind path img s given_i found =
      rw (options_loop-last atoi open_image opts, given_i)
        (elim (Bool-cases (shows_usage opts optind)) [
          | inl shown ↦
              rw
                (
                  shown,
                  open_device-found path img (record s { output = greeted s.output true }) found,
                )
                refl
          | inr hidden ↦ rw (hidden, open_device-found path img s found) refl
        ])

  -- With a path given last by -i that opens to an image with a first sector, and a text given last
  -- by -p that is a number from 1 to 4, whatever the other options are, the program prints the
  -- usage if -h is given or `optind` is not 5, and then prints -1 with status -1 if the type byte
  -- of that slot of the table is 0xFF, and else the slot, with status 0.
  pub main-prints :
      (left rounds depth : ℕ) (opts : List Opt) (optind n : ℕ) (text path : List ℕ) (img : Image)
      (s : Fsck)
      → last_some p_text opts none ≡ some text
      → atoi text ≡ pos n
      → 1 ≤ n
      → n ≤ 4
      → last_some i_text opts none ≡ some path
      → open_image path ≡ some img
      → 512 ≤ img.size
      → main atoi open_image left rounds depth opts optind s ≡ (
          let e = slot img n in
          let s' = opened s (shows_usage opts optind) img in
          if e.type == 0xFF
          then ok
              (negsuc 0)
              (record s' { partition_entry = e; output = s'.output ++ (minus_one ∷ []) })
          else ok (pos 0) (record s' {
            partition_entry = e;
            output = s'.output ++ (partition_info e.type e.start e.length ∷ []);
          }))
  unfolding dispatch
  main-prints left rounds depth opts optind n text path img s given_p number lo hi given_i found
        fits =
      let e = slot img n in
      main-opens left rounds depth opts optind path img s given_i found
      ∙ rw (given_p, number)
          (rw
            (print_partition_info-slot rounds n (opened s (shows_usage opts optind) img) lo hi fits)
            (elim (Bool-cases (e.type == 0xFF)) [
              | inl missing ↦ rw missing refl
              | inr present ↦ rw present refl
            ]))

  -- With a path given last by -i that opens to an image, a text that is 0 given last by -f, and
  -- none by -p, if the image has a first sector and none of its four primary partitions is of ext2
  -- or extended, and the loop over the partitions may take five rounds, then the program ends with
  -- status 0, whatever the fuel of the other loops; behind the opening of the image only the
  -- global entry has changed, and its type is 0xFF.
  pub main-corrects_none :
      (left rounds depth : ℕ) (opts : List Opt) (optind : ℕ) (text path : List ℕ) (img : Image)
      (s : Fsck)
      → last_some p_text opts none ≡ none
      → last_some f_text opts none ≡ some text
      → atoi text ≡ pos 0
      → last_some i_text opts none ≡ some path
      → open_image path ≡ some img
      → IsForeign img
      → 512 ≤ img.size
      → 5 ≤ left
      → (e : PartitionEntry) × (e.type ≡ invalid_type)
        × (main atoi open_image left rounds depth opts optind s
            ≡ ok (pos 0) (record (opened s (shows_usage opts optind) img) { partition_entry = e }))
  unfolding dispatch
  main-corrects_none left rounds depth opts optind text path img s no_p given_f number given_i found
        foreign fits fuel =
      let r =
        correct_partition-ends left rounds depth (opened s (shows_usage opts optind) img) foreign
          fits fuel in
      (
        r.0,
        r.1,
        main-opens left rounds depth opts optind path img s given_i found
            ∙ rw (no_p, given_f, number, r.2) refl,
      )
