-- ===== src/Main.antt =====
-- myfsck.c: the options of the command line, and what is done with them.
pub mod Options
pub mod Runs
use my_fsck.Base.{
  ℕ, ℤ, pos, negsuc, List, [], ◌∷◌, Option, none, some, Bool, true, false, not, ◌||◌, ◌==◌,
  if◌then◌else◌,
}
use my_fsck.Machine.State.{Fsck, Image, usage, cannot_open}
use my_fsck.Machine.Run.{M, exited, fault, pure, halt, modify, print, when, ◌>>=◌, ◌>>◌}
use my_fsck.Partition.{print_partition_info}
use my_fsck.Correct.Partitions.{correct_partition}

-- What `getopt` gives for one option, with the text of its argument. `other` is what it gives for
-- an option that it does not know.
pub data Opt : Type 0 where
  p f i : List ℕ → Opt
  h other : Opt

-- The variables of `main` that the loop sets. `image_path` is not set at the beginning.
pub record Settings : Type 0 where
  pub print_partition_num : ℤ
  pub correct_partition_num : ℤ
  pub image_path : Option (List ℕ)
  pub help : Bool

abbrev pub unset_settings : Settings
unset_settings = record {
  print_partition_num = negsuc 0;
  correct_partition_num = negsuc 0;
  image_path = none;
  help = false;
}

-- `num != -1`.
abbrev pub is_set : ℤ → Bool
is_set (pos n) = true
is_set (negsuc n) = not (n == 0)

-- A partition number for the functions below, which are modelled for numbers that are not negative.
abbrev pub with_number : {A : Type 0} → ℤ → (ℕ → M A) → M A
with_number (pos n) run = run n
with_number (negsuc n) run = halt fault

-- `atoi` and `open` are of the C library: the number that a text spells, and the image behind a
-- path.
module _ (atoi : List ℕ → ℤ) (open_image : List ℕ → Option Image) where
  unfoldable pub set_option : Opt → Settings → Settings
  set_option (p optarg) o = record o { print_partition_num = atoi optarg }
  set_option (f optarg) o = record o { correct_partition_num = atoi optarg }
  set_option (i optarg) o = record o { image_path = some optarg }
  set_option h o = record o { help = true }
  set_option other o = o

  unfoldable pub options_loop : List Opt → Settings → Settings
  options_loop [] o = o
  options_loop (opt ∷ opts) o = options_loop opts (set_option opt o)

  -- `open(image_path, O_RDWR)`; a path that was not set is a use of an unknown pointer.
  unfoldable pub open_device : Option (List ℕ) → M (Unit {0})
  open_device none = halt fault
  open_device (some path) = elim (open_image path) [
    | none ↦ do print cannot_open; halt exited
    | some image ↦ modify (λ s. record s { image = image })
  ]

  -- The last part: the status is -1 or 0.
  unfoldable pub dispatch : (left rounds depth : ℕ) → Settings → M ℤ
  dispatch left rounds depth o = elim (is_set o.print_partition_num) [
    | true ↦
        with_number o.print_partition_num
          (λ n. do found ← print_partition_info rounds n; pure (if found then pos 0 else negsuc 0))
    | false ↦ elim (is_set o.correct_partition_num) [
      | true ↦
          with_number o.correct_partition_num
            (λ n. do correct_partition left rounds depth n; pure (pos 0))
      | false ↦ pure (pos 0)
    ]
  ]

  -- `opts` and `optind` are what `getopt` gives. After the usage was printed the program goes on.
  unfoldable pub main : (left rounds depth : ℕ) → List Opt → (optind : ℕ) → M ℤ
  main left rounds depth opts optind = do
    let o = options_loop opts unset_settings
    when (o.help || not (optind == 5)) (print usage)
    open_device o.image_path
    dispatch left rounds depth o
