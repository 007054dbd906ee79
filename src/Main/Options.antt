-- ===== src/Main/Options.antt =====
-- The loop over the options: what it leaves in the variables of `main`.
use my_fsck.Base.{
  ℕ, ℤ, negsuc, ◌≡◌, refl, sym, ap, ◌∙◌, List, [], ◌∷◌, Option, none, some, Bool, true, false, ◌||◌,
}
use my_fsck.Machine.State.{Image}
use my_fsck.Main.{Opt, p, f, i, h, other, Settings, unset_settings, set_option, options_loop}

-- The texts that are given with -p, -f and -i, each with the last one winning.
unfoldable pub last_some : {A : Type 0} → (Opt → Option A) → List Opt → Option A → Option A
last_some pick [] before = before
last_some pick (opt ∷ opts) before = elim (pick opt) [
  | none ↦ last_some pick opts before
  | some text ↦ last_some pick opts (some text)
]

abbrev pub p_text : Opt → Option (List ℕ)
p_text (p text) = some text
p_text (f text) = none
p_text (i text) = none
p_text h = none
p_text other = none

abbrev pub f_text : Opt → Option (List ℕ)
f_text (p text) = none
f_text (f text) = some text
f_text (i text) = none
f_text h = none
f_text other = none

abbrev pub i_text : Opt → Option (List ℕ)
i_text (p text) = none
i_text (f text) = none
i_text (i text) = some text
i_text h = none
i_text other = none

unfoldable pub asks_help : List Opt → Bool
asks_help [] = false
asks_help (p text ∷ opts) = asks_help opts
asks_help (f text ∷ opts) = asks_help opts
asks_help (i text ∷ opts) = asks_help opts
asks_help (h ∷ opts) = true
asks_help (other ∷ opts) = asks_help opts

-- The number of a text, and -1 without one.
abbrev pub number_of : (List ℕ → ℤ) → Option (List ℕ) → ℤ
number_of atoi none = negsuc 0
number_of atoi (some text) = atoi text

-- The variables after texts were given.
abbrev pub given : (List ℕ → ℤ) → (p_last f_last i_last : Option (List ℕ)) → Bool → Settings
given atoi p_last f_last i_last help = record {
  print_partition_num = number_of atoi p_last;
  correct_partition_num = number_of atoi f_last;
  image_path = i_last;
  help = help;
}

or_true : (b : Bool) → (b || true) ≡ true
or_true true = refl
or_true false = refl

module _ (atoi : List ℕ → ℤ) (open_image : List ℕ → Option Image) where
  options_loop-given :
      (opts : List Opt) (p_last f_last i_last : Option (List ℕ)) (help : Bool)
      → options_loop atoi open_image opts (given atoi p_last f_last i_last help)
        ≡ given atoi
            (last_some p_text opts p_last)
            (last_some f_text opts f_last)
            (last_some i_text opts i_last)
            (help || asks_help opts)
  unfolding options_loop set_option last_some asks_help
  options_loop-given [] p_last f_last i_last true = refl
  options_loop-given [] p_last f_last i_last false = refl
  options_loop-given (p text ∷ opts) p_last f_last i_last help =
      options_loop-given opts (some text) f_last i_last help
  options_loop-given (f text ∷ opts) p_last f_last i_last help =
      options_loop-given opts p_last (some text) i_last help
  options_loop-given (i text ∷ opts) p_last f_last i_last help =
      options_loop-given opts p_last f_last (some text) help
  options_loop-given (h ∷ opts) p_last f_last i_last help =
      options_loop-given opts p_last f_last i_last true
      ∙ ap
          (given atoi (last_some p_text opts p_last) (last_some f_text opts f_last)
            (last_some i_text opts i_last))
          (sym (or_true help))
  options_loop-given (other ∷ opts) p_last f_last i_last help =
      options_loop-given opts p_last f_last i_last help

  -- For every list of options the loop over them leaves the number of the last text given with -p,
  -- that of the last one given with -f, each -1 if there is none, the last path given with -i, and
  -- whether -h is among them.
  pub options_loop-last :
      (opts : List Opt)
      → options_loop atoi open_image opts unset_settings
        ≡ given atoi
            (last_some p_text opts none)
            (last_some f_text opts none)
            (last_some i_text opts none)
            (asks_help opts)
  options_loop-last opts = options_loop-given opts none none none false
