-- ===== src/Dir/Path/Walk.antt =====
-- The search for a path goes from part to part.
use my_fsck.Base.{ℕ, ◌<◌, ◌≢◌, List, [], ◌∷◌, ◌++◌, length, Option, some}
use my_fsck.Machine.State.{Inode, DirEntry}
use my_fsck.Machine.Run.{M, Run, pure, ◌>>=◌}
use my_fsck.Dir.{search_dir_entry}
use my_fsck.Dir.Path.{enter}

-- A part of a path: not too long for the array, and without a slash or a zero.
abbrev pub AllPlain : List ℕ → Type 0
AllPlain [] = Unit
AllPlain (c ∷ cs) = (c ≢ 0) × (c ≢ b'/') × AllPlain cs

abbrev pub IsPart : List ℕ → Type 0
IsPart part = (length part < 255) × AllPlain part

-- The text of a path from its parts: the first part, then each of the others behind a slash.
abbrev pub behind_slashes : List (List ℕ) → List ℕ
behind_slashes [] = []
behind_slashes (p ∷ ps) = b'/' ∷ (p ++ behind_slashes ps)

abbrev pub AllParts : List (List ℕ) → Type 0
AllParts [] = Unit
AllParts (p ∷ ps) = IsPart p × AllParts ps

-- The search for one part after the other, each in the directory that the one before it names.
unfoldable pub walk : List (List ℕ) → Inode → DirEntry → M (Option DirEntry)
walk [] inode entry = pure (some entry)
walk (p ∷ ps) inode entry = search_dir_entry inode p >>= enter (walk ps)
