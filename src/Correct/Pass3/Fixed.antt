-- ===== src/Correct/Pass3/Fixed.antt =====
-- Pass 3 makes the link counts those of the table.
use mathlib.Core.Path.{subst}
use my_fsck.Base.{
  ℕ, zero, suc, ◌+◌, ◌^◌, ◌≤◌, ◌<◌, ◌≡◌, refl, arith, ap, ◌∙◌, inl, inr, Bool-cases, ◌==◌, ==→eq,
  List, ◌++◌, ◌∷◌, [],
}
use my_fsck.Machine.Memory.{Bytes}
use my_fsck.Machine.State.{Fsck, Inode, Message, link_count}
use my_fsck.Machine.Run.{ok}
use my_fsck.Inode.{parse_inode}
use my_fsck.Inode.Read.{inode_at, read_inode-ok}
use my_fsck.Inode.Write.{LinkCountWritten, write_inode-LinkCountWritten}
use my_fsck.Inode.Update.{
  with_image, with_image-InodeOnDisk, same_inode, inode_at-written, inode_at-written-Apart,
}
use my_fsck.Correct.Links.{calloc, directory_traversor}
use my_fsck.Correct.LostFound.{root_inode_num}
use my_fsck.Correct.Pass3.{char_to_u32, pass3_inode, pass3_loop, pass3}
use my_fsck.Correct.Pass3.Change.{
  InodesOnDisk, LinksFixed, with_count, with_image-InodesOnDisk, LinksFixed-InodesOnDisk,
  LinksFixed-refl, LinksFixed-trans, same_address,
}

links-lt : (s : Fsck) (j : ℕ) → (inode_at s j).i_links_count < 2 ^ 16
unfolding inode_at parse_inode
links-lt s j = omega arith

right_count :
    (n : ℕ) (table : Bytes) (i : ℕ) (s : Fsck)
    → (inode_at s i).i_links_count ≡ char_to_u32 (table i)
    → LinksFixed n table i (i + 1) s s
right_count n table i s same = record {
  only_image = refl;
  same_size = refl;
  fixed = λ j one le lo hi.
      subst (λ (k : ℕ). inode_at s k ≡ with_count (inode_at s k) (table k)) (omega arith)
        (ap (λ (c : ℕ). record (inode_at s i) { i_links_count = c })
          (omega (arith, same, links-lt s i)));
  others = λ j one le out. refl;
  bytes = λ h. h;
  other_bytes = λ x lt out. refl;
}

written_count :
    (n : ℕ) (table : Bytes) (i : ℕ) (s : Fsck) (out : List Message) (s' : Fsck)
    → InodesOnDisk s n
    → 1 ≤ i
    → i ≤ n
    → LinkCountWritten (with_image s s.image out) i (char_to_u32 (table i)) s'
    → LinksFixed n table i (i + 1) s s'
written_count n table i s out s' h lo hi w =
    let s1 = with_image s s.image out in
    let as_before : (j : ℕ) → inode_at s1 j ≡ inode_at s j =
      λ j. same_inode s s.image out j (λ x p q. refl) in
    let h1 = with_image-InodesOnDisk s s.image out n refl h in
    record {
      only_image = w.only_image;
      same_size = w.same_size;
      fixed = λ j one le at_lo at_hi.
          subst (λ (k : ℕ). inode_at s' k ≡ with_count (inode_at s k) (table k)) (omega arith)
            (inode_at-written s1 i (char_to_u32 (table i)) s' w (h1.on_disk i lo hi)
              ∙ ap (λ (x : Inode). with_count x (table i)) (as_before i));
      others = λ j one le at_out.
          inode_at-written-Apart s1 i (char_to_u32 (table i)) s' w j (h1.on_disk j one le)
            (h1.apart i j lo hi one le (λ e. absurd (omega arith)))
          ∙ as_before j;
      bytes = w.bytes;
      other_bytes =
          λ x lt out. w.others x lt (omega (arith, out i lo hi, same_address s s1 refl i));
    }

-- One round of the loop.
pass3_inode-LinksFixed :
    (n : ℕ) (table : Bytes) (i : ℕ) (s : Fsck)
    → InodesOnDisk s n
    → 1 ≤ i
    → i ≤ n
    → (s' : Fsck) × (pass3_inode table i s ≡ ok tt s') × LinksFixed n table i (i + 1) s s'
unfolding pass3_inode
pass3_inode-LinksFixed n table i s h lo hi =
    let got = read_inode-ok s i (h.on_disk i lo hi) in
    let count = (inode_at s i).i_links_count in
    elim (Bool-cases (count == char_to_u32 (table i))) [
      | inl same ↦ (s, rw (got, same), right_count n table i s (==→eq _ _ same))
      | inr differs ↦
          let s1 =
            with_image s s.image (s.output ++ (link_count i count (char_to_u32 (table i)) ∷ [])) in
          let w =
            write_inode-LinkCountWritten s1 i (char_to_u32 (table i))
              (with_image-InodeOnDisk s s.image s1.output i refl (h.on_disk i lo hi)) in
          (w.0, rw (got, differs) w.1, written_count n table i s s1.output w.0 h lo hi w.2)
    ]

pass3_loop-LinksFixed :
    (n : ℕ) (table : Bytes) (left i : ℕ) (s : Fsck)
    → InodesOnDisk s n
    → 1 ≤ i
    → i + left ≤ n + 1
    → (s' : Fsck) × (pass3_loop left i table s ≡ ok tt s') × LinksFixed n table i (i + left) s s'
unfolding pass3_loop
pass3_loop-LinksFixed n table zero i s h lo hi = (
  s,
  refl,
  subst (λ (k : ℕ). LinksFixed n table i k s s) (omega arith) (LinksFixed-refl n table i s),
)
pass3_loop-LinksFixed n table (suc left) i s h lo hi =
    let step = pass3_inode-LinksFixed n table i s h lo (omega arith) in
    let rest =
      pass3_loop-LinksFixed n table left (i + 1) step.0 (LinksFixed-InodesOnDisk step.2 h)
        (omega arith) (omega arith) in
    (
      rest.0,
      rw step.1 rest.1,
      subst (λ (k : ℕ). LinksFixed n table i k s rest.0) (omega arith)
          (LinksFixed-trans (omega arith) (omega arith) step.2 rest.2),
    )

-- If the inodes 1 to `s_inodes_count` stand on the disk, apart from one another, and the traversal
-- of the directories gives a table, then `pass3` succeeds, and the link count of each of these
-- inodes is the table's entry for it, extended from a signed `char` and cut to 16 bits; all else
-- in these inodes is as before, and of the state only the image and the output have changed.
pub pass3-LinksFixed :
    (depth : ℕ) (s : Fsck) (table : Bytes)
    → InodesOnDisk s s.super_block.s_inodes_count
    → directory_traversor depth (calloc s.stray (s.super_block.s_inodes_count + 1)) root_inode_num s
      ≡ ok table s
    → (s' : Fsck) × (pass3 depth s ≡ ok tt s')
      × LinksFixed s.super_block.s_inodes_count table 1 (s.super_block.s_inodes_count + 1) s s'
unfolding pass3
pass3-LinksFixed depth s table h traversed =
    let n = s.super_block.s_inodes_count in
    let r = pass3_loop-LinksFixed n table n 1 s h (omega arith) (omega arith) in
    (r.0, rw traversed r.1, subst (λ (k : ℕ). LinksFixed n table 1 k s r.0) (omega arith) r.2)
