-- ===== src/Tests/Throttle.antt =====
-- A decode of /a/b/c.mp4 while the root /a/b/ is removed.
use vidcull.Prelude.{◌≡◌, refl, ◌↔◌, none, some, true, false, [], ◌∷◌, inl, get_elem?}
use vidcull.Core.{codes}
use vidcull.Daemon.Paths.{FilePath, path_under_root, trim_end, Below, path_under_root_iff}
use vidcull.Daemon.Throttle.{
  register_begin, register_push, mark_extend, mark_tokens, default, is_path_removed,
}
use vidcull.Daemon.Throttle.Removal.{
  World, start, begin_register, end_register, begin_mark, end_mark, Reach, here, next,
  removed_decode_told,
}

abbrev clip : FilePath
clip = codes "/a/b/c.mp4"

abbrev root : FilePath
root = codes "/a/b/"

clip_under_root : path_under_root clip root ≡ true
unfolding path_under_root
clip_under_root = refl

sibling_not_under : path_under_root (codes "/a/bc.mp4") root ≡ false
unfolding path_under_root
sibling_not_under = refl

path_under_root_iff_example : (path_under_root clip root ≡ true) ↔ Below clip (trim_end root)
path_under_root_iff_example = path_under_root_iff clip root

-- The registration begins before the root is removed, and ends before the visit to the tokens.
abbrev after_begin : World
after_begin = record start { control = register_begin clip default; registering = some (clip, 0) }

abbrev after_extend : World
after_extend = record after_begin {
  control = mark_extend (root ∷ []) after_begin.control;
  marking = (root ∷ []) ∷ [];
}

abbrev after_push : World
after_push = record after_extend {
  control = register_push clip 0 after_extend.control;
  registering = none;
}

abbrev after_mark : World
after_mark = record after_push {
  control = mark_tokens (root ∷ []) after_push.control;
  marking = [];
}

after_mark-Reach : Reach after_mark
unfolding register_begin mark_extend register_push
after_mark-Reach =
    next
      (next (next (next here (begin_register clip refl)) (begin_mark (root ∷ [])))
        (end_register clip 0 refl))
      (end_mark (root ∷ []) [] [] refl refl)

removed_decode_told_example : get_elem? after_mark.control.flags 0 ≡ some true
unfolding register_begin register_push mark_extend mark_tokens is_path_removed path_under_root
removed_decode_told_example =
    removed_decode_told after_mark clip 0 after_mark-Reach refl (inl refl) refl
