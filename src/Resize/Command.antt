-- ===== src/Resize/Command.antt =====
-- `resize_grow`. The image that is grown is opened and closed by the caller's parameters, its label
-- is reached through a file descriptor, and its file is enlarged by `truncate`. Wherever a call of the
-- model fails the source prints a message and returns 1.
use nextufs_offline.Base.{
  ℕ, zero, suc, ◌-◌, ◌/◌, ◌%◌, Bool, true, false, not, ◌&&◌, ◌||◌, List, Option, none, some, add32,
  ltb, leb, ◌==◌, if◌then◌else◌,
}
use nextufs_offline.Fd.{Fd}
use nextufs_offline.Io.{
  M, ◌>>=◌, ◌>>◌, pure, fail, require, out_of_fuel, einval, efbig, Os, Image, image_pread,
  image_fsync, malloc_or_fail,
}
use nextufs_offline.Label.Patch.{label_validate_single_slice, label_patch_slice_size}
use nextufs_offline.Size.{kib_bytes, sectors_1k, parse_size_bytes}
use nextufs_offline.Resize.Groups.{sblock_offset}
use nextufs_offline.Resize.Evacuate.{evacuate_summary_extension_range}
use nextufs_offline.Resize.Grow.{
  Target, target_of, target_ok, grow_last_group, grow_summary, add_groups,
  patch_and_write_superblocks,
}

-- `NEXTUFS_COMPAT_MAX_BYTES`
abbrev pub compat_max_bytes : ℕ
compat_max_bytes = 4294836224

-- The fields of an opened image that the growth reads besides those of `Image`.
pub record Source (W : Type 0) : Type 0 where
  pub img : Image W
  pub fd : Fd W
  pub labeled : Bool
  pub slice_size : ℕ

module _ {W : Type 0} where
  -- A size of the command line, in whole sectors, and within the limit unless `force` is given.
  unfoldable pub requested : Bool → Option ℕ → M W ℕ
  requested force none = fail einval
  requested force (some backing) = do
    require (backing % kib_bytes == 0) einval
    require (force || leb backing compat_max_bytes) efbig
    pure backing

module _ {W : Type 0} (os : Os W) (truncate : Fd W → ℕ → M W (Unit {0})) where
  -- The tests of the size against the image that is opened.
  unfoldable pub checked_target : Source W → ℕ → M W Target
  checked_target source backing = do
    let base = if source.labeled then source.img.slice_base else 0
    require (ltb base backing || not source.labeled) einval
    let slice = backing - base
    require (ltb source.slice_size slice) einval
    (if source.labeled
        then label_validate_single_slice source.fd source.img.slice_base
        else pure tt)
    let target = target_of source.img.sb backing slice
    require (target_ok source.img.sb target) einval
    pure target

  -- The file grows, then the label, the groups and the superblocks.
  unfoldable pub write_growth : Source W → Target → M W (Unit {0})
  write_growth source t = do
    let img = source.img
    let sb = img.sb
    require
        (not (
          ltb sb.csum_size t.cssize
          && ltb sb.frags_per_group (add32 sb.cyl_summary_addr (t.cssize / sb.frag_size))))
        einval
    malloc_or_fail os sb.super_size
    malloc_or_fail os sb.cg_size
    old_sb ← image_pread img sb.super_size sblock_offset
    truncate source.fd t.backing
    (if source.labeled
        then label_patch_slice_size source.fd img.slice_base t.slice >> pure tt
        else pure tt)
    tail ← grow_last_group os img t
    summed ← grow_summary os img t tail
    all ← add_groups os img (t.ncg - sb.cg_count) t sb.cg_count summed
    patch_and_write_superblocks os img old_sb t all
    image_fsync img

  -- Whether data was moved away, so that the growth has to begin again.
  unfoldable pub grow_opened : ℕ → Source W → M W Bool
  grow_opened backing source = do
    t ← checked_target source backing
    moves ←
        (if ltb source.img.sb.csum_size t.cssize
          then evacuate_summary_extension_range os source.img t.cssize
          else pure 0)
    if moves == 0 then write_growth source t >> pure false else image_fsync source.img >> pure true

  module _ (opened : M W (Source W)) (close : Source W → W → W) where
    -- The image is closed whatever comes out.
    unfoldable pub grow_once : ℕ → M W Bool
    grow_once backing =
        opened >>= (λ source w. let r = grow_opened backing source w in (r.0, close source r.1))

    -- The source calls itself again after data was moved; `rounds` bounds these calls.
    unfoldable pub grow_again : ℕ → ℕ → M W (Unit {0})
    grow_again zero backing = out_of_fuel
    grow_again (suc rounds) backing = do
      again ← grow_once backing
      if again then grow_again rounds backing else pure tt

    unfoldable pub resize_grow : ℕ → (List ℕ → Option (ℕ × List ℕ)) → List ℕ → Bool → M W (Unit {0})
    resize_grow rounds strtoull size force = do
      backing ← requested force (parse_size_bytes strtoull size sectors_1k)
      grow_again rounds backing
