-- ===== src/FakeVid/FormatLaws.antt =====
-- lkml/v4l2/vid4linux.c: the sizes that the driver states in different places.
use Prim.Native.Nat.{suc}
use native.Mathlib.Nat.{mod-eq_of_lt}
use bbblack.Base.{
  ℕ, ◌*◌, ◌/◌, ◌%◌, ◌^◌, ◌<◌, ◌≤◌, ◌≡◌, refl, ◌⊎◌, inl, inr, none, some, arith, get_elem?, zero,
  suc,
}
use bbblack.Base.Int.{pos, minus}
use bbblack.Base.Word.{u32_mod}
use bbblack.FakeVid.State.{FakeVidFmt, FakeVidDevice, Vb2}
use bbblack.FakeVid.Queue.{enomem, image_size, buf_prepare}
use bbblack.FakeVid.Format.{einval, formats, enum_fmt_vid_cap, g_fmt_vid_cap}

sizes_agree :
    (w h d p : ℕ)
    → d ≡ 8 * p
    → w * p < 2 ^ 29
    → w * h < u32_mod
    → h * (w * d % u32_mod / 2 ^ 3) % u32_mod ≡ w * h % u32_mod * p % u32_mod
sizes_agree w h d p e small fits =
    let eight : w * d ≡ 8 * (w * p) = rw e (omega arith) in
    let line : w * d % u32_mod / 2 ^ 3 ≡ w * p = rw eight (omega arith) in
    let product : h * (w * p) ≡ w * h * p = omega arith in rw (line, mod-eq_of_lt fits, product)

-- The image size that VIDIOC_G_FMT tells an application is the size that `buf_prepare` asks of its
-- buffers, if the depth of the format is that of `pixelsize` and neither a line in bits nor the
-- number of pixels overflows.
pub sizeimage-eq-image_size :
    (dev : FakeVidDevice)
    → dev.fmt.depth ≡ 8 * dev.pixelsize
    → dev.width * dev.pixelsize < 2 ^ 29
    → dev.width * dev.height < u32_mod
    → (g_fmt_vid_cap dev).1.sizeimage ≡ image_size dev
unfolding g_fmt_vid_cap image_size
sizeimage-eq-image_size dev e h k =
    sizes_agree dev.width dev.height dev.fmt.depth dev.pixelsize e h k

-- `buf_prepare` accepts a buffer exactly when its plane holds an image.
pub buf_prepare_lem :
    (vb2 : Vb2) (dev : FakeVidDevice) (b : ℕ)
    → let (r, d) = buf_prepare vb2 dev b in
      ((vb2.plane_size b < image_size dev) × (r ≡ minus enomem) × (d ≡ dev))
      ⊎ ((image_size dev ≤ vb2.plane_size b)
          × (r ≡ pos 0)
          × ((d.frames b).payload ≡ image_size dev)
          × ((d.frames b).fmt ≡ some dev.fmt))
unfolding buf_prepare
buf_prepare_lem vb2 dev b = ground arith

pub enum_fmt_vid_cap_lem :
    (i : ℕ)
    → ((i < 2)
        × ((fmt : FakeVidFmt) × (get_elem? formats i ≡ some fmt)
            × (enum_fmt_vid_cap i
                ≡ (pos 0, some (record { description = fmt.name; pixelformat = fmt.fourcc })))))
      ⊎ ((2 ≤ i) × (enum_fmt_vid_cap i ≡ (minus einval, none)))
unfolding enum_fmt_vid_cap
enum_fmt_vid_cap_lem zero = inl (omega arith, (_, refl, refl))
enum_fmt_vid_cap_lem (suc zero) = inl (omega arith, (_, refl, refl))
enum_fmt_vid_cap_lem (suc (suc i)) = inr (omega arith, ground arith)
