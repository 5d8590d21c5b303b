-- ===== src/FakeVid/Format.antt =====
-- lkml/v4l2/vid4linux.c: the table of formats and the ioctls on capabilities and formats.
use bbblack.Base.{
  ℕ, ◌-◌, ◌*◌, ◌/◌, ◌%◌, ◌^◌, Bool, true, false, Option, none, some, List, [], ◌∷◌, ◌++◌, leb,
  if◌then◌else◌, length, get_elem?, take, codes,
}
use bbblack.Base.Int.{ℤ, pos, minus}
use bbblack.Base.Word.{u32_mod}
use bbblack.FakeVid.State.{Fourcc, rgb24, rgb555, yuyv, uyvy, FakeVidFmt, FakeVidDevice}

abbrev pub einval : ℕ
einval = 22

-- `formats[]`
abbrev pub rgb24_fmt : FakeVidFmt
rgb24_fmt = record { name = codes "RGB24"; fourcc = rgb24; depth = 24 }

abbrev pub rgb555_fmt : FakeVidFmt
rgb555_fmt = record { name = codes "RGB555"; fourcc = rgb555; depth = 16 }

abbrev pub formats : List FakeVidFmt
formats = rgb24_fmt ∷ rgb555_fmt ∷ []

-- The V4L2_CAP bits that the driver sets.
pub data Cap : Type 0 where
  video_capture streaming readwrite device_caps : Cap

pub record Capability : Type 0 where
  pub driver : List ℕ
  pub card : List ℕ
  pub bus_info : List ℕ
  pub device_caps : List Cap
  pub capabilities : List Cap

-- `strlcpy(dst, src, size)`: what is in `dst` up to its NUL.
abbrev pub strlcpy : List ℕ → ℕ → List ℕ
strlcpy src size = take (size - 1) src

-- The name of the `v4l2_device` is an argument. `cap->bus_info` has 32 bytes.
unfoldable pub querycap : List ℕ → ℤ × Capability
querycap v4l2dev_name = (
  pos 0,
  record {
    driver = codes "fake_vid_device";
    card = codes "fake_vid_device";
    bus_info = strlcpy v4l2dev_name 32;
    device_caps = caps;
    capabilities = caps ++ (Cap.device_caps ∷ []);
  },
)
  where
    caps : List Cap
    caps = video_capture ∷ streaming ∷ readwrite ∷ []

-- The fields of `struct v4l2_fmtdesc` that `vidioc_enum_fmt_vid_cap` writes.
pub record FmtDesc : Type 0 where
  pub description : List ℕ
  pub pixelformat : Fourcc

-- By the entry `formats[f->index]`. `f->description` has 32 bytes.
describe : Option FakeVidFmt → Option FmtDesc
describe none = none
describe (some fmt) = some (record { description = strlcpy fmt.name 32; pixelformat = fmt.fourcc })

-- The second component is what is written to `f`, if anything is.
unfoldable pub enum_fmt_vid_cap : ℕ → ℤ × Option FmtDesc
unfolding describe
enum_fmt_vid_cap index =
    if leb (length formats) index
    then (minus einval, none)
    else (pos 0, describe (get_elem? formats index))

pub data Colorspace : Type 0 where
  smpte170m srgb : Colorspace

-- V4L2_FIELD_INTERLACED is the one field order that the driver names.
pub data Field : Type 0 where
  interlaced : Field

pub record PixFormat : Type 0 where
  pub width : ℕ
  pub height : ℕ
  pub field : Field
  pub pixelformat : Fourcc
  pub bytesperline : ℕ
  pub sizeimage : ℕ
  pub colorspace : Colorspace

abbrev is_yuyv_or_uyvy : Fourcc → Bool
is_yuyv_or_uyvy yuyv = true
is_yuyv_or_uyvy uyvy = true
is_yuyv_or_uyvy _ = false

unfoldable pub g_fmt_vid_cap : FakeVidDevice → ℤ × PixFormat
g_fmt_vid_cap dev = (
  pos 0,
  record {
    width = dev.width;
    height = dev.height;
    field = interlaced;
    pixelformat = dev.fmt.fourcc;
    bytesperline = bytesperline;
    sizeimage = dev.height * bytesperline % u32_mod;
    colorspace = if is_yuyv_or_uyvy dev.fmt.fourcc then smpte170m else srgb;
  },
)
  where
    bytesperline : ℕ
    bytesperline = dev.width * dev.fmt.depth % u32_mod / 2 ^ 3

-- `vidioc_s_fmt_vid_cap` refuses every format and changes nothing.
unfoldable pub s_fmt_vid_cap : FakeVidDevice → ℤ × FakeVidDevice
s_fmt_vid_cap dev = (minus 1, dev)
