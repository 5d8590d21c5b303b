-- ===== src/Grabber/Plain.antt =====
-- lkml/v4l2-app/grabber.c with lkml/v4l2/vid4linux.c: the options of a plain run, and a kernel that
-- answers as the fake driver does.
use Prim.Native.Nat.{bit_or}
use bbblack.Base.{ℕ, ◌≤◌, ◌≡◌, refl, true, some, List, [], ◌∷◌, All}
use bbblack.Base.Int.{ℤ}
use bbblack.FakeVid.State.{FakeVidDevice}
use bbblack.Grabber.Format.{times_forced}
use bbblack.FakeVid.Format.{
  g_fmt_vid_cap, Cap, video_capture, streaming, readwrite, device_caps, querycap as fake_querycap,
}
use bbblack.Grabber.Types.{querycap, g_fmt, done, Kernel}
use bbblack.Grabber.Main.{
  Opt, flag, device, help, memory_mapped, read_calls, user_pointers, output, format, count, unknown,
}

-- The bits of `enum v4l2_capability`, in the header of the interface
abbrev bit_of : Cap → ℕ
bit_of video_capture = 0x0000_0001
bit_of readwrite = 0x0100_0000
bit_of streaming = 0x0400_0000
bit_of device_caps = 0x8000_0000

abbrev pub word_of : List Cap → ℕ
word_of [] = 0
word_of (c ∷ cs) = bit_or (bit_of c) (word_of cs)

module _ (strtol : List ℕ → ℤ × ℕ) where
  -- Options with which the program goes on, and which leave the format as it is
  abbrev pub IsPlain : Opt → Type 0
  IsPlain help = ⊥
  IsPlain unknown = ⊥
  IsPlain format = ⊥
  IsPlain (count text) = (strtol text).1 ≡ 0
  IsPlain _ = Unit

  pub plain_unforced : (os : List Opt) → All IsPlain os → times_forced os ≡ 0
  plain_unforced [] h = refl
  plain_unforced (format ∷ os) h = absurd h.0
  plain_unforced (help ∷ os) h = absurd h.0
  plain_unforced (unknown ∷ os) h = absurd h.0
  plain_unforced (count text ∷ os) h = plain_unforced os h.1
  plain_unforced (flag ∷ os) h = plain_unforced os h.1
  plain_unforced (device n ∷ os) h = plain_unforced os h.1
  plain_unforced (memory_mapped ∷ os) h = plain_unforced os h.1
  plain_unforced (read_calls ∷ os) h = plain_unforced os h.1
  plain_unforced (user_pointers ∷ os) h = plain_unforced os h.1
  plain_unforced (output ∷ os) h = plain_unforced os h.1

module _ {W : Type 0} (K : Kernel W) (patience : W → ℕ) where
  -- A device that is there and can be opened, which answers as the fake driver does for `dev`
  pub record OnFakeDriver (name : List ℕ) (dev : FakeVidDevice) : Type 0 where
    pub stat_is_chr :
        (path : List ℕ) (w : W)
        → (v : W) × (K.stat_is_chr path w ≡ (some true, v)) × (patience v ≤ patience w)
    pub open_file :
        (path : List ℕ) (w : W)
        → (n : ℕ) × (v : W) × (K.open_file path w ≡ (some n, v)) × (patience v ≤ patience w)
    pub format :
        (fd : ℤ) (w : W) (ret size : ℕ)
        → (K.ioctl fd g_fmt w).0 ≡ done ret size
        → size ≡ (g_fmt_vid_cap dev).1.sizeimage
    pub capabilities :
        (fd : ℤ) (w : W) (ret caps : ℕ)
        → (K.ioctl fd querycap w).0 ≡ done ret caps
        → caps ≡ word_of (fake_querycap name).1.capabilities
