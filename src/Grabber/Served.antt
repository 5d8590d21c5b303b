-- ===== src/Grabber/Served.antt =====
-- lkml/v4l2-app/grabber.c with lkml/v4l2/vid4linux.c: which requests of the program the driver serves.
use bbblack.Base.{Option, none, some}
use bbblack.FakeVid.Tables.{Ioctl, fake_ioctl_ops}
use bbblack.Grabber.Types.{Request}
use bbblack.Grabber.Memory.{IsNeeded}

-- The field of the table by which a request is served
abbrev field_of : Request → Ioctl
field_of Request.querycap = Ioctl.querycap
field_of Request.cropcap = Ioctl.cropcap
field_of (Request.s_crop r) = Ioctl.s_crop
field_of (Request.s_fmt f) = Ioctl.s_fmt_vid_cap
field_of Request.g_fmt = Ioctl.g_fmt_vid_cap
field_of (Request.reqbufs m n) = Ioctl.reqbufs
field_of (Request.querybuf b) = Ioctl.querybuf
field_of (Request.qbuf b) = Ioctl.qbuf
field_of (Request.dqbuf b) = Ioctl.dqbuf
field_of Request.streamon = Ioctl.streamon
field_of Request.streamoff = Ioctl.streamoff

IsServed : {A : Type 0} → Option A → Type 0
IsServed none = ⊥
IsServed (some a) = Unit

-- The driver serves every request that the program cannot do without.
needed-IsServed : (r : Request) → IsNeeded r → IsServed (fake_ioctl_ops (field_of r))
unfolding IsServed
needed-IsServed Request.querycap h = tt
needed-IsServed Request.cropcap h = h
needed-IsServed (Request.s_crop r) h = h
needed-IsServed (Request.s_fmt f) h = tt
needed-IsServed Request.g_fmt h = tt
needed-IsServed (Request.reqbufs m n) h = tt
needed-IsServed (Request.querybuf b) h = tt
needed-IsServed (Request.qbuf b) h = tt
needed-IsServed (Request.dqbuf b) h = tt
needed-IsServed Request.streamon h = tt
needed-IsServed Request.streamoff h = tt
