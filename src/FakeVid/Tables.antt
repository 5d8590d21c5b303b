-- ===== src/FakeVid/Tables.antt =====
-- lkml/v4l2/vid4linux.c: the tables of callbacks, as functions from an operation to what serves it.
use bbblack.Base.{Option, none, some}

-- The fields of `struct v4l2_ioctl_ops` that the source names, also those that it names in a comment,
-- and two that it does not name.
pub data Ioctl : Type 0 where
  querycap enum_fmt_vid_cap g_fmt_vid_cap s_fmt_vid_cap try_fmt_vid_cap : Ioctl
  querystd g_std s_std enum_input g_input s_input : Ioctl
  reqbufs querybuf qbuf dqbuf streamon streamoff expbuf : Ioctl
  log_status subscribe_event unsubscribe_event : Ioctl
  cropcap s_crop : Ioctl

-- Functions of the driver, of videobuf2 and of the control framework
pub data Handler : Type 0 where
  vidioc_querycap vidioc_enum_fmt_vid_cap vidioc_g_fmt_vid_cap vidioc_s_fmt_vid_cap : Handler
  vb2_ioctl_reqbufs vb2_ioctl_querybuf vb2_ioctl_qbuf vb2_ioctl_dqbuf : Handler
  vb2_ioctl_streamon vb2_ioctl_streamoff vb2_ioctl_expbuf : Handler
  v4l2_ctrl_log_status v4l2_ctrl_subscribe_event v4l2_event_unsubscribe : Handler

-- `fake_ioctl_ops`; a field that is not set is NULL.
abbrev pub fake_ioctl_ops : Ioctl → Option Handler
fake_ioctl_ops querycap = some vidioc_querycap
fake_ioctl_ops enum_fmt_vid_cap = some vidioc_enum_fmt_vid_cap
fake_ioctl_ops g_fmt_vid_cap = some vidioc_g_fmt_vid_cap
fake_ioctl_ops s_fmt_vid_cap = some vidioc_s_fmt_vid_cap
fake_ioctl_ops reqbufs = some vb2_ioctl_reqbufs
fake_ioctl_ops querybuf = some vb2_ioctl_querybuf
fake_ioctl_ops qbuf = some vb2_ioctl_qbuf
fake_ioctl_ops dqbuf = some vb2_ioctl_dqbuf
fake_ioctl_ops streamon = some vb2_ioctl_streamon
fake_ioctl_ops streamoff = some vb2_ioctl_streamoff
fake_ioctl_ops expbuf = some vb2_ioctl_expbuf
fake_ioctl_ops log_status = some v4l2_ctrl_log_status
fake_ioctl_ops subscribe_event = some v4l2_ctrl_subscribe_event
fake_ioctl_ops unsubscribe_event = some v4l2_event_unsubscribe
fake_ioctl_ops _ = none

-- The calls of a program on the file of the device
pub data FileOp : Type 0 where
  open_file release read poll mmap ioctl write : FileOp

pub data FileHandler : Type 0 where
  v4l2_fh_open vb2_fop_release vb2_fop_read vb2_fop_poll vb2_fop_mmap video_ioctl2 : FileHandler

-- `vid4linux_fops`
abbrev pub vid4linux_fops : FileOp → Option FileHandler
vid4linux_fops open_file = some v4l2_fh_open
vid4linux_fops release = some vb2_fop_release
vid4linux_fops read = some vb2_fop_read
vid4linux_fops poll = some vb2_fop_poll
vid4linux_fops mmap = some vb2_fop_mmap
vid4linux_fops ioctl = some video_ioctl2
vid4linux_fops write = none

-- What videobuf2 calls of the driver
pub data Vb2Op : Type 0 where
  queue_setup buf_prepare buf_queue start_streaming stop_streaming buf_init buf_finish : Vb2Op
  wait_prepare wait_finish : Vb2Op

-- `fake_video_ops`: a function of the driver, under the name of the field, or one of videobuf2.
pub data Vb2Handler : Type 0 where
  own : Vb2Op → Vb2Handler
  vb2_ops_wait_prepare vb2_ops_wait_finish : Vb2Handler

abbrev pub fake_video_ops : Vb2Op → Option Vb2Handler
fake_video_ops wait_prepare = some vb2_ops_wait_prepare
fake_video_ops wait_finish = some vb2_ops_wait_finish
fake_video_ops buf_finish = none
fake_video_ops op = some (own op)
