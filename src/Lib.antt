-- ===== src/Lib.antt =====
-- Verification library for the kernel modules and test programs under lkml/. The repository holds
-- independent drivers for a BeagleBone Black and for x86, and a few programs in user space that
-- exercise them; the parts that are modelled are these.
--
-- - FakeVid models lkml/v4l2/vid4linux.c, a capture driver without hardware. `FakeVid.State` has
--   its structures (`fake_vid_device`, `single_frame`, `fake_vid_fmt`), `FakeVid.Queue` the
--   operations of `vb2_ops` that work on one buffer and `start_streaming`, `FakeVid.Thread` the
--   function `frame_generation_thread` and `stop_streaming`, `FakeVid.Format` the ioctls on
--   capabilities and formats, and `FakeVid.Init` the functions `v4l2_init` and `v4l2_exit`. The
--   thread can be preempted, so it is modelled by turns: one turn goes from the head of its loop
--   to the end of the critical section, the next writes the frame and hands it back.
--   `FakeVid.Schedule` interleaves the turns with queueing, starting and stopping; a schedule is a
--   list of events, `run` its effect, and `IsLegal` says when videobuf2 makes the calls. The
--   ledger of a state is the list of all buffers that the driver was given, in the order in which
--   they left or will leave it. `FakeVid.Refine` sets the driver against a plain queue, and
--   `FakeVid.Content` follows what is in the memory of the buffers.
-- - Irq models lkml/dmtimer/irq.c, the interrupt chip with four lines behind timer 7, and Dmtimer
--   models lkml/dmtimer/dmtimer.c, the platform driver of the timer, which sets the chip up in its
--   probe and raises its nested interrupt from its handler. Calls with an effect (memory regions,
--   mappings, interrupts, register writes) are recorded in order in the state.
-- - Bus models lkml/ldm, a bus of its own for the driver model: `Bus.Types` has
--   lkml/ldm/include/custom_bus.h, `Bus.Core` lkml/ldm/bus/custom_device.c and `Bus.Client`
--   lkml/ldm/driver/custom_driver.c. Texts are the lists of their bytes, without the NUL.
-- - Netfilter models lkml/netfilter/netfilter.c, two hooks that let all packets through or drop
--   them, and the sysfs file that switches them.
-- - CharDev models lkml/mmap/char-drv.c and lkml/char-drv/epm.c, two character devices, and
--   lkml/mmap-app/drv.c, a program that reads from the first. The kernel is an argument of the
--   program; `CharDev.ReaderLaws` fills it with the device.
-- - Grabber models lkml/v4l2-app/grabber.c, the program that captures from a video device.
--   `Grabber.Types` has its globals, what it asks of the kernel, and the outcomes of a run: a call
--   returns, or the process exits, is aborted by `assert`, accesses memory outside an array, or
--   has used up its fuel. `Grabber.Frames` has `xioctl`, `read_frame`, `mainloop` and the start
--   and stop of a stream, `Grabber.Setup` the set-up and its undoing, `Grabber.Main` the options
--   and `main`. `Grabber.Asks` and `Grabber.Loop` are proof rules for its requests and for
--   `mainloop`. `Grabber.Plain`, `Grabber.Accepted` and `Grabber.Fits` set the program up on the
--   fake driver.
-- - Capture puts the program of lkml/v4l2-app/grabber.c on the driver of lkml/v4l2/vid4linux.c.
--   The two meet only through the kernel, which is an argument of the program; `Capture.Videobuf2`
--   says what videobuf2 documents of it: a `View` shows which schedule the driver has gone
--   through, whether the stream runs, and which buffers were given and taken. `Capture.Rotation`
--   and `Capture.Start` follow a capture through it, `Capture.Filled` what is in its buffers, and
--   `Capture.Stall` a stream whose thread has returned.
-- - DrmApp models lkml/drm-app/drm_app.c, a program that paints the screens of a DRM device.
--   `DrmApp.Types` has the structures of the ioctls and the variables of `main`, `DrmApp.Scan` the
--   requests and the loop over the connectors (from `get_resources` to `scan`), and `DrmApp.Show`
--   the loop that paints, and `main`. An array of 64-bit identifiers is the list of the 32-bit
--   words in its memory, since that is what the kernel stores there.
-- - Pwm models lkml/ehrpwm, a platform driver for a PWM module. `Pwm.Driver` has its probe, its
--   removal and one round of its thread; an access outside the mappings that there are ends in a
--   fault. `Pwm.Module` has the load and the exit of the module, and `Pwm.Steps` the steps of the
--   thread next to those of `pwm_exit` and to a removal of the device.
-- - Network models lkml/network/netcapture.c, a module that captures packets, and lkml/vlan-
--   app/vlan_packet.c, a program that sends them. `Network.Capture` has the handler and the load,
--   `Network.CaptureLaws` what the kernel documents of a handler in its list, and `Network.Sender`
--   the program.
-- - Pl111 models lkml/drm/fb_pl111.c, a DRM driver for a framebuffer, by its probe, its one mode,
--   its load and its unload, and Gpio models lkml/gpio/gpio.c, a module with a line for a button.
-- - Base has the helpers that all parts share: tests and lists over the native numbers, C's `int`
--   as an integer, words of 32 bits with their wrap-around and bitwise operators, and in
--   `Base.Run` the programs that pass a state on and may end (`Outcome`), with the rules by which
--   theorems go through them, part by part.
--
-- What the kernel, videobuf2, the C library, `getopt_long`, `sscanf` and `strtol` do is not
-- modelled. Their answers are arguments: a record `Answers`, an event of the schedule, or a
-- function (`kthread_stop`, `sscanf`, `strtol`, the record `Kernel`). Where a theorem relies on
-- documented behaviour of theirs, that is a hypothesis with a name: `StopsThread` (`kthread_stop`
-- waits until the thread has returned, which it may have done before), `Interrupts` (a request is
-- interrupted finitely often), `Delivers` (a device that delivers frames), `Provides` (a kernel
-- with memory to give), `Videobuf2` (buffers are passed on and given back in order),
-- `OnFakeDriver` (a kernel that answers as the handlers of the fake driver do).
--
-- Numbers are the native naturals. Fields of 32 bits wrap at `u32_mod` where the source computes
-- with them, and signed results are the integers of `Base.Int`. Only three endless loops run on
-- fuel: two of grabber.c, in `attempts` and in `next_frame`, and the loop of vlan_packet.c, which
-- does not end; for those of grabber.c, with the measure `patience`, which every interruption and
-- every empty-handed return reduces, any fuel above the patience of the first state is enough. All
-- other loops are over lists or counters. C does not define what an access outside an array does:
-- a run goes as far as that access in the model, and ends there with `faults`. The same outcome
-- stands for an access of a driver outside its mappings.
--
-- Not modelled are text written to logs and terminals (but for the lines of netcapture.c, which
-- are its purpose) and tables of callbacks but those of vid4linux.c, which are in
-- `FakeVid.Tables`. The code that dmtimer.c has under DEBUG and SINGLE is left out, as it is not
-- built.
pub mod Base
pub mod Bus
pub mod Capture
pub mod CharDev
pub mod Dmtimer
pub mod DrmApp
pub mod FakeVid
pub mod Gpio
pub mod Grabber
pub mod Irq
pub mod Netfilter
pub mod Network
pub mod Pl111
pub mod Pwm
