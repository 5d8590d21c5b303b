-- ===== src/Pwm.antt =====
-- lkml/ehrpwm, the platform driver that sets a PWM module up and prints its registers from a thread.
mod Driver
mod Access
mod Registers
mod Regions
mod Steps
mod Unload
mod Missing
mod Module
mod Tests
