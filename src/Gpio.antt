-- ===== src/Gpio.antt =====
-- lkml/gpio/gpio.c, a module that asks for a line with a button.
mod Button
mod Balance
mod Tests
