-- ===== src/Input.antt =====
-- rkvm-master/rkvm-input/src: the events of input devices.
pub mod Axes
pub mod Button
pub mod Keyboard
pub mod Codes
pub mod Interceptor
pub mod Faithful
pub mod Caps
pub mod Registry
