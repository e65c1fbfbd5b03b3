-- ===== src/Tests.antt =====
-- The theorems at concrete inputs, and runs of the definitions that can be followed in the source.
mod Concrete
mod Packet
mod Router
mod DutyCycle
mod App
mod Desk
mod Loop
mod Devices
mod View
mod Picture
mod Beacon
mod Heard
mod Typing
mod Remote
mod WireCommand
mod Wire
mod Web
