-- ===== src/Client.antt =====
-- The Qt client: its parsers, its model of the world, its connection and the thread of it, and the window with
-- its panels, without the widgets.
pub mod Parsers
pub mod WorldModel
pub mod Network
pub mod Runtime
pub mod Panels
pub mod Window
pub mod Grid
