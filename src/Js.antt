-- ===== src/Js.antt =====
-- The part of JavaScript that the sources use.
pub mod Text
pub mod Number
pub mod Value
pub mod Results
pub mod Objects
pub mod Program
