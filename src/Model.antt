-- ===== src/Model.antt =====
-- internal/model/record.go: the status taxonomy and the record shape.
pub mod Status
pub mod Mask
pub mod Record
