-- ===== src/Document.antt =====
-- storage/project-document.js: the rows of the database that a project document is taken apart into,
-- and the document that is put together from them. A column of JSON holds a value of a type `J`, an
-- object that the platform does not look into. A time is kept as its text.
pub mod Texts
pub mod CursorRows
pub mod Stable
mod Examples
