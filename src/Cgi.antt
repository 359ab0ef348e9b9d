-- ===== src/Cgi.antt =====
-- cgi.go: the CGI view of a request path.
pub mod RequestPath
pub mod Containment
pub mod SplitPos
pub mod SplitPosScan
pub mod SplitPosLaws
pub mod SplitPosCase
pub mod Context
pub mod ContextLaws
pub mod DotSegments
mod Examples
