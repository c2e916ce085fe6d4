-- ===== src/Web.antt =====
-- frontendServer/response.cc, frontendServer/request.cc and frontendServer/util.cc: the web server.
-- A request is read by Request, and answered by Response, which chooses the handler; the handlers
-- stand in Account, Folders, Letters and Admin, over the state and the interfaces of Site.
pub mod Escape
pub mod Template
pub mod Request
pub mod Site
pub mod Reply
pub mod Paths
pub mod Listing
pub mod Account
pub mod Folders
pub mod Letters
pub mod Admin
pub mod Response
pub mod Seats
pub mod Access
pub mod Storages
