-- ===== src/Link.antt =====
-- src/link.c: names of links, the set of names already seen.
pub mod Names
pub mod HashSet
pub mod Origin
pub mod Urls
pub mod Download
pub mod Disk
pub mod Stat
pub mod Resolve
