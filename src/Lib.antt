-- ===== src/Lib.antt =====
-- Verification of httpdirfs, a FUSE file system that shows the directories of an HTTP server.
--
-- A FUSE handler (src/fuse_local.c) resolves a path to a `Link` in a tree of link tables
-- (src/link.c), which are built from the server's HTML pages, and reads the file of the link,
-- either by a download (src/link.c, src/network.c) or through a cache on disk (src/cache.c), which
-- downloads a file block by block and remembers in a metadata file which blocks it has. The
-- development models the cache from its files up to `Cache_read`, its opening and closing, the
-- list by which the threads share downloads, the download of a link and the buffer of a transfer,
-- and of the link tables the names, the set of names, the origins, the rewriting of URLs, the
-- resolution of paths, the file on disk and the answers that settle a link.
--
-- Prelude           shared names; tests, lists, C integers (`ℤ`), bit masks, and `Run`, the
--                   outcome of C code: a value, a fatal exit, a fault (undefined behaviour: an
--                   access outside an object or to a freed one, an overflow of a signed integer,
--                   a division by zero) or fuel that is used up
-- Util/Paths        path_append of src/util.c
-- Link/Names        linkname_to_LinkType, link_linknames_equal and link_hash_str of src/link.c
-- Link/HashSet      LinkHashSet_new, LinkHashSet_add, LinkHashSet_resize of src/link.c, an open
--                   addressing table with linear probing
-- Link/Origin       is_external_url, parse_origin and is_cross_origin of src/link.c
-- Link/Urls         make_link_relative, external_url_to_filename and url_to_cache_path of
--                   src/link.c; curl_easy_unescape is a parameter
-- Link/Disk         LinkTable_disk_save and LinkTable_disk_open of src/link.c
-- Link/Resolve      path_to_Link, path_to_Link_recursive, LinkTable_unref and LinkTable_free of
--                   src/link.c, on a heap of tables; what the function of the mode (CONFIG.mode)
--                   makes of a link, and what other threads do while `link_lock` is free, are
--                   parameters
-- Link/Stat         Link_set_file_stat of src/link.c: what an answer makes of the type of a link
-- Link/Download     Link_download of src/link.c with its retries, and HTTP_temp_failure of
--                   src/network.c; what the server answers to each attempt (`server`), and what the
--                   other threads do to the list of downloads meanwhile (`others`), are parameters
-- Cache/Stdio       fseek, fread, fwrite on a stream, with its file's bytes and indicators
-- Cache/Words       the bytes of `long` and `int` in memory (64 and 32 bits, little endian)
-- Cache/State       `struct Cache` of src/cache.h: the streams, the link and the marks
-- Cache/Meta        Meta_read and Meta_write of src/cache.c
-- Cache/Seg         Seg_exist and Seg_set
-- Cache/Data        Data_read and Data_write
-- Cache/Downloads   ActiveDownload_find, _add, _remove, _unref and Cache_waiter_decrement, on a
--                   heap of nodes; the critical sections under `dl_lock` are the steps of a
--                   relation, which the threads take in any order; the part of
--                   Link_download in it, and the loop of Cache_free
-- Cache/Files       the files under META_DIR and DATA_DIR and the functions that create, test and
--                   remove them; flags say which calls of the system succeed
-- Cache/Lifecycle   Cache_create, Cache_delete, Cache_open and Cache_close for one link, over what
--                   path_to_Link and the functions of its key give; with the marks of
--                   Cache/Segments, what is kept from one opening to the next
-- Cache/Reading     Cache_read, over an interface for Cache_read_segment
-- Cache/Segments    Cache_read_segment, Cache_bgdl and Cache_bgdl_launcher: one function for each
--                   critical section, and a relation that takes the sections of all threads in any
--                   order; what the network brings is an input of each step: what Link_download
--                   returns, and what a transfer has in its buffer, which may be an error's body
-- Main/Config       parse_config_file and add_arg of src/main.c
-- Network/Memcache  write_memory_callback of src/memcache.c, by which curl hands over what it
--                   receives
--
-- A function of the source has the name it has there, in lower case with underscores; the helpers
-- beside it are its loops and what follows one of its branches. A C string is the list of its
-- bytes before the NUL; a result -errno is a negative integer. A function that changes a
-- `Cache` takes the old one and gives the new one.
--
-- The loops of link.c over strings and of the lists are structural recursions. The probe of the
-- set of names has as much fuel as the table has buckets, which is enough since a table always
-- has a free bucket; the loop that doubles its capacity has 31 rounds, thirty doublings and the
-- last test; a doubling that does not fit an int is a fault.
-- The loop of Cache_read has one unit more than the number of bytes asked for; each round takes at
-- least one byte. Link_download repeats as long as the server asks for it: its fuel is the number
-- of attempts up to the first final answer. The two attempts of Cache_open are its own bound.
--
-- The steps of Cache/Segments need no fuel: a reader may repeat its search as often as it has to.
--
-- A path is resolved with one unit more than its bytes, and each recursion removes one at least.
-- LinkTable_free has as much fuel as addresses were allocated, and so has LinkTable_unref.
--
-- A write of stdio (`fwrite` of Cache/Stdio) writes all or nothing, by a flag of the stream: a write
-- of a part, and an error that comes with the flush at the close, are not modelled. A stored link
-- (`Entry` of Link/Disk) has the members that LinkTable_disk_save writes; the pointers of the
-- struct, and what the file does not have, are left out.
--
-- Not modelled: that every reader of a segment comes to its end, which needs threads that are
-- scheduled fairly, and which the interface of Cache/Reading asks for; that what a waiting reader
-- copies is the file's, which that interface asks for too, and which only holds while no error's
-- body is in the buffer of the transfer; that the list of downloads never faults under these
-- threads, which Cache/Downloads shows for its own steps only; the set-up of the cache directories;
-- the construction of link tables and path_to_LinkTable; Link_download_full and path_download; the
-- FUSE handlers, the command line and the Airsonic mode. Logging, the wrappers of pthread calls and
-- the set-up of curl do not compute anything that these parts use. Memory that cannot be allocated
-- ends the program in the source, and is not modelled.
pub mod Prelude
pub mod Util
pub mod Link
pub mod Main
pub mod Cache
pub mod Network
