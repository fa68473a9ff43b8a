-- ===== src/Cache/State.antt =====
-- `struct Cache` of src/cache.h: the fields for the two files and the segment marks. The fields
-- that `dl_lock` guards are in Cache/Downloads.
use httpdirfs.Prelude.{ℕ, ◌-◌, ◌^◌, List, Option}
use httpdirfs.Prelude.Int.{ℤ}
use httpdirfs.Cache.Stdio.{File}

-- the fields of `struct Link` that the cache reads
pub record Link : Type 0 where
  pub content_length : ℕ
  pub time : ℤ

pub record Cache : Type 0 where
  pub dfp : Option File
  pub mfp : Option File
  pub link : Option Link
  pub blksz : ℤ
  pub segbc : ℤ
  pub seg : List ℕ

-- the errno values that the functions of the cache return; `enone` is 0
pub data Errno : Type 0 where
  enone eio einval ebadmsg : Errno

abbrev pub int_max : ℕ
int_max = 2 ^ 31 - 1

abbrev pub int64_max : ℕ
int64_max = 2 ^ 63 - 1
