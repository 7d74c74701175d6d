-- ===== src/FileSystem.antt =====
-- What the program reads of the file system and of std::filesystem while one operation runs:
-- `canonical` is `CanonicalAbsolutePath`, the lexically normal form of the absolute path (the
-- working directory is fixed); `append` is `operator/`; `read` is none where a file cannot be opened.
use spio.Prelude.{Bytes, Bool, Option}

pub record FileSystem : Type 0 where
  pub canonical : Bytes → Bytes
  pub parent_path : Bytes → Bytes
  pub append : Bytes → Bytes → Bytes
  pub relative_to : Bytes → Bytes → Bytes
  pub is_absolute : Bytes → Bool
  pub exists : Bytes → Bool
  pub is_regular_file : Bytes → Bool
  pub read : Bytes → Option Bytes
